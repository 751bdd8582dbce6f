-- ===== src/Scheduler/Scores/Reference.antt =====
-- The scores in float64 against the scores in whole numbers (prioritize/hostpath_diskusage.go).
use hostpathpv_plugin.Base.{
  Bool-cases, inl, inr, false, ℕ, zero, suc, ◌≡◌, refl, ap, ◌∙◌, Bool, true, ◌==◌, ◌*◌, ◌/◌, ◌≤◌,
  ◌<◌, ◌^◌, arith, List, [], ◌∷◌, map, All, ltb, ltb_ℤ, if◌then◌else◌, ℤ, pos, pos_part,
}
use hostpathpv_plugin.Util.Float.{Float, of_int, times, over, truncated}
use hostpathpv_plugin.Scheduler.Scores.{
  HostPriority, max_count, int64_of, tenths, rescaled, reduce_scoring_node,
}

-- A test of the scores from 0 to the given one.
tested_to : (ℕ → Bool) → ℕ → Bool
tested_to test zero = test 0
tested_to test (suc k) = if test (suc k) then tested_to test k else false

tested_to-at :
    (test : ℕ → Bool) (top score : ℕ) → score ≤ top → tested_to test top ≡ true → test score ≡ true
unfolding tested_to
tested_to-at test zero zero le passed = passed
tested_to-at test zero (suc score) le passed = absurd (omega arith)
tested_to-at test (suc top) score le passed = elim (Bool-cases (score == suc top)) [
  | inl last ↦ ground arith
  | inr earlier ↦ ground (arith, tested_to-at test top score)
]

in_float : ℕ → ℕ → ℕ
unfolding of_int times over truncated
in_float best score = truncated (times (of_int 10) (over (of_int score) (of_int best)))

row : ℕ → Bool
row best = tested_to (λ score. in_float best score == 10 * score / best) best

-- All scores up to 100, by evaluation.
table : tested_to row 100 ≡ true
unfolding row tested_to in_float
table = refl

row-at :
    (best score : ℕ)
    → score ≤ best
    → row best ≡ true
    → (in_float best score == 10 * score / best) ≡ true
unfolding row
row-at best score le passed =
    tested_to-at (λ s. in_float best s == 10 * s / best) best score le passed

equal_of : (a b : ℕ) → (a == b) ≡ true → a ≡ b
equal_of a b h = ground arith

in_float-exact :
    (best score : ℕ) → best ≤ 100 → score ≤ best → in_float best score ≡ 10 * score / best
in_float-exact best score small below =
    equal_of (in_float best score) (10 * score / best)
      (row-at best score below (tested_to-at row 100 best small table))

-- The reference: the best score, and each score in tenths of it, rounded down.
abbrev larger : ℕ → ℕ → ℕ
larger a b = if ltb a b then b else a

abbrev pub best_score : List HostPriority → ℕ
best_score [] = 0
best_score (p ∷ ps) = larger (pos_part p.score) (best_score ps)

abbrev pub in_tenths : ℕ → HostPriority → HostPriority
in_tenths zero p = record p { score = pos 0 }
in_tenths (suc best) p = record p { score = pos (10 * pos_part p.score / suc best) }

-- A score in percent.
abbrev pub IsPercent : HostPriority → Type 0
IsPercent p = (p.score ≡ pos (pos_part p.score)) × (pos_part p.score ≤ 100)

larger_assoc : (a b c : ℕ) → larger (larger a b) c ≡ larger a (larger b c)
larger_assoc a b c = ground arith

max_count-best :
    (ps : List HostPriority) (b : ℕ)
    → All IsPercent ps
    → max_count ps (pos b) ≡ pos (larger b (best_score ps))
unfolding max_count
max_count-best [] b h = ground arith
max_count-best (p ∷ ps) b h =
    let n = pos_part p.score in
    let next : (if ltb_ℤ (pos b) p.score then p.score else pos b) ≡ pos (larger b n) =
      ground (arith, h.0.0) in
    ap (max_count ps) next
    ∙ max_count-best ps (larger b n) h.1
    ∙ ap pos (larger_assoc b n (best_score ps))

best_score-le : (ps : List HostPriority) → All IsPercent ps → best_score ps ≤ 100
best_score-le [] h = omega arith
best_score-le (p ∷ ps) h = ground (arith, best_score-le ps h.1)

larger_zero : (n : ℕ) → larger 0 n ≡ n
larger_zero n = ground arith

module _ (out_of_range : ℤ) where
  int64_of_exact :
      (n : ℕ) (f : Float) → truncated f ≡ n → n < 2 ^ 63 → int64_of out_of_range pos f ≡ pos n
  int64_of_exact n f e small = ground arith

  tenths-exact :
      (best score : ℕ)
      → suc best ≤ 100
      → score ≤ suc best
      → tenths out_of_range (pos score) (suc best) ≡ pos (10 * score / suc best)
  unfolding tenths in_float
  tenths-exact best score small below =
      int64_of_exact (10 * score / suc best)
        (times (of_int 10) (over (of_int score) (of_int (suc best))))
        (in_float-exact (suc best) score (omega arith) (omega arith)) (omega arith)

  rescaled-exact :
      (best : ℕ) (p : HostPriority)
      → best ≤ 100
      → IsPercent p
      → pos_part p.score ≤ best
      → rescaled out_of_range (pos best) p ≡ in_tenths best p
  rescaled-exact zero p small h below = refl
  rescaled-exact (suc best) p small h below =
      ap (λ (n : ℤ). record p { score = n })
        (ap (λ (n : ℤ). tenths out_of_range n (suc best)) h.0
          ∙ tenths-exact best (pos_part p.score) small below)

  AllBelow : ℕ → List HostPriority → Type 0
  AllBelow best ps = All (λ (p : HostPriority). IsPercent p × (pos_part p.score ≤ best)) ps

  rescaled_all :
      (best : ℕ) (ps : List HostPriority)
      → best ≤ 100
      → AllBelow best ps
      → map (rescaled out_of_range (pos best)) ps ≡ map (in_tenths best) ps
  unfolding AllBelow
  rescaled_all best [] small h = refl
  rescaled_all best (p ∷ ps) small h =
      ap (λ (q : HostPriority). q ∷ map (rescaled out_of_range (pos best)) ps)
        (rescaled-exact best p small h.0.0 h.0.1)
      ∙ ap (λ (qs : List HostPriority). in_tenths best p ∷ qs) (rescaled_all best ps small h.1)

  below_best :
      (ps : List HostPriority) (best : ℕ)
      → best_score ps ≤ best
      → All IsPercent ps
      → AllBelow best ps
  unfolding AllBelow
  below_best [] best le h = tt
  below_best (p ∷ ps) best le h = ((h.0, ground arith), below_best ps best (ground arith) h.1)

  -- If every score is a number of percent between 0 and 100: the scores that are computed in float64
  -- are those of the whole numbers, ten times the score by the best one, rounded down, and all 0
  -- where the best one is 0; the order and the hosts stay.
  pub reduce_scoring_node-in_tenths :
      (ps : List HostPriority)
      → All IsPercent ps
      → reduce_scoring_node out_of_range true ps ≡ map (in_tenths (best_score ps)) ps
  unfolding reduce_scoring_node
  reduce_scoring_node-in_tenths ps h =
      let best = best_score ps in
      ap (λ (b : ℤ). map (rescaled out_of_range b) ps)
        (max_count-best ps 0 h ∙ ap pos (larger_zero best))
      ∙ rescaled_all best ps (best_score-le ps h) (below_best ps best (omega arith) h)
