-- ===== src/Scheduler/Predicate/Room.antt =====
-- A node that passes the filter has room (scheduler/predicate/hostpathpv_disk_pressure.go).
use mathlib.Core.List.{Perm}
use hostpathpv_plugin.Base.{
  ℕ, ◌+◌, ◌-◌, ◌≤◌, ◌<◌, ◌^◌, ◌≡◌, refl, ap, sym, ◌∙◌, subst, true, false, List, [], ◌∷◌, ◌++◌, map,
  arith, leb, ℤ, pos, negsuc, pos_part, leb_ℤ, ltb_ℤ, sub_i64, to_i64, to_u64, sort, sort-perm,
  sort-All, All, Bool-cases, inl, inr,
}
use hostpathpv_plugin.Client.Node.{DiskInfo}
use hostpathpv_plugin.Scheduler.Predicate.{fill, match_disks, can_node_match}

abbrev sum : List ℕ → ℕ
sum [] = 0
sum (n ∷ ns) = n + sum ns

abbrev pub concat : List (List ℕ) → List ℕ
concat [] = []
concat (g ∷ gs) = g ++ concat gs

-- One group of requests for each disk, with no more in sum than the disk has.
abbrev pub EachFits : List (List ℕ) → List DiskInfo → Type 0
EachFits [] [] = Unit
EachFits (g ∷ gs) (d ∷ ds) = (sum g ≤ pos_part d.allocatable) × EachFits gs ds
EachFits [] (d ∷ ds) = ⊥
EachFits (g ∷ gs) [] = ⊥

abbrev pub IsInt64 : ℤ → Type 0
IsInt64 a = pos_part a < 2 ^ 63

sub_i64_pos : (a b : ℕ) → b ≤ a → a < 2 ^ 63 → sub_i64 (pos a) (pos b) ≡ pos (a - b)
unfolding sub_i64 to_i64 to_u64
sub_i64_pos a b h k = ground arith

abbrev Filled : ℕ → List ℕ → List ℤ → Type 0
Filled free ns out =
    (g : List ℕ) × (rest : List ℕ) × (out ≡ map pos rest) × (g ++ rest ≡ ns) × (sum g ≤ free)

fill-Filled :
    (free : ℕ) (ns : List ℕ) → free < 2 ^ 63 → Filled free ns (fill (pos free) (map pos ns))
unfolding fill
fill-Filled free [] h = ([], [], refl, refl, omega arith)
fill-Filled free (n ∷ ns) h = elim (Bool-cases (leb n free)) [
  | inl fits ↦
      let le : n ≤ free = ground arith in
      let (g, rest, e, f, small) = fill-Filled (free - n) ns (omega arith) in
      let test : leb_ℤ (pos n) (pos free) ≡ true = ground arith in
      (n ∷ g, rest, rw (test, sub_i64_pos free n le h) e, ap (λ (t : List ℕ). n ∷ t) f, omega arith)
  | inr full ↦
      let test : leb_ℤ (pos n) (pos free) ≡ false = ground arith in
      ([], n ∷ ns, rw test refl, refl, omega arith)
]

fill-negsuc : (free : ℕ) (ns : List ℕ) → fill (negsuc free) (map pos ns) ≡ map pos ns
unfolding fill
fill-negsuc free [] = refl
fill-negsuc free (n ∷ ns) =
    let test : leb_ℤ (pos n) (negsuc free) ≡ false = ground arith in rw test refl

fill_any : (a : ℤ) (ns : List ℕ) → IsInt64 a → Filled (pos_part a) ns (fill a (map pos ns))
fill_any (pos free) ns h = fill-Filled free ns h
fill_any (negsuc free) ns h = ([], ns, fill-negsuc free ns, refl, omega arith)

append_nil : (ns : List ℕ) → ns ≡ ns ++ []
append_nil [] = refl
append_nil (n ∷ ns) = ap (λ (t : List ℕ). n ∷ t) (append_nil ns)

abbrev Grouped : List ℕ → List DiskInfo → Type 0
Grouped ns ds = (gs : List (List ℕ)) × (concat gs ≡ ns) × EachFits gs ds

match_disks-Grouped :
    (ns : List ℕ) (ds : List DiskInfo)
    → All (λ (d : DiskInfo). IsInt64 d.allocatable) ds
    → match_disks (map pos ns) ds ≡ true
    → Grouped ns ds
unfolding match_disks
match_disks-Grouped [] [] h e = ([], refl, tt)
match_disks-Grouped (n ∷ ns) [] h e = absurd (ground arith)
match_disks-Grouped ns (d ∷ ds) h e =
    let (g, rest, left, cut, small) = fill_any d.allocatable ns h.0 in
    let (gs, whole, fits) =
      match_disks-Grouped rest ds h.1 (sym (ap (λ (rs : List ℤ). match_disks rs ds) left) ∙ e) in
    (g ∷ gs, ap (λ (t : List ℕ). g ++ t) whole ∙ cut, (small, fits))

abbrev IsNatural : ℤ → Type 0
IsNatural r = r ≡ pos (pos_part r)

naturals : (rs : List ℤ) → All IsNatural rs → map pos (map pos_part rs) ≡ rs
naturals [] h = refl
naturals (r ∷ rs) h =
    ap (λ (a : ℤ). a ∷ map pos (map pos_part rs)) (sym h.0)
    ∙ ap (λ (t : List ℤ). r ∷ t) (naturals rs h.1)

-- If requests, none negative, are found to match disks with sizes of 64 bits, then the requests,
-- in some order, can be cut into groups, one for each disk, such that no group asks for more than
-- its disk has.
pub can_node_match-EachFits :
    (requests : List ℤ) (disks : List DiskInfo)
    → All IsNatural requests
    → All (λ (d : DiskInfo). IsInt64 d.allocatable) disks
    → can_node_match requests disks ≡ true
    → (gs : List (List ℕ)) × Perm (map pos (concat gs)) requests × EachFits gs disks
unfolding can_node_match
can_node_match-EachFits requests disks natural words e =
    let less = λ (a b : ℤ). ltb_ℤ b a in
    let rs = sort less requests in
    let same = naturals rs (sort-All IsNatural less requests natural) in
    let (gs, whole, fits) =
      match_disks-Grouped (map pos_part rs) disks words
        (ap (λ (l : List ℤ). match_disks l disks) same ∙ e) in
    (
      gs,
      subst (λ (l : List ℤ). Perm l requests) (sym (ap (λ (l : List ℕ). map pos l) whole ∙ same))
          (sort-perm less requests),
      fits,
    )
