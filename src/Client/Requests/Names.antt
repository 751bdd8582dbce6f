-- ===== src/Client/Requests/Names.antt =====
-- The names of disks in the text of an annotation: what is split, joined and kept in a map
-- (pkg/hostpathclient/node.go).
use hostpathpv_plugin.Base.{
  ℕ, ◌≡◌, refl, ap, subst, ◌∙◌, Bool, true, false, not, ◌&&◌, List, [], ◌∷◌, ◌++◌, arith, GoString,
  GoMap, lookup, insert, delete, has, lookup-insert, lookup-delete, str_eq, split_at, join_with,
  ◌==◌, if◌then◌else◌, All, Bool-cases, inl, inr,
}
use hostpathpv_plugin.Client.Node.{disks_set}
use hostpathpv_plugin.Client.Patch.{disk_names, changed_disks}

-- The byte does not stand in the text.
abbrev pub lacks : ℕ → GoString → Bool
lacks b [] = true
lacks b (c ∷ s) = not (c == b) && lacks b s

abbrev pub Lacks : ℕ → GoString → Type 0
Lacks b s = lacks b s ≡ true

-- A text splits into at least one part.
split_at-cons :
    (b : ℕ) (t : GoString) → (p : GoString) × (ps : List GoString) × (split_at b t ≡ p ∷ ps)
unfolding split_at
split_at-cons b [] = ([], [], refl)
split_at-cons b (c ∷ t) =
    let (p, ps, e) = split_at-cons b t in
    elim (Bool-cases (c == b)) [
      | inl cut ↦ ([], p ∷ ps, rw (e, cut) refl)
      | inr kept ↦ (c ∷ p, ps, rw (e, kept) refl)
    ]

-- A part that lacks the byte ends where the byte stands.
split_at-append :
    (b : ℕ) (s t : GoString) → Lacks b s → split_at b (s ++ (b ∷ t)) ≡ s ∷ split_at b t
unfolding split_at
split_at-append b [] t h = let (p, ps, e) = split_at-cons b t in rw e (ground arith)
split_at-append b (c ∷ s) t h = rw (split_at-append b s t (ground arith)) (ground arith)

split_at-Lacks : (b : ℕ) (s : GoString) → Lacks b s → split_at b s ≡ s ∷ []
unfolding split_at
split_at-Lacks b [] h = refl
split_at-Lacks b (c ∷ s) h = rw (split_at-Lacks b s (ground arith)) (ground arith)

-- Splitting what was joined gives the parts back.
pub split_at-join_with :
    (b : ℕ) (p : GoString) (ps : List GoString)
    → All (Lacks b) (p ∷ ps)
    → split_at b (join_with b (p ∷ ps)) ≡ p ∷ ps
unfolding join_with
split_at-join_with b p [] h = split_at-Lacks b p h.0
split_at-join_with b p (q ∷ ps) h =
    split_at-append b p (join_with b (q ∷ ps)) h.0
    ∙ ap (λ (rest : List GoString). p ∷ rest) (split_at-join_with b q ps h.1)

pub split_at-All : (b : ℕ) (s : GoString) → All (Lacks b) (split_at b s)
unfolding split_at
split_at-All b [] = (refl, tt)
split_at-All b (c ∷ s) =
    let (p, ps, e) = split_at-cons b s in
    let h : All (Lacks b) (p ∷ ps) = subst (All (Lacks b)) e (split_at-All b s) in
    elim (Bool-cases (c == b)) [
      | inl cut ↦ rw (e, cut) (refl, h)
      | inr kept ↦ rw (e, kept) (ground (arith, h.0), h.1)
    ]

abbrev pub is_in : GoString → List GoString → Bool
is_in s [] = false
is_in s (t ∷ ts) = if str_eq t s then true else is_in s ts

pub has-disks_set : (j : GoString) (ns : List GoString) → has j (disks_set ns) ≡ is_in j ns
unfolding lookup
has-disks_set j [] = refl
has-disks_set j (n ∷ ns) = ground (arith, lookup-insert n j tt (disks_set ns), has-disks_set j ns)

pub has-disk_names : (j : GoString) (m : GoMap (Unit {0})) → is_in j (disk_names m) ≡ has j m
unfolding lookup
has-disk_names j [] = refl
has-disk_names j ((i, v) ∷ m) = ground (arith, has-disk_names j m)

module _ (P : GoString → Type 0) where
  insert-All :
      (k : GoString) (m : GoMap (Unit {0}))
      → P k
      → All P (disk_names m)
      → All P (disk_names (insert k tt m))
  unfolding insert
  insert-All k [] pk h = (pk, tt)
  insert-All k ((j, v) ∷ m) pk h = elim (Bool-cases (str_eq j k)) [
    | inl same ↦ rw same h
    | inr apart ↦ rw apart (h.0, insert-All k m pk h.1)
  ]

  delete-All :
      (k : GoString) (m : GoMap (Unit {0})) → All P (disk_names m) → All P (disk_names (delete k m))
  unfolding delete
  delete-All k [] h = tt
  delete-All k ((j, v) ∷ m) h = elim (Bool-cases (str_eq j k)) [
    | inl same ↦ rw same (delete-All k m h.1)
    | inr apart ↦ rw apart (h.0, delete-All k m h.1)
  ]

  pub disks_set-All : (ns : List GoString) → All P ns → All P (disk_names (disks_set ns))
  disks_set-All [] h = tt
  disks_set-All (n ∷ ns) h = insert-All n (disks_set ns) h.0 (disks_set-All ns h.1)

  pub changed_disks-All :
      (enable : Bool) (disk : GoString) (m : GoMap (Unit {0}))
      → P disk
      → All P (disk_names m)
      → All P (disk_names (changed_disks enable disk m))
  changed_disks-All true disk m pd h = delete-All disk m h
  changed_disks-All false disk m pd h = insert-All disk m pd h

pub has-changed_disks :
    (enable : Bool) (disk j : GoString) (m : GoMap (Unit {0}))
    → has j (changed_disks enable disk m) ≡ (if str_eq disk j then not enable else has j m)
has-changed_disks true disk j m = ground (arith, lookup-delete disk j m)
has-changed_disks false disk j m = ground (arith, lookup-insert disk j tt m)
