-- ===== src/Base/Maps.antt =====
-- Go's maps as association lists over byte strings. The order of the entries stands for the order
-- in which `range` meets them, which Go leaves open: a statement about every list of entries is a
-- statement about every such order.
use Prim.Native.Nat.{ℕ, ◌+◌, ◌≤◌}
use mathlib.Core.Path.{◌≡◌, refl}
use mathlib.Core.Bool.{Bool, true, false}
use mathlib.Core.Option.{Option, none, some}
use mathlib.Core.List.{List, [], ◌∷◌}
use native.Mathlib.Omega.{arith}
use hostpathpv_plugin.Base.Tests.{if◌then◌else◌}
use hostpathpv_plugin.Base.Text.{GoString, str_eq, str_eq_iff}

abbrev pub GoMap {ℓ} : Type ℓ → Type ℓ
GoMap V = List (GoString × V)

module _ {ℓ} {V : Type ℓ} where
  -- v, ok := m[k]
  unfoldable pub lookup : GoString → GoMap V → Option V
  lookup k [] = none
  lookup k ((j, v) ∷ m) = if str_eq j k then some v else lookup k m

  -- m[k] = v
  unfoldable pub insert : GoString → V → GoMap V → GoMap V
  insert k v [] = (k, v) ∷ []
  insert k v ((j, w) ∷ m) = if str_eq j k then (j, v) ∷ m else (j, w) ∷ insert k v m

  -- delete(m, k)
  unfoldable pub delete : GoString → GoMap V → GoMap V
  delete k [] = []
  delete k ((j, w) ∷ m) = let rest = delete k m in if str_eq j k then rest else (j, w) ∷ rest

  -- _, ok := m[k]
  abbrev pub has : GoString → GoMap V → Bool
  has k m = elim (lookup k m) [ none ↦ false | some v ↦ true ]

  pub lookup-insert :
      (k j : GoString) (v : V) (m : GoMap V)
      → lookup j (insert k v m) ≡ (if str_eq k j then some v else lookup j m)
  unfolding lookup insert
  lookup-insert k j v [] = ground arith
  lookup-insert k j v ((i, w) ∷ m) =
      ground (arith, str_eq_iff k j, str_eq_iff i k, str_eq_iff i j, lookup-insert k j v m)

  pub lookup-insert_same : (k : GoString) (v : V) (m : GoMap V) → lookup k (insert k v m) ≡ some v
  lookup-insert_same k v m = ground (arith, lookup-insert k k v m, str_eq_iff k k)

  pub lookup-delete :
      (k j : GoString) (m : GoMap V)
      → lookup j (delete k m) ≡ (if str_eq k j then none else lookup j m)
  unfolding lookup delete
  lookup-delete k j [] = ground arith
  lookup-delete k j ((i, w) ∷ m) =
      ground (arith, str_eq_iff k j, str_eq_iff i k, str_eq_iff i j, lookup-delete k j m)

  -- Each key has one entry, as in every Go map.
  abbrev pub IsMap : GoMap V → Type ℓ
  IsMap [] = Unit
  IsMap ((k, v) ∷ m) = (lookup k m ≡ none) × IsMap m

  pub insert-IsMap : (k : GoString) (v : V) (m : GoMap V) → IsMap m → IsMap (insert k v m)
  unfolding insert lookup
  insert-IsMap k v [] h = ground arith
  insert-IsMap k v ((j, w) ∷ m) h =
      ground (arith, insert-IsMap k v m h.1, lookup-insert k j v m, str_eq_iff j k, str_eq_iff k j)

  pub delete-IsMap : (k : GoString) (m : GoMap V) → IsMap m → IsMap (delete k m)
  unfolding delete
  delete-IsMap k [] h = h
  delete-IsMap k ((j, w) ∷ m) h = ground (arith, delete-IsMap k m h.1, lookup-delete k j m)

-- The sum of a measure over the entries, and how each operation changes it.
module _ {ℓ} {V : Type ℓ} (f : V → ℕ) where
  unfoldable pub total : GoMap V → ℕ
  total [] = 0
  total ((k, v) ∷ m) = f v + total m

  pub total-insert_new :
      (k : GoString) (v : V) (m : GoMap V)
      → lookup k m ≡ none
      → total (insert k v m) ≡ total m + f v
  unfolding total insert lookup
  total-insert_new k v [] h = omega arith
  total-insert_new k v ((j, w) ∷ m) h = ground (arith, total-insert_new k v m)

  pub total-insert_old :
      (k : GoString) (v w : V) (m : GoMap V)
      → lookup k m ≡ some w
      → total (insert k v m) + f w ≡ total m + f v
  unfolding total insert lookup
  total-insert_old k v w [] h = ground arith
  total-insert_old k v w ((j, u) ∷ m) h = ground (arith, total-insert_old k v w m)

  total-delete_missing :
      (k : GoString) (m : GoMap V) → lookup k m ≡ none → total (delete k m) ≡ total m
  unfolding total delete lookup
  total-delete_missing k [] h = refl
  total-delete_missing k ((j, u) ∷ m) h = ground (arith, total-delete_missing k m)

  pub total-delete :
      (k : GoString) (w : V) (m : GoMap V)
      → IsMap m
      → lookup k m ≡ some w
      → total (delete k m) + f w ≡ total m
  unfolding total delete lookup
  total-delete k w [] u h = ground arith
  total-delete k w ((j, v) ∷ m) u h =
      ground (arith, total-delete k w m u.1, total-delete_missing k m, str_eq_iff j k)

  pub total-lookup : (k : GoString) (w : V) (m : GoMap V) → lookup k m ≡ some w → f w ≤ total m
  unfolding total lookup
  total-lookup k w [] h = ground arith
  total-lookup k w ((j, v) ∷ m) h = ground (arith, total-lookup k w m)
