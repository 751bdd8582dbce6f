-- ===== src/Util/OperationLock/Progress/Compatible.antt =====
-- Which operations on a volume go on together (`OperationLock` of pkg/util/idlocker.go).
use hostpathpv_plugin.Base.{ℕ, ◌<◌, ◌≡◌, true, false, arith, GoString, GoMap, has}
use hostpathpv_plugin.Util.OperationLock.Conflicts.{
  IsSeparate, try_acquire-IsSeparate, release-IsSeparate, IsSeparate-new,
}
use hostpathpv_plugin.Util.OperationLock.Progress.{
  Ongoing, Callers, no_callers, granted, refused, released, Reach, here, next,
}
use hostpathpv_plugin.Util.OperationLock.Progress.Counts.{Tallies, has-Tallies, Reach-IsExact}

Reach-IsSeparate : {s : Callers} → Reach no_callers s → (j : GoString) → IsSeparate s.lock j
Reach-IsSeparate here j = IsSeparate-new j
Reach-IsSeparate (next r (granted s op id h g)) j =
    try_acquire-IsSeparate op id j s.lock (Reach-IsSeparate r j)
Reach-IsSeparate (next r (refused s op id e g)) j =
    try_acquire-IsSeparate op id j s.lock (Reach-IsSeparate r j)
Reach-IsSeparate (next r (released s op id h)) j =
    release-IsSeparate op id j s.lock (Reach-IsSeparate r j)

-- While a volume is being deleted nothing else goes on with it, and a clone and an expansion never
-- go on together.
pub record IsCompatible (o : Ongoing) (id : GoString) : Type 0 where
  pub delete_create : 0 < o.deleting id → o.creating id ≡ 0
  pub delete_clone : 0 < o.deleting id → o.cloning id ≡ 0
  pub delete_restore : 0 < o.deleting id → o.restoring id ≡ 0
  pub delete_expand : 0 < o.deleting id → o.expanding id ≡ 0
  pub clone_expand : 0 < o.cloning id → o.expanding id ≡ 0

apart :
    (id : GoString) (m n : GoMap ℕ) (f g : GoString → ℕ)
    → Tallies m f
    → Tallies n g
    → (has id m ≡ true → has id n ≡ false)
    → 0 < f id
    → g id ≡ 0
apart id m n f g v w h one = ground (arith, has-Tallies id m f v, has-Tallies id n g w)

-- If every release ends an operation that was granted, and no deletion or expansion of a volume is
-- begun while one of the same kind goes on with it: whatever calls are granted or refused, a
-- deletion of a volume goes on without a creation, a clone, a restoration or an expansion of it,
-- and a clone without an expansion.
pub Reach-IsCompatible :
    {s : Callers} → Reach no_callers s → (id : GoString) → IsCompatible s.ongoing id
Reach-IsCompatible {s} r id =
    let v = Reach-IsExact r in
    let w = Reach-IsSeparate r id in
    record {
      delete_create = apart id _ _ _ _ v.deletes v.creates w.delete_create;
      delete_clone = apart id _ _ _ _ v.deletes v.clones w.delete_clone;
      delete_restore = apart id _ _ _ _ v.deletes v.restores w.delete_restore;
      delete_expand = apart id _ _ _ _ v.deletes v.expands w.delete_expand;
      clone_expand = apart id _ _ _ _ v.clones v.expands w.clone_expand;
    }
