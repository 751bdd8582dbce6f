-- ===== src/Driver/Locking/Released.antt =====
-- Handlers leave the lock table as they found it (csi-plugin/hostpath/controllerserver.go and
-- nodeserver.go).
use hostpathpv_plugin.Base.{
  ◌≡◌, refl, true, false, arith, GoString, str_eq_iff, Result, err, Code, aborted, Bool-cases, inl,
  inr,
}
use hostpathpv_plugin.Util.VolumeLocks
use hostpathpv_plugin.Util.VolumeLocks.{VolumeLocks}
use hostpathpv_plugin.Util.VolumeLocks.Exclusion.{holds, try_acquire_lem, release_lem}
use hostpathpv_plugin.Driver.Locking.{Server, with_volume_lock, after_body}

-- The same volumes are locked.
abbrev pub SameLocks : {W : Type 0} → Server W → Server W → Type 0
SameLocks s t = (j : GoString) → holds t.volume_locks j ≡ holds s.volume_locks j

module _ {W A : Type 0} (id : GoString) (body : W → Result Code A × W) (s : Server W) where
  after_body-SameLocks :
      (p : Result Code A × W)
      → holds s.volume_locks id ≡ false
      → SameLocks s (after_body id (VolumeLocks.try_acquire id s.volume_locks).1 p).1
  after_body-SameLocks (r, w) free j = ground (
    arith,
    release_lem id j (VolumeLocks.try_acquire id s.volume_locks).1,
    try_acquire_lem id j s.volume_locks,
    str_eq_iff id j,
  )

  -- The locks are those of before on every path.
  pub with_volume_lock-SameLocks : SameLocks s (with_volume_lock id body s).1
  unfolding with_volume_lock
  with_volume_lock-SameLocks = elim (Bool-cases (VolumeLocks.try_acquire id s.volume_locks).0) [
    | inl won ↦
        rw won (
          after_body-SameLocks (body s.world)
            (ground (arith, try_acquire_lem id id s.volume_locks)))
    | inr lost ↦ rw lost (λ j. refl)
  ]

  pub with_volume_lock_held :
      holds s.volume_locks id ≡ true → with_volume_lock id body s ≡ (err aborted, s)
  unfolding with_volume_lock
  with_volume_lock_held held =
      let lost : (VolumeLocks.try_acquire id s.volume_locks).0 ≡ false =
        ground (arith, try_acquire_lem id id s.volume_locks) in
      rw lost refl
