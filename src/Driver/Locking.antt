-- ===== src/Driver/Locking.antt =====
-- The lock around a handler of csi-plugin/hostpath/controllerserver.go and nodeserver.go:
-- `TryAcquire` with its refusal, and the deferred `Release`, which runs whatever the handler returns.
pub mod Released
use hostpathpv_plugin.Base.{Bool, GoString, if◌then◌else◌, Result, ok, err, Code, aborted}
use hostpathpv_plugin.Util.VolumeLocks
use hostpathpv_plugin.Util.VolumeLocks.{VolumeLocks}

-- A server: its lock table, and the world that its handlers work on.
pub record Server (W : Type 0) : Type 0 where
  pub volume_locks : VolumeLocks
  pub world : W

module _ {W A : Type 0} where
  -- After the body: its result, with the lock released.
  abbrev pub after_body : GoString → VolumeLocks → Result Code A × W → Result Code A × Server W
  after_body id locks (r, w) =
      (r, record { volume_locks = VolumeLocks.release id locks; world = w })

  unfoldable pub with_volume_lock :
      GoString → (W → Result Code A × W) → Server W → Result Code A × Server W
  with_volume_lock id body s =
      if (VolumeLocks.try_acquire id s.volume_locks).0
      then after_body id (VolumeLocks.try_acquire id s.volume_locks).1 (body s.world)
      else (err aborted, s)

  -- A handler's work outside its lock: on the world alone.
  abbrev pub on_server : Server W → Result Code A × W → Result Code A × Server W
  on_server s (r, w) = (r, record s { world = w })
