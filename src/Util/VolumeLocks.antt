-- ===== src/Util/VolumeLocks.antt =====
-- `VolumeLocks` of pkg/util/idlocker.go: the set of the volumes with an operation going on. The
-- mutex makes each call one step, so a schedule of calls is a list of them.
pub mod Exclusion
use hostpathpv_plugin.Base.{Bool, true, false, List, [], ◌∷◌, GoString, str_eq, if◌then◌else◌}

-- sets.String, without repetition.
pub record VolumeLocks : Type 0 where
  pub locks : List GoString

unfoldable pub has_lock : GoString → List GoString → Bool
has_lock k [] = false
has_lock k (j ∷ rest) = if str_eq j k then true else has_lock k rest

unfoldable pub remove_lock : GoString → List GoString → List GoString
remove_lock k [] = []
remove_lock k (j ∷ rest) =
    let others = remove_lock k rest in if str_eq j k then others else j ∷ others

unfoldable pub new_volume_locks : VolumeLocks
new_volume_locks = record { locks = [] }

unfoldable pub try_acquire : GoString → VolumeLocks → Bool × VolumeLocks
try_acquire id vl =
    if has_lock id vl.locks then (false, vl) else (true, record { locks = id ∷ vl.locks })

unfoldable pub release : GoString → VolumeLocks → VolumeLocks
release id vl = record { locks = remove_lock id vl.locks }
