-- ===== src/Examples/Locks.antt =====
-- The locks and the volume identifiers at work.
use hostpathpv_plugin.Base.{
  ◌≡◌, refl, true, none, some, arith, codes, GoString, lookup, insert, delete, str_eq, ok, ◌>>=◌,
}
use hostpathpv_plugin.Util.VolumeId.{
  CsiIdentifier, compose_csi_id, decompose_csi_id, encode16, decode16, format_bool_to_uint16,
  parse_bool_from_uint16, take_name, hex_digit, from_hex_digit,
}
use hostpathpv_plugin.Util.VolumeId.RoundTrip.{decompose-compose}
use hostpathpv_plugin.Util.VolumeLocks
use hostpathpv_plugin.Util.VolumeLocks.Exclusion.{
  Servers, enter, here, next, idle_servers, IsExclusive, Reach-IsExclusive, update,
}
use hostpathpv_plugin.Util.OperationLock.{
  create_op, delete_op, clone_op, new_operation_lock, try_acquire, release, table, set_table, busy,
}
use hostpathpv_plugin.Util.OperationLock.Conflicts.{creating, release-try_acquire}
use hostpathpv_plugin.Util.OperationLock.Progress
use hostpathpv_plugin.Util.OperationLock.Progress.{
  Callers, no_callers, nothing_ongoing, begin, finish, granted, refused, released,
}
use hostpathpv_plugin.Util.OperationLock.Progress.Compatible.{IsCompatible, Reach-IsCompatible}

abbrev volume : CsiIdentifier
volume = record { encoding_version = 1; ephemeral = true; volume_name = codes "pvc-17" }

abbrev text : GoString
text = codes "0001-0001-0006-pvc-17"

decompose-compose_example : (compose_csi_id volume >>= decompose_csi_id) ≡ ok volume
decompose-compose_example = decompose-compose volume (omega arith) (omega arith)

composed : compose_csi_id volume ≡ ok text
unfolding compose_csi_id encode16 hex_digit format_bool_to_uint16
composed = refl

decomposed : decompose_csi_id text ≡ ok volume
unfolding decompose_csi_id decode16 from_hex_digit parse_bool_from_uint16 take_name
decomposed = refl

abbrev busy_volume : Servers
busy_volume = record {
  table = (VolumeLocks.try_acquire (codes "v1") idle_servers.table).1;
  inside = update idle_servers.inside 4 (some (codes "v1"));
}

Reach-IsExclusive_example : IsExclusive busy_volume
unfolding VolumeLocks.try_acquire VolumeLocks.new_volume_locks VolumeLocks.has_lock
Reach-IsExclusive_example =
    Reach-IsExclusive (next here (enter idle_servers 4 (codes "v1") refl refl))

-- A clone goes on; a deletion is refused, and goes on once the clone has ended.
abbrev cloning_v1 : Callers
cloning_v1 = record {
  lock = (try_acquire clone_op (codes "v1") new_operation_lock).1;
  ongoing = begin clone_op (codes "v1") nothing_ongoing;
}

abbrev ended_v1 : Callers
ended_v1 = record {
  lock = release clone_op (codes "v1") (try_acquire delete_op (codes "v1") cloning_v1.lock).1;
  ongoing = finish clone_op (codes "v1") cloning_v1.ongoing;
}

abbrev deleting_v1 : Callers
deleting_v1 = record {
  lock = (try_acquire delete_op (codes "v1") ended_v1.lock).1;
  ongoing = begin delete_op (codes "v1") ended_v1.ongoing;
}

steps : Progress.Reach no_callers deleting_v1
unfolding try_acquire release table set_table new_operation_lock lookup str_eq insert delete
steps =
    Progress.next
      (Progress.next
        (Progress.next
          (Progress.next Progress.here (granted no_callers clone_op (codes "v1") refl refl))
          (refused cloning_v1 delete_op (codes "v1") (busy clone_op) refl))
        (released
          (record {
            lock = (try_acquire delete_op (codes "v1") cloning_v1.lock).1;
            ongoing = cloning_v1.ongoing;
          })
          clone_op (codes "v1") (omega arith)))
      (granted ended_v1 delete_op (codes "v1") refl refl)

Reach-IsCompatible_example : IsCompatible deleting_v1.ongoing (codes "v1")
Reach-IsCompatible_example = Reach-IsCompatible steps (codes "v1")

release-try_acquire_example :
    lookup (codes "v1") (
      table create_op
        (release create_op (codes "v1") (try_acquire create_op (codes "v1") new_operation_lock).1))
    ≡ none
unfolding try_acquire release table new_operation_lock lookup
release-try_acquire_example =
    release-try_acquire create_op (codes "v1") (codes "v1") new_operation_lock creating
      (λ h. ground arith) refl
