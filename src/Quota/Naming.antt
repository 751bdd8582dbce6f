-- ===== src/Quota/Naming.antt =====
-- quota-manager/common.go: the directory of a volume, the volume of a directory, and the attribute
-- that disables a disk.
pub mod RoundTrip
use hostpathpv_plugin.Base.{
  ℕ, suc, ◌+◌, Bool, true, false, ◌||◌, Option, none, some, List, [], ◌∷◌, ◌++◌, GoString, codes,
  str_eq, ltb, if◌then◌else◌, length, drop, clean, index_of, Result, ok, err, Act,
}
use hostpathpv_plugin.Quota.Types.{QuotaError, slice_out_of_range, xattr_failed}
use hostpathpv_plugin.Util.Host
use hostpathpv_plugin.Util.Host.{
  Host, HostError, no_data, not_exist, call_failed, no_backing_device,
}

abbrev pub project_id_start : ℕ
project_id_start = 1000000

abbrev pub project_id_num : ℕ
project_id_num = 5000

abbrev pub xfs_quota_dir_prefix : GoString
xfs_quota_dir_prefix = codes "k8squota"

abbrev pub disk_quota_enable_fattr : GoString
disk_quota_enable_fattr = codes "user.storage.hostpathpv.xfsquota/disable"

unfoldable pub get_quota_path_name : GoString → GoString
get_quota_path_name volume_id = xfs_quota_dir_prefix ++ (b'_' ∷ volume_id)

-- What follows the prefix and one more byte; a slice that begins past the end is a panic.
abbrev volume_at : Option ℕ → GoString → Result QuotaError GoString
volume_at none path = ok []
volume_at (some pos) path =
    if ltb 0 pos
    then if ltb (length path) (pos + 9) then err slice_out_of_range else ok (drop (pos + 9) path)
    else ok []

-- A path with no prefix, or with one at its start, gives the empty volume: the error that is
-- returned with it is nil.
unfoldable pub parse_quota_path_info_from_dir_name : GoString → Result QuotaError GoString
parse_quota_path_info_from_dir_name filepath =
    volume_at (index_of (clean filepath) xfs_quota_dir_prefix) (clean filepath)

-- strconv.FormatBool and ParseBool
unfoldable pub format_bool : Bool → GoString
format_bool true = codes "true"
format_bool false = codes "false"

abbrev one_of : List GoString → GoString → Bool
one_of [] s = false
one_of (t ∷ ts) s = str_eq s t || one_of ts s

unfoldable pub parse_bool : GoString → Option Bool
parse_bool s =
    if one_of (codes "1" ∷ codes "t" ∷ codes "T" ∷ codes "true" ∷ codes "TRUE" ∷ codes "True" ∷ [])
      s
    then some true
    else if one_of
        (codes "0" ∷ codes "f" ∷ codes "F" ∷ codes "false" ∷ codes "FALSE" ∷ codes "False" ∷ []) s
    then some false
    else none

module _ {W : Type 0} (host : Host W) where
  unfoldable pub set_quota_disk_disable_state : GoString → Bool → Act W HostError (Unit {0})
  unfolding format_bool
  set_quota_disk_disable_state mount_point disabled =
      host.set_xattr mount_point disk_quota_enable_fattr (format_bool disabled)

  abbrev parsed_state : Option Bool → Bool
  parsed_state none = false
  parsed_state (some b) = b

  abbrev disable_state : GoString → Result HostError GoString → W → Bool × W
  disable_state mount_point (ok text) w = (parsed_state (parse_bool text), w)
  disable_state mount_point (err no_data) w =
      (false, (set_quota_disk_disable_state mount_point false w).1)
  disable_state mount_point (err not_exist) w = (false, w)
  disable_state mount_point (err call_failed) w = (false, w)
  disable_state mount_point (err no_backing_device) w = (false, w)

  -- An attribute that is not there is written with its default; any failure reads as enabled.
  unfoldable pub get_disk_quota_disable_state : GoString → W → Bool × W
  unfolding parse_bool
  get_disk_quota_disable_state mount_point w =
      disable_state mount_point (host.get_xattr mount_point disk_quota_enable_fattr w) w
