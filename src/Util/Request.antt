-- ===== src/Util/Request.antt =====
-- The requests of the CSI node service as far as the servers read them, and pkg/util/validate.go.
-- A getter of a missing string returns the empty one; a missing message is `none`.
use hostpathpv_plugin.Base.{
  Bool, Option, List, GoString, is_empty, is_some, not, if◌then◌else◌, ℤ, Result, ok, err, Code,
  invalid_argument,
}
use hostpathpv_plugin.Util.Host
use hostpathpv_plugin.Util.Host.{Host}

-- The access type of csi.VolumeCapability: a block device, or a mount with its flags.
pub data VolumeCapability : Type 0 where
  block : VolumeCapability
  mount_with : List GoString → VolumeCapability
  no_access_type : VolumeCapability

pub record NodeStageVolumeRequest : Type 0 where
  pub volume_id : GoString
  pub staging_target_path : GoString
  pub volume_capability : Option VolumeCapability

pub record NodePublishVolumeRequest : Type 0 where
  pub volume_id : GoString
  pub staging_target_path : GoString
  pub target_path : GoString
  pub volume_capability : Option VolumeCapability
  pub read_only : Bool

-- Of NodeUnstageVolume the path is the staging path, of NodeUnpublishVolume the target path.
pub record NodeUnpublishVolumeRequest : Type 0 where
  pub volume_id : GoString
  pub path : GoString

-- `required_bytes` is `none` for a missing capacity range.
pub record NodeExpandVolumeRequest : Type 0 where
  pub volume_id : GoString
  pub volume_path : GoString
  pub required_bytes : Option ℤ

abbrev pub Checked : Type 0
Checked = Result Code (Unit {0})

module _ {W : Type 0} (host : Host W) where
  unfoldable pub validate_node_stage_volume_request : NodeStageVolumeRequest → W → Checked
  validate_node_stage_volume_request req w =
      if not (is_some req.volume_capability)
      then err invalid_argument
      else if is_empty req.volume_id
      then err invalid_argument
      else if is_empty req.staging_target_path
      then err invalid_argument
      else if not (Host.is_path_exist host req.staging_target_path w)
      then err invalid_argument
      else ok tt

unfoldable pub validate_node_unstage_volume_request : NodeUnpublishVolumeRequest → Checked
validate_node_unstage_volume_request req =
    if is_empty req.volume_id
    then err invalid_argument
    else if is_empty req.path
    then err invalid_argument
    else ok tt

unfoldable pub validate_node_publish_volume_request : NodePublishVolumeRequest → Checked
validate_node_publish_volume_request req =
    if not (is_some req.volume_capability)
    then err invalid_argument
    else if is_empty req.volume_id
    then err invalid_argument
    else if is_empty req.target_path
    then err invalid_argument
    else if is_empty req.staging_target_path
    then err invalid_argument
    else ok tt

unfoldable pub validate_node_unpublish_volume_request : NodeUnpublishVolumeRequest → Checked
validate_node_unpublish_volume_request req =
    if is_empty req.volume_id
    then err invalid_argument
    else if is_empty req.path
    then err invalid_argument
    else ok tt
