-- ===== src/Driver/Capability.antt =====
-- csi-common/driver.go: the driver's record and the capabilities that it serves; and
-- `ConstructMountOptions` of csi-common/nodeserver-default.go.
use hostpathpv_plugin.Base.{
  ℕ, Bool, true, false, Option, none, some, List, [], ◌∷◌, ◌++◌, GoString, str_eq, is_empty, ◌==◌,
  if◌then◌else◌, ok, err, invalid_argument,
}
use hostpathpv_plugin.Util.Request.{VolumeCapability, block, mount_with, no_access_type, Checked}

-- csi.ControllerServiceCapability_RPC_Type; the types that the driver does not name are numbers.
pub data RpcType : Type 0 where
  rpc_unknown create_delete_volume expand_volume_rpc : RpcType
  other_rpc : ℕ → RpcType

unfoldable pub rpc_eq : RpcType → RpcType → Bool
rpc_eq rpc_unknown rpc_unknown = true
rpc_eq create_delete_volume create_delete_volume = true
rpc_eq expand_volume_rpc expand_volume_rpc = true
rpc_eq (other_rpc m) (other_rpc n) = m == n
rpc_eq _ _ = false

pub record CsiDriver : Type 0 where
  pub name : GoString
  pub node_id : GoString
  pub version : GoString
  pub cap : List RpcType

-- `none` for the nil driver; a new driver has no capability.
unfoldable pub new_csi_driver : GoString → GoString → GoString → Option CsiDriver
new_csi_driver name v node_id =
    if is_empty name
    then none
    else if is_empty node_id
    then none
    else if is_empty v
    then none
    else some (record { name = name; node_id = node_id; version = v; cap = [] })

unfoldable pub add_controller_service_capabilities : List RpcType → CsiDriver → CsiDriver
add_controller_service_capabilities cl d = record d { cap = cl }

abbrev has_capability : RpcType → List RpcType → Bool
has_capability c [] = false
has_capability c (k ∷ ks) = let later = has_capability c ks in if rpc_eq c k then true else later

unfoldable pub validate_controller_service_request : RpcType → CsiDriver → Checked
unfolding rpc_eq
validate_controller_service_request c d =
    if rpc_eq c rpc_unknown
    then ok tt
    else if has_capability c d.cap
    then ok tt
    else err invalid_argument

-- MountOptionContains, and the closure `hasOption`.
unfoldable pub mount_option_contains : List GoString → GoString → Bool
mount_option_contains [] opt = false
mount_option_contains (o ∷ options) opt =
    if str_eq o opt then true else mount_option_contains options opt

abbrev add_flags : List GoString → List GoString → List GoString
add_flags options [] = options
add_flags options (f ∷ flags) =
    add_flags (if mount_option_contains options f then options else options ++ (f ∷ [])) flags

unfoldable pub construct_mount_options : List GoString → Option VolumeCapability → List GoString
unfolding mount_option_contains
construct_mount_options options (some (mount_with flags)) = add_flags options flags
construct_mount_options options (some block) = options
construct_mount_options options (some no_access_type) = options
construct_mount_options options none = options
