-- ===== src/Driver/Defaults.antt =====
-- The servers that csi-plugin/csi-common stands in with (nodeserver-default.go,
-- controllerserver-default.go, identityserver-default.go), the identity server of
-- csi-plugin/hostpath/identityserver.go, and which servers driver.go starts. The metrics of
-- k8s.io/kubernetes are the parameter `metrics`.
use hostpathpv_plugin.Base.{
  Bool, true, false, ◌||◌, Option, none, some, List, [], ◌∷◌, GoString, GoMap, is_empty,
  if◌then◌else◌, ℤ, Result, ok, err, Code, invalid_argument, internal, unimplemented, unavailable,
  unknown,
}
use hostpathpv_plugin.Util.Host
use hostpathpv_plugin.Util.Host.{Host, HostError}
use hostpathpv_plugin.Client.Volume.{host_path_csi_driver_name}
use hostpathpv_plugin.Driver.Capability.{
  CsiDriver, RpcType, create_delete_volume, expand_volume_rpc, new_csi_driver,
  add_controller_service_capabilities,
}

-- The methods that no server of the driver has to provide.
pub data NodeMethod : Type 0 where
  node_stages node_unstages node_expands : NodeMethod

pub data ControllerMethod : Type 0 where
  controller_publishes controller_unpublishes controller_expands lists_volumes : ControllerMethod
  gets_capacity creates_snapshot deletes_snapshot lists_snapshots gets_volume : ControllerMethod

unfoldable pub default_node_method : NodeMethod → Result Code (Unit {0})
default_node_method m = err unimplemented

unfoldable pub default_controller_method : ControllerMethod → Result Code (Unit {0})
default_controller_method m = err unimplemented

unfoldable pub controller_get_capabilities : CsiDriver → List RpcType
controller_get_capabilities d = d.cap

-- The node's name and its topology.
unfoldable pub node_get_info : CsiDriver → GoMap GoString → GoString × GoMap GoString
node_get_info d topology = (d.node_id, topology)

-- A quantity as an int64, and whether it is one.
pub record Quantity : Type 0 where
  pub value : ℤ
  pub fits : Bool

pub record Metrics : Type 0 where
  pub available : Quantity
  pub capacity : Quantity
  pub used : Quantity
  pub inodes : Quantity
  pub inodes_free : Quantity
  pub inodes_used : Quantity

pub record VolumeUsage : Type 0 where
  pub available : ℤ
  pub total : ℤ
  pub used : ℤ

module _ {W E : Type 0} (host : Host W) (metrics : GoString → W → Result E Metrics) where
  -- Bytes and inodes; only the totals must be numbers.
  abbrev usages : Metrics → Result Code (VolumeUsage × VolumeUsage)
  usages m =
      if m.capacity.fits
      then if m.inodes.fits
        then ok (
          record { available = m.available.value; total = m.capacity.value; used = m.used.value },
          record {
            available = m.inodes_free.value;
            total = m.inodes.value;
            used = m.inodes_used.value;
          },
        )
        else err unknown
      else err unknown

  abbrev measured : Result E Metrics → Result Code (VolumeUsage × VolumeUsage)
  measured (ok m) = usages m
  measured (err e) = err internal

  abbrev mounted : GoString → W → Result HostError Bool → Result Code (VolumeUsage × VolumeUsage)
  mounted target_path w (ok true) = measured (metrics target_path w)
  mounted target_path w (ok false) = err invalid_argument
  mounted target_path w (err Host.not_exist) = err invalid_argument
  mounted target_path w (err Host.no_data) = err unknown
  mounted target_path w (err Host.call_failed) = err unknown
  mounted target_path w (err Host.no_backing_device) = err unknown

  unfoldable pub node_get_volume_stats : GoString → W → Result Code (VolumeUsage × VolumeUsage)
  unfolding Host.is_mount_point
  node_get_volume_stats target_path w =
      if is_empty target_path
      then err invalid_argument
      else mounted target_path w (Host.is_mount_point host target_path w)

-- GetPluginInfo: the name and the version.
unfoldable pub get_plugin_info : CsiDriver → Result Code (GoString × GoString)
get_plugin_info d =
    if is_empty d.name
    then err unavailable
    else if is_empty d.version
    then err unavailable
    else ok (d.name, d.version)

pub data PluginCapability : Type 0 where
  controller_service volume_expansion_online volume_accessibility_constraints : PluginCapability

unfoldable pub default_plugin_capabilities : List PluginCapability
default_plugin_capabilities = controller_service ∷ []

unfoldable pub get_plugin_capabilities : List PluginCapability
get_plugin_capabilities =
    controller_service ∷ volume_expansion_online ∷ volume_accessibility_constraints ∷ []

pub record Config : Type 0 where
  pub node_id : GoString
  pub is_node_server : Bool
  pub is_controller_server : Bool

-- What the gRPC server is started with.
pub record RunningServers : Type 0 where
  pub driver : CsiDriver
  pub serves_node : Bool
  pub serves_controller : Bool

abbrev served : Config → Bool → Option CsiDriver → Option RunningServers
served conf store_ready none = none
served conf store_ready (some d) =
    if conf.is_node_server || conf.is_controller_server
    then if store_ready
      then some (record {
        driver =
            add_controller_service_capabilities (create_delete_volume ∷ expand_volume_rpc ∷ []) d;
        serves_node = conf.is_node_server;
        serves_controller = conf.is_controller_server;
      })
      else none
    else some (record {
      driver =
          add_controller_service_capabilities (create_delete_volume ∷ expand_volume_rpc ∷ []) d;
      serves_node = false;
      serves_controller = false;
    })

-- Run: `none` is a fatal error, for a driver without a name, a node or a version, or a metadata store
-- that cannot be set up.
unfoldable pub run_driver : GoString → Config → Bool → Option RunningServers
unfolding new_csi_driver add_controller_service_capabilities
run_driver driver_version conf store_ready =
    served conf store_ready (new_csi_driver host_path_csi_driver_name driver_version conf.node_id)
