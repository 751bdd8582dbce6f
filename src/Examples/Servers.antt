-- ===== src/Examples/Servers.antt =====
-- The node server at work.
use hostpathpv_plugin.Base.{
  ◌≡◌, refl, true, false, none, some, [], ◌∷◌, codes, lookup, str_eq, pos, ok,
}
use hostpathpv_plugin.Util.VolumeId.{
  decompose_csi_id, decode16, parse_bool_from_uint16, take_name, from_hex_digit,
}
use hostpathpv_plugin.Util.VolumeLocks
use hostpathpv_plugin.Util.VolumeLocks.{VolumeLocks}
use hostpathpv_plugin.Util.Request.{
  mount_with, NodePublishVolumeRequest, NodeUnpublishVolumeRequest,
  validate_node_publish_volume_request, validate_node_unpublish_volume_request,
}
use hostpathpv_plugin.Quota.Types.{PathQuotaInfo}
use hostpathpv_plugin.Quota.Provider
use hostpathpv_plugin.Quota.ProjectId
use hostpathpv_plugin.Quota.Manager.{get_volume_quota_path, release_volume_path}
use hostpathpv_plugin.Quota.Manager.Restore
use hostpathpv_plugin.Quota.Manager.Restore.{QuotaManager, xfs_manager}
use hostpathpv_plugin.Client.Volume.{
  ApiVolume, PersistentVolume, get_host_path_pv_by_volume_id, host_path_csi_driver_name,
  to_persistent_volume, is_host_path_pv_of, is_ephemeral, get_host_path_pv_usage_info,
  persistent_volume_key,
}
use hostpathpv_plugin.Driver.Capability.{construct_mount_options}
use hostpathpv_plugin.Driver.Locking.{Server, with_volume_lock}
use hostpathpv_plugin.Driver.Locking.Released.{SameLocks}
use hostpathpv_plugin.Driver.Node.{
  Mounter, node_publish_volume, node_unpublish_volume, publish_locked, unpublish_locked,
  publish_unmounted, mount_volume, remove_ephemeral,
}
use hostpathpv_plugin.Driver.Node.Handlers.{
  handle_node, publishes, IsRefused, node-SameLocks, node-IsRefused,
}
use hostpathpv_plugin.Driver.Node.Volumes.{
  quota_of, node_unpublish_volume-released, node_publish_volume-entered,
}
use hostpathpv_plugin.Examples.Controllers.{id}
use hostpathpv_plugin.Examples.Machine.{World, host, provider, sdb1}
use hostpathpv_plugin.Examples.Managers.{idle, in_use, v1_path}

abbrev pub mounter : Mounter World
mounter = record {
  is_not_mount_point = λ p w. ok true;
  mount = λ source target options w. (ok tt, w);
  unmount = λ p w. (ok tt, w);
}

abbrev pub api_volume : ApiVolume
api_volume = record {
  version = codes "1";
  name = codes "pvc-17";
  namespace = [];
  claim_ref = some (codes "claim", codes "default");
  csi = some (host_path_csi_driver_name, id);
  storage = pos 3000000;
  annotations = [];
}

abbrev pub publish_request : NodePublishVolumeRequest
publish_request = record {
  volume_id = id;
  staging_target_path = codes "/stage";
  target_path = codes "/target";
  volume_capability = some (mount_with []);
  read_only = false;
}

abbrev node : Server (QuotaManager World)
node = record { volume_locks = record { locks = [] }; world = xfs_manager idle }

node-SameLocks_example :
    SameLocks node
      (handle_node host provider mounter
        (λ n. some api_volume)
        (λ t. none)
        (publishes publish_request)
        node).1
node-SameLocks_example =
    node-SameLocks host provider mounter (λ n. some api_volume) (λ t. none)
      (publishes publish_request) node

abbrev busy_node : Server (QuotaManager World)
busy_node = record node { volume_locks = record { locks = id ∷ [] } }

node-IsRefused_example :
    IsRefused host provider mounter
      (λ n. some api_volume)
      (λ t. none)
      busy_node
      (handle_node host provider mounter
        (λ n. some api_volume)
        (λ t. none)
        (publishes publish_request)
        busy_node)
unfolding VolumeLocks.has_lock str_eq
node-IsRefused_example =
    node-IsRefused host provider mounter (λ n. some api_volume) (λ t. none)
      (publishes publish_request) busy_node refl

-- The volume is on the node already.
abbrev serving : Server (QuotaManager World)
serving = record node {
  world = xfs_manager (record in_use {
    quotas =
        (
          id,
          record {
            path = v1_path;
            device_name = sdb1;
            quota = record { hard_quota = 3000000; soft_quota = 3000000; used = 0 };
            last_sync = 5;
            volume_id = id;
          },
        )
        ∷ [];
  });
}

abbrev volume : PersistentVolume
volume = record {
  version = codes "1";
  name = codes "pvc-17";
  namespace = [];
  index = codes "default/claim";
  vol_id = id;
  is_host_path_pv = true;
  bind_node = [];
  ephemeral = true;
  capacity = pos 3000000;
  volume_path = [];
  usage = pos 0;
}

node_publish_volume-entered_example :
    (info : PathQuotaInfo) × (quota_of id
        (node_publish_volume host provider mounter
          (λ n. some api_volume)
          (λ t. none)
          publish_request
          serving).1.world
      ≡ some info)
unfolding get_host_path_pv_by_volume_id to_persistent_volume is_host_path_pv_of is_ephemeral
    get_host_path_pv_usage_info persistent_volume_key decompose_csi_id decode16 from_hex_digit
    parse_bool_from_uint16 take_name str_eq lookup node_publish_volume
    validate_node_publish_volume_request with_volume_lock VolumeLocks.try_acquire
    VolumeLocks.has_lock publish_locked publish_unmounted mount_volume Restore.get_path
    get_volume_quota_path construct_mount_options
node_publish_volume-entered_example =
    node_publish_volume-entered host provider mounter (λ n. some api_volume) (λ t. none)
      publish_request volume serving refl refl refl

abbrev unpublish_request : NodeUnpublishVolumeRequest
unpublish_request = record { volume_id = id; path = codes "/target" }

node_unpublish_volume-released_example :
    quota_of id
      (node_unpublish_volume host provider mounter
        (λ n. some api_volume)
        (λ t. none)
        unpublish_request
        serving).1.world
    ≡ none
unfolding decompose_csi_id decode16 from_hex_digit parse_bool_from_uint16 take_name str_eq lookup
    node_unpublish_volume validate_node_unpublish_volume_request with_volume_lock
    VolumeLocks.try_acquire VolumeLocks.has_lock unpublish_locked remove_ephemeral Restore.release
    release_volume_path Provider.delete_project_quota Provider.remove_path ProjectId.release
node_unpublish_volume-released_example =
    node_unpublish_volume-released host provider mounter (λ n. some api_volume) (λ t. none)
      unpublish_request
      (record { encoding_version = 1; ephemeral = true; volume_name = codes "pvc-17" }) true serving
      refl refl refl refl
