-- ===== src/Driver/Node.antt =====
-- csi-plugin/hostpath/nodeserver.go. The world of the handlers is the quota manager with the machine
-- that it runs on; `Mounter` is k8s.io/utils/mount, `get_pv` the API server's answer about a volume.
pub mod Handlers
pub mod Volumes
use hostpathpv_plugin.Base.{
  ℕ, Bool, true, false, Option, none, some, List, [], ◌∷◌, ◌++◌, codes, GoString, is_empty,
  if◌then◌else◌, ℤ, Result, ok, err, Act, Code, invalid_argument, internal, unknown,
}
use hostpathpv_plugin.Util.Host.{
  Host, HostError, not_exist, no_data, call_failed, no_backing_device,
}
use hostpathpv_plugin.Util.VolumeId.{CsiIdentifier, IdError, decompose_csi_id}
use hostpathpv_plugin.Util.Request.{
  NodeStageVolumeRequest, NodePublishVolumeRequest, NodeUnpublishVolumeRequest,
  NodeExpandVolumeRequest, Checked, validate_node_stage_volume_request,
  validate_node_unstage_volume_request, validate_node_publish_volume_request,
  validate_node_unpublish_volume_request,
}
use hostpathpv_plugin.Quota.Types.{QuotaError, QuotaProvider}
use hostpathpv_plugin.Quota.Manager.{XfsQuotaManager}
use hostpathpv_plugin.Quota.Manager.Restore
use hostpathpv_plugin.Quota.Manager.Restore.{QuotaManager, xfs_manager, fake_manager}
use hostpathpv_plugin.Client.Volume.{
  ApiVolume, PvUsageInfo, PersistentVolume, get_host_path_pv_by_volume_id,
}
use hostpathpv_plugin.Driver.Capability.{construct_mount_options}
use hostpathpv_plugin.Driver.Locking.{Server, with_volume_lock}

pub record Mounter (W : Type 0) : Type 0 where
  pub is_not_mount_point : GoString → W → Result HostError Bool
  pub mount : GoString → GoString → List GoString → Act W HostError (Unit {0})
  pub unmount : GoString → Act W HostError (Unit {0})

-- The machine under a quota manager.
abbrev pub machine : {W : Type 0} → QuotaManager W → W
machine (xfs_manager m) = m.world
machine (fake_manager w) = w

abbrev pub with_machine : {W : Type 0} → QuotaManager W → W → QuotaManager W
with_machine (xfs_manager m) w = xfs_manager (record m { world = w })
with_machine (fake_manager _) w = fake_manager w

module _ {W : Type 0} (host : Host W) (provider : QuotaProvider W) (mounter : Mounter W)
    (get_pv : GoString → Option ApiVolume) (read_usage : GoString → Option PvUsageInfo) where
  -- What is done under a lock: on the manager and its machine.
  abbrev Body : Type 0
  Body = QuotaManager W → Result Code (Unit {0}) × QuotaManager W

  abbrev pub or_internal :
      QuotaManager W → Result HostError (Unit {0}) × W → Result Code (Unit {0}) × QuotaManager W
  or_internal q (ok u, w) = (ok tt, with_machine q w)
  or_internal q (err e, w) = (err internal, with_machine q w)

  abbrev mount_options : NodePublishVolumeRequest → List GoString
  mount_options req =
      let options = construct_mount_options (codes "bind" ∷ []) req.volume_capability in
      if req.read_only then options ++ (codes "ro" ∷ []) else options

  unfoldable pub mount_volume : GoString → NodePublishVolumeRequest → Body
  mount_volume quota_path req q =
      or_internal q (mounter.mount quota_path req.target_path (mount_options req) (machine q))

  -- The manager's error has no status, which gRPC answers with Unknown.
  abbrev pub path_found :
      NodePublishVolumeRequest
      → Result QuotaError GoString × QuotaManager W
      → Result Code (Unit {0}) × QuotaManager W
  path_found req (ok quota_path, q) = mount_volume quota_path req q
  path_found req (err e, q) = (err unknown, q)

  -- A panic is answered with Internal, by the server's panicHandler.
  abbrev pub volume_found : NodePublishVolumeRequest → Option (Option PersistentVolume) → Body
  volume_found req none q = (err internal, q)
  volume_found req (some none) q = (err internal, q)
  volume_found req (some (some volume)) q =
      path_found req (Restore.get_path host provider volume.vol_id volume.capacity q)

  unfoldable pub publish_unmounted : NodePublishVolumeRequest → Body
  unfolding mount_volume
  publish_unmounted req q =
      volume_found req (get_host_path_pv_by_volume_id read_usage get_pv req.volume_id) q

  abbrev pub target_made :
      NodePublishVolumeRequest
      → Result HostError (Unit {0}) × QuotaManager W
      → Result Code (Unit {0}) × QuotaManager W
  target_made req (ok u, q) = publish_unmounted req q
  target_made req (err e, q) = (err internal, q)

  abbrev pub on_machine {ℓ} : {A : Type ℓ} → QuotaManager W → A × W → A × QuotaManager W
  on_machine q (x, w) = (x, with_machine q w)

  -- A target that is mounted is left alone; a missing one is made first.
  abbrev pub target_checked : NodePublishVolumeRequest → Result HostError Bool → Body
  target_checked req (ok true) q = publish_unmounted req q
  target_checked req (ok false) q = (ok tt, q)
  target_checked req (err not_exist) q =
      target_made req (on_machine q (host.mkdir_all req.target_path (machine q)))
  target_checked req (err no_data) q = (err internal, q)
  target_checked req (err call_failed) q = (err internal, q)
  target_checked req (err no_backing_device) q = (err internal, q)

  unfoldable pub publish_locked : NodePublishVolumeRequest → Body
  unfolding publish_unmounted
  publish_locked req q =
      target_checked req (mounter.is_not_mount_point req.target_path (machine q)) q

  abbrev Handled : Type 0
  Handled = Result Code (Unit {0}) × Server (QuotaManager W)

  abbrev pub when_checked : Checked → Server (QuotaManager W) → Handled → Handled
  when_checked (ok u) s next = next
  when_checked (err e) s next = (err e, s)

  unfoldable pub node_publish_volume : NodePublishVolumeRequest → Server (QuotaManager W) → Handled
  unfolding publish_locked
  node_publish_volume req s =
      when_checked (validate_node_publish_volume_request req) s
        (with_volume_lock req.volume_id (publish_locked req) s)

  abbrev target_removed : NodeUnpublishVolumeRequest → Body
  target_removed req q = or_internal q (host.remove_all req.path (machine q))

  abbrev pub path_released :
      NodeUnpublishVolumeRequest
      → Result QuotaError (Unit {0}) × QuotaManager W
      → Result Code (Unit {0}) × QuotaManager W
  path_released req (ok u, q) = target_removed req q
  path_released req (err e, q) = (err internal, q)

  -- The directory of an ephemeral volume goes with its target.
  unfoldable pub remove_ephemeral : CsiIdentifier → NodeUnpublishVolumeRequest → Body
  remove_ephemeral vi req q =
      if vi.ephemeral
      then path_released req (Restore.release host provider req.volume_id q)
      else target_removed req q

  abbrev pub unmounted :
      CsiIdentifier
      → NodeUnpublishVolumeRequest
      → Result HostError (Unit {0}) × QuotaManager W
      → Result Code (Unit {0}) × QuotaManager W
  unmounted vi req (ok u, q) = remove_ephemeral vi req q
  unmounted vi req (err e, q) = (err internal, q)

  abbrev pub unpublish_checked :
      CsiIdentifier → NodeUnpublishVolumeRequest → Result HostError Bool → Body
  unpublish_checked vi req (ok true) q = remove_ephemeral vi req q
  unpublish_checked vi req (ok false) q =
      unmounted vi req (on_machine q (mounter.unmount req.path (machine q)))
  unpublish_checked vi req (err not_exist) q = (ok tt, q)
  unpublish_checked vi req (err no_data) q = (err internal, q)
  unpublish_checked vi req (err call_failed) q = (err internal, q)
  unpublish_checked vi req (err no_backing_device) q = (err internal, q)

  unfoldable pub unpublish_locked : CsiIdentifier → NodeUnpublishVolumeRequest → Body
  unfolding remove_ephemeral
  unpublish_locked vi req q =
      unpublish_checked vi req (mounter.is_not_mount_point req.path (machine q)) q

  abbrev pub decoded :
      NodeUnpublishVolumeRequest → Result IdError CsiIdentifier → Server (QuotaManager W) → Handled
  decoded req (ok vi) s = with_volume_lock req.volume_id (unpublish_locked vi req) s
  decoded req (err e) s = (err internal, s)

  unfoldable pub node_unpublish_volume :
      NodeUnpublishVolumeRequest → Server (QuotaManager W) → Handled
  unfolding unpublish_locked
  node_unpublish_volume req s =
      when_checked (validate_node_unpublish_volume_request req) s
        (decoded req (decompose_csi_id req.volume_id) s)

  abbrev pub expanded :
      Result QuotaError (Unit {0}) × QuotaManager W → Result Code (Unit {0}) × QuotaManager W
  expanded (ok u, q) = (ok tt, q)
  expanded (err e, q) = (err internal, q)

  abbrev pub expand_locked : GoString → Option ℤ → Body
  expand_locked volume_id none q = (err invalid_argument, q)
  expand_locked volume_id (some bytes) q = expanded (Restore.expand host provider volume_id bytes q)

  unfoldable pub node_expand_volume : NodeExpandVolumeRequest → Server (QuotaManager W) → Handled
  node_expand_volume req s =
      if is_empty req.volume_id
      then (err invalid_argument, s)
      else if is_empty req.volume_path
      then (err invalid_argument, s)
      else with_volume_lock req.volume_id (expand_locked req.volume_id req.required_bytes) s

  -- Staging only checks its request.
  unfoldable pub node_stage_volume : NodeStageVolumeRequest → Server (QuotaManager W) → Handled
  node_stage_volume req s =
      when_checked (validate_node_stage_volume_request host req (machine s.world)) s (ok tt, s)

  unfoldable pub node_unstage_volume :
      NodeUnpublishVolumeRequest → Server (QuotaManager W) → Handled
  node_unstage_volume req s = when_checked (validate_node_unstage_volume_request req) s (ok tt, s)
