-- ===== src/Driver/NodeProcess/Bodies.antt =====
-- What the handlers of csi-plugin/hostpath/nodeserver.go leave in the manager's books.
use hostpathpv_plugin.Base.{
  Bool, true, false, Option, none, some, GoString, is_empty, ℤ, Result, ok, err, Code, Bool-cases,
  inl, inr,
}
use hostpathpv_plugin.Util.Host.{
  Host, HostError, not_exist, no_data, call_failed, no_backing_device,
}
use hostpathpv_plugin.Util.VolumeId.{CsiIdentifier, IdError, decompose_csi_id}
use hostpathpv_plugin.Util.VolumeLocks
use hostpathpv_plugin.Util.Request.{
  NodePublishVolumeRequest, NodeUnpublishVolumeRequest, Checked,
  validate_node_publish_volume_request, validate_node_unpublish_volume_request,
}
use hostpathpv_plugin.Quota.Types.{QuotaError, QuotaProvider}
use hostpathpv_plugin.Quota.Manager.Methods.{
  get_volume_quota_path-Balanced, expand_volume-Balanced, release_volume_path-Balanced,
}
use hostpathpv_plugin.Quota.Manager.Restore
use hostpathpv_plugin.Quota.Manager.Restore.{QuotaManager, xfs_manager, fake_manager}
use hostpathpv_plugin.Client.Volume.{ApiVolume, PvUsageInfo, PersistentVolume}
use hostpathpv_plugin.Driver.Locking.{Server, with_volume_lock}
use hostpathpv_plugin.Driver.Node
use hostpathpv_plugin.Driver.Node.{Mounter, machine, with_machine}
use hostpathpv_plugin.Driver.Node.Handlers.{NodeCall, publishes, unpublishes, expands, handle_node}
use hostpathpv_plugin.Driver.NodeProcess.{BooksBalanced}

-- The machine is no part of the books.
pub with_machine-BooksBalanced :
    {W : Type 0} (q : QuotaManager W) (w : W) → BooksBalanced q → BooksBalanced (with_machine q w)
with_machine-BooksBalanced (xfs_manager m) w h = h
with_machine-BooksBalanced (fake_manager v) w h = tt

module _ {W : Type 0} (host : Host W) (provider : QuotaProvider W) where
  pub release-BooksBalanced :
      (volume : GoString) (q : QuotaManager W)
      → BooksBalanced q
      → BooksBalanced (Restore.release host provider volume q).1
  unfolding Restore.release
  release-BooksBalanced volume (xfs_manager m) h =
      release_volume_path-Balanced host provider volume m h
  release-BooksBalanced volume (fake_manager w) h = tt

  get_path-BooksBalanced :
      (volume : GoString) (capacity : ℤ) (q : QuotaManager W)
      → BooksBalanced q
      → BooksBalanced (Restore.get_path host provider volume capacity q).1
  unfolding Restore.get_path
  get_path-BooksBalanced volume capacity (xfs_manager m) h =
      get_volume_quota_path-Balanced host provider volume capacity m h
  get_path-BooksBalanced volume capacity (fake_manager w) h = tt

  expand-BooksBalanced :
      (volume : GoString) (capacity : ℤ) (q : QuotaManager W)
      → BooksBalanced q
      → BooksBalanced (Restore.expand host provider volume capacity q).1
  unfolding Restore.expand
  expand-BooksBalanced volume capacity (xfs_manager m) h =
      expand_volume-Balanced host provider volume capacity m h
  expand-BooksBalanced volume capacity (fake_manager w) h = tt

  module _ (mounter : Mounter W) (get_pv : GoString → Option ApiVolume)
      (read_usage : GoString → Option PvUsageInfo) where
    abbrev Balances : Result Code (Unit {0}) × QuotaManager W → Type 0
    Balances r = BooksBalanced r.1

    or_internal-Balances :
        (q : QuotaManager W) (r : Result HostError (Unit {0}) × W)
        → BooksBalanced q
        → Balances (Node.or_internal host provider mounter get_pv read_usage q r)
    or_internal-Balances q (ok u, w) h = with_machine-BooksBalanced q w h
    or_internal-Balances q (err e, w) h = with_machine-BooksBalanced q w h

    path_found-Balances :
        (req : NodePublishVolumeRequest) (r : Result QuotaError GoString × QuotaManager W)
        → BooksBalanced r.1
        → Balances (Node.path_found host provider mounter get_pv read_usage req r)
    unfolding Node.mount_volume
    path_found-Balances req (ok path, q) h = or_internal-Balances q _ h
    path_found-Balances req (err e, q) h = h

    volume_found-Balances :
        (req : NodePublishVolumeRequest) (o : Option (Option PersistentVolume)) (q : QuotaManager W)
        → BooksBalanced q
        → Balances (Node.volume_found host provider mounter get_pv read_usage req o q)
    volume_found-Balances req none q h = h
    volume_found-Balances req (some none) q h = h
    volume_found-Balances req (some (some v)) q h =
        path_found-Balances req (Restore.get_path host provider v.vol_id v.capacity q)
          (get_path-BooksBalanced v.vol_id v.capacity q h)

    publish_unmounted-Balances :
        (req : NodePublishVolumeRequest) (q : QuotaManager W)
        → BooksBalanced q
        → Balances (Node.publish_unmounted host provider mounter get_pv read_usage req q)
    unfolding Node.publish_unmounted
    publish_unmounted-Balances req q h = volume_found-Balances req _ q h

    target_made-Balances :
        (req : NodePublishVolumeRequest) (q : QuotaManager W) (r : Result HostError (Unit {0}) × W)
        → BooksBalanced q
        → Balances (
            Node.target_made host provider mounter get_pv read_usage req
              (Node.on_machine host provider mounter get_pv read_usage q r))
    target_made-Balances req q (ok u, w) h =
        publish_unmounted-Balances req (with_machine q w) (with_machine-BooksBalanced q w h)
    target_made-Balances req q (err e, w) h = with_machine-BooksBalanced q w h

    target_checked-Balances :
        (req : NodePublishVolumeRequest) (x : Result HostError Bool) (q : QuotaManager W)
        → BooksBalanced q
        → Balances (Node.target_checked host provider mounter get_pv read_usage req x q)
    target_checked-Balances req (ok true) q h = publish_unmounted-Balances req q h
    target_checked-Balances req (ok false) q h = h
    target_checked-Balances req (err not_exist) q h =
        target_made-Balances req q (host.mkdir_all req.target_path (machine q)) h
    target_checked-Balances req (err no_data) q h = h
    target_checked-Balances req (err call_failed) q h = h
    target_checked-Balances req (err no_backing_device) q h = h

    path_released-Balances :
        (req : NodeUnpublishVolumeRequest) (r : Result QuotaError (Unit {0}) × QuotaManager W)
        → BooksBalanced r.1
        → Balances (Node.path_released host provider mounter get_pv read_usage req r)
    path_released-Balances req (ok u, q) h = or_internal-Balances q _ h
    path_released-Balances req (err e, q) h = h

    remove_ephemeral-Balances :
        (vi : CsiIdentifier) (req : NodeUnpublishVolumeRequest) (q : QuotaManager W)
        → BooksBalanced q
        → Balances (Node.remove_ephemeral host provider mounter get_pv read_usage vi req q)
    unfolding Node.remove_ephemeral
    remove_ephemeral-Balances vi req q h = elim (Bool-cases vi.ephemeral) [
      | inl short ↦ rw short (
          path_released-Balances req (Restore.release host provider req.volume_id q)
            (release-BooksBalanced req.volume_id q h))
      | inr long ↦ rw long (or_internal-Balances q _ h)
    ]

    unmounted-Balances :
        (vi : CsiIdentifier) (req : NodeUnpublishVolumeRequest) (q : QuotaManager W)
        (r : Result HostError (Unit {0}) × W)
        → BooksBalanced q
        → Balances (
            Node.unmounted host provider mounter get_pv read_usage vi req
              (Node.on_machine host provider mounter get_pv read_usage q r))
    unmounted-Balances vi req q (ok u, w) h =
        remove_ephemeral-Balances vi req (with_machine q w) (with_machine-BooksBalanced q w h)
    unmounted-Balances vi req q (err e, w) h = with_machine-BooksBalanced q w h

    unpublish_checked-Balances :
        (vi : CsiIdentifier) (req : NodeUnpublishVolumeRequest) (x : Result HostError Bool)
        (q : QuotaManager W)
        → BooksBalanced q
        → Balances (Node.unpublish_checked host provider mounter get_pv read_usage vi req x q)
    unpublish_checked-Balances vi req (ok true) q h = remove_ephemeral-Balances vi req q h
    unpublish_checked-Balances vi req (ok false) q h = unmounted-Balances vi req q _ h
    unpublish_checked-Balances vi req (err not_exist) q h = h
    unpublish_checked-Balances vi req (err no_data) q h = h
    unpublish_checked-Balances vi req (err call_failed) q h = h
    unpublish_checked-Balances vi req (err no_backing_device) q h = h

    expand_locked-Balances :
        (volume : GoString) (o : Option ℤ) (q : QuotaManager W)
        → BooksBalanced q
        → Balances (Node.expand_locked host provider mounter get_pv read_usage volume o q)
    expand_locked-Balances volume none q h = h
    expand_locked-Balances volume (some bytes) q h =
        expanded-Balances (Restore.expand host provider volume bytes q)
          (expand-BooksBalanced volume bytes q h)
      where
        expanded-Balances :
            (r : Result QuotaError (Unit {0}) × QuotaManager W)
            → BooksBalanced r.1
            → Balances (Node.expanded host provider mounter get_pv read_usage r)
        expanded-Balances (ok u, q') h' = h'
        expanded-Balances (err e, q') h' = h'

    -- Under a lock, or refused by it.
    with_volume_lock-BooksBalanced :
        (id : GoString) (body : QuotaManager W → Result Code (Unit {0}) × QuotaManager W)
        (s : Server (QuotaManager W))
        → BooksBalanced s.world
        → ((q : QuotaManager W) → BooksBalanced q → BooksBalanced (body q).1)
        → BooksBalanced (with_volume_lock id body s).1.world
    unfolding with_volume_lock
    with_volume_lock-BooksBalanced id body s h keep =
        elim (Bool-cases (VolumeLocks.try_acquire id s.volume_locks).0) [
          | inl won ↦ rw won (keep s.world h)
          | inr lost ↦ rw lost h
        ]

    checked-BooksBalanced :
        (x : Checked) (s : Server (QuotaManager W))
        (next : Result Code (Unit {0}) × Server (QuotaManager W))
        → BooksBalanced s.world
        → BooksBalanced next.1.world
        → BooksBalanced (Node.when_checked host provider mounter get_pv read_usage x s next).1.world
    checked-BooksBalanced (ok u) s next h k = k
    checked-BooksBalanced (err e) s next h k = h

    decoded-BooksBalanced :
        (req : NodeUnpublishVolumeRequest) (x : Result IdError CsiIdentifier)
        (s : Server (QuotaManager W))
        → BooksBalanced s.world
        → BooksBalanced (Node.decoded host provider mounter get_pv read_usage req x s).1.world
    unfolding Node.unpublish_locked
    decoded-BooksBalanced req (ok vi) s h =
        with_volume_lock-BooksBalanced req.volume_id _ s h (λ q b.
          unpublish_checked-Balances vi req (mounter.is_not_mount_point req.path (machine q)) q b)
    decoded-BooksBalanced req (err e) s h = h

    pub handle_node-BooksBalanced :
        (c : NodeCall) (s : Server (QuotaManager W))
        → BooksBalanced s.world
        → BooksBalanced (handle_node host provider mounter get_pv read_usage c s).1.world
    unfolding handle_node Node.node_publish_volume Node.node_unpublish_volume
        Node.node_expand_volume Node.publish_locked
    handle_node-BooksBalanced (publishes req) s h =
        checked-BooksBalanced (validate_node_publish_volume_request req) s _ h (
          with_volume_lock-BooksBalanced req.volume_id _ s h (λ q b.
            target_checked-Balances req (mounter.is_not_mount_point req.target_path (machine q)) q
              b))
    handle_node-BooksBalanced (unpublishes req) s h =
        checked-BooksBalanced (validate_node_unpublish_volume_request req) s _ h
          (decoded-BooksBalanced req (decompose_csi_id req.volume_id) s h)
    handle_node-BooksBalanced (expands req) s h = elim (Bool-cases (is_empty req.volume_id)) [
      | inl empty ↦ rw empty h
      | inr named ↦ rw named (elim (Bool-cases (is_empty req.volume_path)) [
        | inl no_path ↦ rw no_path h
        | inr path ↦ rw path (
            with_volume_lock-BooksBalanced req.volume_id _ s h
              (λ q b. expand_locked-Balances req.volume_id req.required_bytes q b))
      ])
    ]
