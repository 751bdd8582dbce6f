-- ===== src/Driver/Node/Handlers.antt =====
-- What the handlers of csi-plugin/hostpath/nodeserver.go do to the locks and to the volumes.
use hostpathpv_plugin.Base.{
  ◌≡◌, refl, true, GoString, Option, is_empty, Result, ok, err, Code, aborted, Bool-cases, inl, inr,
}
use hostpathpv_plugin.Util.Host.{Host}
use hostpathpv_plugin.Util.VolumeId.{CsiIdentifier, IdError, decompose_csi_id}
use hostpathpv_plugin.Util.VolumeLocks.Exclusion.{holds}
use hostpathpv_plugin.Util.Request.{
  NodePublishVolumeRequest, NodeUnpublishVolumeRequest, NodeExpandVolumeRequest, Checked,
  validate_node_publish_volume_request, validate_node_unpublish_volume_request,
}
use hostpathpv_plugin.Quota.Types.{QuotaProvider}
use hostpathpv_plugin.Quota.Manager.Restore.{QuotaManager}
use hostpathpv_plugin.Client.Volume.{ApiVolume, PvUsageInfo}
use hostpathpv_plugin.Driver.Locking.{Server}
use hostpathpv_plugin.Driver.Locking.Released.{
  SameLocks, with_volume_lock-SameLocks, with_volume_lock_held,
}
use hostpathpv_plugin.Driver.Node.{
  Mounter, when_checked, decoded, node_publish_volume, node_unpublish_volume, node_expand_volume,
}

-- The calls that work under the lock of a volume.
pub data NodeCall : Type 0 where
  publishes : NodePublishVolumeRequest → NodeCall
  unpublishes : NodeUnpublishVolumeRequest → NodeCall
  expands : NodeExpandVolumeRequest → NodeCall

abbrev pub volume_of : NodeCall → GoString
volume_of (publishes req) = req.volume_id
volume_of (unpublishes req) = req.volume_id
volume_of (expands req) = req.volume_id

module _ {W : Type 0} (host : Host W) (provider : QuotaProvider W) (mounter : Mounter W)
    (get_pv : GoString → Option ApiVolume) (read_usage : GoString → Option PvUsageInfo) where
  abbrev NodeServer : Type 0
  NodeServer = Server (QuotaManager W)

  unfoldable pub handle_node : NodeCall → NodeServer → Result Code (Unit {0}) × NodeServer
  handle_node (publishes req) s = node_publish_volume host provider mounter get_pv read_usage req s
  handle_node (unpublishes req) s =
      node_unpublish_volume host provider mounter get_pv read_usage req s
  handle_node (expands req) s = node_expand_volume host provider mounter get_pv read_usage req s

  checked-SameLocks :
      (x : Checked) (s : NodeServer) (next : Result Code (Unit {0}) × NodeServer)
      → SameLocks s next.1
      → SameLocks s (when_checked host provider mounter get_pv read_usage x s next).1
  checked-SameLocks (ok u) s next h = h
  checked-SameLocks (err e) s next h = λ j. refl

  decoded-SameLocks :
      (req : NodeUnpublishVolumeRequest) (x : Result IdError CsiIdentifier) (s : NodeServer)
      → SameLocks s (decoded host provider mounter get_pv read_usage req x s).1
  decoded-SameLocks req (ok vi) s = with_volume_lock-SameLocks req.volume_id _ s
  decoded-SameLocks req (err e) s = λ j. refl

  -- Whatever the handler of a publish, an unpublish or an expansion answers, and wherever it
  -- fails, the same volumes are locked after it as before.
  pub node-SameLocks : (c : NodeCall) (s : NodeServer) → SameLocks s (handle_node c s).1
  unfolding handle_node node_publish_volume node_unpublish_volume node_expand_volume
  node-SameLocks (publishes req) s =
      checked-SameLocks (validate_node_publish_volume_request req) s _
        (with_volume_lock-SameLocks req.volume_id _ s)
  node-SameLocks (unpublishes req) s =
      checked-SameLocks (validate_node_unpublish_volume_request req) s _
        (decoded-SameLocks req (decompose_csi_id req.volume_id) s)
  node-SameLocks (expands req) s = elim (Bool-cases (is_empty req.volume_id)) [
    | inl empty ↦ rw empty (λ j. refl)
    | inr named ↦ rw named (elim (Bool-cases (is_empty req.volume_path)) [
      | inl no_path ↦ rw no_path (λ j. refl)
      | inr path ↦ rw path (with_volume_lock-SameLocks req.volume_id _ s)
    ])
  ]

  -- An error, with the server as it was.
  abbrev pub IsRefused : NodeServer → Result Code (Unit {0}) × NodeServer → Type 0
  IsRefused s r = (e : Code) × (r ≡ (err e, s))

  checked-IsRefused :
      (x : Checked) (s : NodeServer) (next : Result Code (Unit {0}) × NodeServer)
      → IsRefused s next
      → IsRefused s (when_checked host provider mounter get_pv read_usage x s next)
  checked-IsRefused (ok u) s next h = h
  checked-IsRefused (err e) s next h = (e, refl)

  decoded-IsRefused :
      (req : NodeUnpublishVolumeRequest) (x : Result IdError CsiIdentifier) (s : NodeServer)
      → holds s.volume_locks req.volume_id ≡ true
      → IsRefused s (decoded host provider mounter get_pv read_usage req x s)
  decoded-IsRefused req (ok vi) s held = (aborted, with_volume_lock_held req.volume_id _ s held)
  decoded-IsRefused req (err e) s held = (_, refl)

  -- A publish, an unpublish or an expansion of a volume that is locked is answered with an error
  -- and changes nothing.
  pub node-IsRefused :
      (c : NodeCall) (s : NodeServer)
      → holds s.volume_locks (volume_of c) ≡ true
      → IsRefused s (handle_node c s)
  unfolding handle_node node_publish_volume node_unpublish_volume node_expand_volume
  node-IsRefused (publishes req) s held =
      checked-IsRefused (validate_node_publish_volume_request req) s _
        (aborted, with_volume_lock_held req.volume_id _ s held)
  node-IsRefused (unpublishes req) s held =
      checked-IsRefused (validate_node_unpublish_volume_request req) s _
        (decoded-IsRefused req (decompose_csi_id req.volume_id) s held)
  node-IsRefused (expands req) s held = elim (Bool-cases (is_empty req.volume_id)) [
    | inl empty ↦ rw empty (_, refl)
    | inr named ↦ rw named (elim (Bool-cases (is_empty req.volume_path)) [
      | inl no_path ↦ rw no_path (_, refl)
      | inr path ↦ rw path (aborted, with_volume_lock_held req.volume_id _ s held)
    ])
  ]
