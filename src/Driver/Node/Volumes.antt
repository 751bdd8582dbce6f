-- ===== src/Driver/Node/Volumes.antt =====
-- What a successful answer of csi-plugin/hostpath/nodeserver.go says about the quota manager.
use hostpathpv_plugin.Base.{
  ◌≡◌, refl, ap, sym, ◌∙◌, Bool, true, false, arith, GoString, Option, none, some, lookup,
  if◌then◌else◌, Result, ok, err, Code, str_eq_refl, Bool-cases, inl, inr,
}
use hostpathpv_plugin.Util.Host.{Host, HostError}
use hostpathpv_plugin.Util.VolumeId.{CsiIdentifier, IdError, decompose_csi_id}
use hostpathpv_plugin.Util.VolumeLocks
use hostpathpv_plugin.Util.VolumeLocks.{VolumeLocks}
use hostpathpv_plugin.Util.Request.{
  NodePublishVolumeRequest, NodeUnpublishVolumeRequest, Checked,
  validate_node_publish_volume_request, validate_node_unpublish_volume_request,
}
use hostpathpv_plugin.Quota.Types.{QuotaError, QuotaProvider, PathQuotaInfo}
use hostpathpv_plugin.Quota.Manager.{XfsQuotaManager, release_volume_path, get_volume_quota_path}
use hostpathpv_plugin.Quota.Manager.Service.Answers.{
  Released, Answered, release_volume_path_books, get_volume_quota_path-Answered,
}
use hostpathpv_plugin.Quota.Manager.Restore
use hostpathpv_plugin.Quota.Manager.Restore.{QuotaManager, xfs_manager, fake_manager}
use hostpathpv_plugin.Client.Volume.{
  ApiVolume, PvUsageInfo, PersistentVolume, get_host_path_pv_by_volume_id,
}
use hostpathpv_plugin.Driver.Locking.{Server, with_volume_lock}
use hostpathpv_plugin.Driver.Node.{
  Mounter, machine, with_machine, when_checked, decoded, node_publish_volume, node_unpublish_volume,
  publish_locked, unpublish_locked, publish_unmounted, mount_volume, path_found, volume_found,
  remove_ephemeral, path_released, unmounted, or_internal, on_machine, unpublish_checked,
}

-- The quotas that a manager has in its cache.
abbrev pub quota_of : {W : Type 0} → GoString → QuotaManager W → Option PathQuotaInfo
quota_of volume (xfs_manager m) = lookup volume m.quotas
quota_of volume (fake_manager w) = none

with_machine-quota_of :
    {W : Type 0} (volume : GoString) (q : QuotaManager W) (w : W)
    → quota_of volume (with_machine q w) ≡ quota_of volume q
with_machine-quota_of volume (xfs_manager m) w = refl
with_machine-quota_of volume (fake_manager v) w = refl

-- The body of a handler under the lock decides what its success says of the world.
with_lock_body :
    {W A : Type 0} (P : W → Type 0) (id : GoString) (body : W → Result Code A × W) (s : Server W)
    (a : A)
    → ((body s.world).0 ≡ ok a → P (body s.world).1)
    → (with_volume_lock id body s).0 ≡ ok a
    → P (with_volume_lock id body s).1.world
unfolding with_volume_lock
with_lock_body P id body s a h = elim (Bool-cases (VolumeLocks.try_acquire id s.volume_locks).0) [
  | inl won ↦ rw won h
  | inr lost ↦ rw lost (λ e. absurd (ground arith))
]

module _ {W : Type 0} (host : Host W) (provider : QuotaProvider W) (mounter : Mounter W)
    (get_pv : GoString → Option ApiVolume) (read_usage : GoString → Option PvUsageInfo) where
  or_internal-quota_of :
      (volume : GoString) (q : QuotaManager W) (p : Result HostError (Unit {0}) × W)
      → quota_of volume (or_internal host provider mounter get_pv read_usage q p).1
        ≡ quota_of volume q
  or_internal-quota_of volume q (ok u, w) = with_machine-quota_of volume q w
  or_internal-quota_of volume q (err e, w) = with_machine-quota_of volume q w

  -- Unpublishing an ephemeral volume: the manager forgets it.
  abbrev Forgets : GoString → Result Code (Unit {0}) × QuotaManager W → Type 0
  Forgets volume p = p.0 ≡ ok tt → quota_of volume p.1 ≡ none

  path_released-Forgets :
      (req : NodeUnpublishVolumeRequest) (m : XfsQuotaManager W)
      (p : Result QuotaError (Unit {0}) × XfsQuotaManager W)
      → Released host provider req.volume_id m p
      → Forgets req.volume_id
          (path_released host provider mounter get_pv read_usage req (Restore.both host provider p))
  path_released-Forgets req m (ok u, n) gone h =
      or_internal-quota_of req.volume_id (xfs_manager n) _
      ∙ (gone req.volume_id
          ∙ ap (λ (b : Bool). if b then none else lookup req.volume_id m.quotas)
              (str_eq_refl req.volume_id))
  path_released-Forgets req m (err e, n) same h = absurd (ground arith)

  remove-Forgets :
      (vi : CsiIdentifier) (req : NodeUnpublishVolumeRequest) (q : QuotaManager W)
      → vi.ephemeral ≡ true
      → Forgets req.volume_id (remove_ephemeral host provider mounter get_pv read_usage vi req q)
  unfolding remove_ephemeral Restore.release
  remove-Forgets vi req (xfs_manager m) e =
      rw (e, remove_ephemeral)
        (path_released-Forgets req m (release_volume_path host provider req.volume_id m)
          (release_volume_path_books host provider req.volume_id m))
  remove-Forgets vi req (fake_manager w) e = rw (e, remove_ephemeral) (λ h. absurd (ground arith))

  unpublish-Forgets :
      (vi : CsiIdentifier) (req : NodeUnpublishVolumeRequest) (q : QuotaManager W) (b : Bool)
      → vi.ephemeral ≡ true
      → Forgets req.volume_id
          (unpublish_checked host provider mounter get_pv read_usage vi req (ok b) q)
  unpublish-Forgets vi req q true e = remove-Forgets vi req q e
  unpublish-Forgets vi req q false e = after_unmount (mounter.unmount req.path (machine q))
    where
      after_unmount :
          (p : Result HostError (Unit {0}) × W)
          → Forgets req.volume_id (
              unmounted host provider mounter get_pv read_usage vi req
                (on_machine host provider mounter get_pv read_usage q p))
      after_unmount (ok u, w) = remove-Forgets vi req (with_machine q w) e
      after_unmount (err f, w) = λ h. absurd (ground arith)

  checked-ok :
      (x : Checked) (s : Server (QuotaManager W))
      (next : Result Code (Unit {0}) × Server (QuotaManager W))
      → (when_checked host provider mounter get_pv read_usage x s next).0 ≡ ok tt
      → when_checked host provider mounter get_pv read_usage x s next ≡ next
  checked-ok (ok u) s next h = refl
  checked-ok (err e) s next h = absurd (ground arith)

  -- Unpublishing a volume whose identifier has the ephemeral flag from a target that can be
  -- examined: if the answer is a success, the quota manager has no quota of the volume any more.
  pub node_unpublish_volume-released :
      (req : NodeUnpublishVolumeRequest) (vi : CsiIdentifier) (b : Bool)
      (s : Server (QuotaManager W))
      → decompose_csi_id req.volume_id ≡ ok vi
      → vi.ephemeral ≡ true
      → mounter.is_not_mount_point req.path (machine s.world) ≡ ok b
      → (node_unpublish_volume host provider mounter get_pv read_usage req s).0 ≡ ok tt
      → quota_of req.volume_id
          (node_unpublish_volume host provider mounter get_pv read_usage req s).1.world
        ≡ none
  unfolding node_unpublish_volume unpublish_locked
  node_unpublish_volume-released req vi b s decodes ephemeral there h =
      let next =
        decoded host provider mounter get_pv read_usage req (decompose_csi_id req.volume_id) s in
      let e = checked-ok (validate_node_unpublish_volume_request req) s next h in
      let body : Forgets req.volume_id
          (unpublish_locked host provider mounter get_pv read_usage vi req s.world) =
        rw (there, unpublish_locked) (unpublish-Forgets vi req s.world b ephemeral) in
      ap
        (λ (p : Result Code (Unit {0}) × Server (QuotaManager W)). quota_of req.volume_id p.1.world)
        e
      ∙ locked (decompose_csi_id req.volume_id) decodes body
          (sym (ap (λ (p : Result Code (Unit {0}) × Server (QuotaManager W)). p.0) e) ∙ h)
    where
      locked :
          (x : Result IdError CsiIdentifier)
          → x ≡ ok vi
          → Forgets req.volume_id
              (unpublish_locked host provider mounter get_pv read_usage vi req s.world)
          → (decoded host provider mounter get_pv read_usage req x s).0 ≡ ok tt
          → quota_of req.volume_id (decoded host provider mounter get_pv read_usage req x s).1.world
            ≡ none
      locked x same body = rw same (
          with_lock_body (λ q. quota_of req.volume_id q ≡ none) req.volume_id
            (unpublish_locked host provider mounter get_pv read_usage vi req) s tt body)

  -- Publishing on a target that is not mounted: the volume that is found is entered.
  abbrev Enters : GoString → Result Code (Unit {0}) × QuotaManager W → Type 0
  Enters volume p = p.0 ≡ ok tt → (info : PathQuotaInfo) × (quota_of volume p.1 ≡ some info)

  mount-Enters :
      (volume path : GoString) (req : NodePublishVolumeRequest) (q : QuotaManager W)
      (info : PathQuotaInfo)
      → quota_of volume q ≡ some info
      → Enters volume (mount_volume host provider mounter get_pv read_usage path req q)
  unfolding mount_volume
  mount-Enters volume path req q info there h = (info, or_internal-quota_of volume q _ ∙ there)

  path-Enters :
      (volume : GoString) (req : NodePublishVolumeRequest) (m : XfsQuotaManager W)
      (p : Result QuotaError GoString × XfsQuotaManager W)
      → Answered host provider volume m p
      → Enters volume
          (path_found host provider mounter get_pv read_usage req (Restore.both host provider p))
  path-Enters volume req m (ok path, n) (info, there, same) =
      mount-Enters volume path req (xfs_manager n) info there
  path-Enters volume req m (err e, n) a = λ h. absurd (ground arith)

  found-Enters :
      (req : NodePublishVolumeRequest) (hpv : PersistentVolume) (q : QuotaManager W)
      → Enters hpv.vol_id
          (volume_found host provider mounter get_pv read_usage req (some (some hpv)) q)
  unfolding Restore.get_path
  found-Enters req hpv (xfs_manager m) =
      path-Enters hpv.vol_id req m (get_volume_quota_path host provider hpv.vol_id hpv.capacity m)
        (get_volume_quota_path-Answered host provider hpv.vol_id hpv.capacity m)
  found-Enters req hpv (fake_manager w) = λ h. absurd (ground arith)

  -- Publishing on a target that is there and not mounted, for a volume that the API server knows:
  -- if the answer is a success, the quota manager has a quota of the volume.
  pub node_publish_volume-entered :
      (req : NodePublishVolumeRequest) (hpv : PersistentVolume) (s : Server (QuotaManager W))
      → get_host_path_pv_by_volume_id read_usage get_pv req.volume_id ≡ some (some hpv)
      → mounter.is_not_mount_point req.target_path (machine s.world) ≡ ok true
      → (node_publish_volume host provider mounter get_pv read_usage req s).0 ≡ ok tt
      → (info : PathQuotaInfo) × (quota_of hpv.vol_id
            (node_publish_volume host provider mounter get_pv read_usage req s).1.world
          ≡ some info)
  unfolding node_publish_volume publish_locked publish_unmounted
  node_publish_volume-entered req hpv s known free h =
      let next =
        with_volume_lock req.volume_id (publish_locked host provider mounter get_pv read_usage req)
          s in
      let e = checked-ok (validate_node_publish_volume_request req) s next h in
      let body : Enters hpv.vol_id
          (publish_locked host provider mounter get_pv read_usage req s.world) =
        rw (free, publish_locked) (rw (known, publish_unmounted) (found-Enters req hpv s.world)) in
      let (info, there) =
        with_lock_body (λ q. (i : PathQuotaInfo) × (quota_of hpv.vol_id q ≡ some i)) req.volume_id
          (publish_locked host provider mounter get_pv read_usage req) s tt body
          (sym (ap (λ (p : Result Code (Unit {0}) × Server (QuotaManager W)). p.0) e) ∙ h) in
      (
        info,
        ap (λ (p : Result Code (Unit {0}) × Server (QuotaManager W)). quota_of hpv.vol_id p.1.world)
              e
            ∙ there,
      )
