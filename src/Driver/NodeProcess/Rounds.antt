-- ===== src/Driver/NodeProcess/Rounds.antt =====
-- What a round of csi-plugin/hostpath/syncworker.go leaves in the manager's books.
use hostpathpv_plugin.Base.{
  ◌≡◌, refl, Bool, true, false, Option, none, some, List, [], ◌∷◌, GoString, GoMap, Result, ok, err,
  Bool-cases, inl, inr, has, arith, some_injective, subst, sym,
}
use hostpathpv_plugin.Util.Host.{Host}
use hostpathpv_plugin.Quota.Types.{QuotaProvider, DiskQuotaInfo, PathQuotaInfo}
use hostpathpv_plugin.Quota.Manager.Listing.Books.{
  list_quota_disk_infos-Balanced, list_path_quota_infos-Balanced,
  set_quota_disk_disabled_state-Balanced,
}
use hostpathpv_plugin.Quota.Manager.Restore
use hostpathpv_plugin.Quota.Manager.Restore.{QuotaManager, xfs_manager, fake_manager}
use hostpathpv_plugin.Client.Volume.{PersistentVolume}
use hostpathpv_plugin.Client.Node.{ApiNode, NodeUsageInfo}
use hostpathpv_plugin.Driver.MetaStore.{StoreError, list_meta_infos}
use hostpathpv_plugin.Driver.SyncWorker
use hostpathpv_plugin.Driver.SyncWorker.{Cluster, SyncError, request_error, panicked}
use hostpathpv_plugin.Driver.NodeProcess.{BooksBalanced}
use hostpathpv_plugin.Driver.NodeProcess.Bodies.{release-BooksBalanced}

-- A chain that ends had a first part that ended.
both_ended :
    {A B : Type 0} {b : B} (o : Option A) (f : A → Option B)
    → elim o [ none ↦ none | some a ↦ f a ] ≡ some b
    → (a : A) × (o ≡ some a) × (f a ≡ some b)
both_ended none f h = absurd (ground arith)
both_ended (some a) f h = (a, refl, h)

module _ {W K : Type 0} (host : Host W) (provider : QuotaProvider W) (cluster : Cluster K) where
  list_paths-BooksBalanced :
      (q : QuotaManager W) → BooksBalanced q → BooksBalanced (Restore.list_paths host provider q).1
  unfolding Restore.list_paths
  list_paths-BooksBalanced (xfs_manager m) h = list_path_quota_infos-Balanced host provider m h
  list_paths-BooksBalanced (fake_manager w) h = tt

  list_disks-BooksBalanced :
      (q : QuotaManager W) → BooksBalanced q → BooksBalanced (Restore.list_disks host provider q).1
  unfolding Restore.list_disks
  list_disks-BooksBalanced (xfs_manager m) h = list_quota_disk_infos-Balanced host provider m h
  list_disks-BooksBalanced (fake_manager w) h = tt

  disable-BooksBalanced :
      (mount_point : GoString) (off : Bool) (q : QuotaManager W)
      → BooksBalanced q
      → BooksBalanced (Restore.disable host provider mount_point off q).1
  unfolding Restore.disable
  disable-BooksBalanced mount_point off (xfs_manager m) h =
      set_quota_disk_disabled_state-Balanced host provider mount_point off m h
  disable-BooksBalanced mount_point off (fake_manager w) h = tt

  release_all-BooksBalanced :
      (ids : List GoString) (q : QuotaManager W)
      → BooksBalanced q
      → BooksBalanced (SyncWorker.release_all host provider cluster ids q).1
  unfolding SyncWorker.release_all
  release_all-BooksBalanced [] q h = h
  release_all-BooksBalanced (id ∷ ids) q h =
      release_all-BooksBalanced ids (Restore.release host provider id q).1
        (release-BooksBalanced host provider id q h)

  abbrev Worker : Type 0
  Worker = SyncWorker.SyncWorker W K

  clean_orphan_quota_path-BooksBalanced :
      (infos : List PathQuotaInfo) (s : Worker)
      → BooksBalanced s.quota_mng
      → BooksBalanced (SyncWorker.clean_orphan_quota_path host provider cluster infos s).1.quota_mng
  unfolding SyncWorker.clean_orphan_quota_path
  clean_orphan_quota_path-BooksBalanced infos s h =
      let p = SyncWorker.release_all host provider cluster s.should_delete_vol_ids s.quota_mng in
      from p.0 (list_meta_infos cluster.config_maps s.cluster_state) (record s { quota_mng = p.1 })
        (release_all-BooksBalanced s.should_delete_vol_ids s.quota_mng h)
    where
      from :
          (again : List GoString) (x : Result StoreError (GoMap GoString)) (t : Worker)
          → BooksBalanced t.quota_mng
          → BooksBalanced
              (SyncWorker.clean_listed host provider cluster infos again x t).1.quota_mng
      from again (err e) t b = b
      from again (ok metas) t b =
          release_all-BooksBalanced (SyncWorker.orphans host provider cluster metas infos)
            t.quota_mng b

  -- What reports to the API server leaves the manager alone.
  abbrev Leaves : (Worker → SyncWorker.Round host provider cluster) → Type 0
  Leaves f = (t : Worker) → (f t).1.quota_mng ≡ t.quota_mng

  volume_patched-Leaves :
      (info : PathQuotaInfo) (next : Worker → SyncWorker.Round host provider cluster) (s : Worker)
      (r : Result StoreError (Unit {0}) × K)
      → Leaves next
      → (SyncWorker.volume_patched host provider cluster info next s r).1.quota_mng ≡ s.quota_mng
  volume_patched-Leaves info next s (ok u, k) h = h _
  volume_patched-Leaves info next s (err e, k) h = refl

  volume_synced-Leaves :
      (info : PathQuotaInfo) (next : Worker → SyncWorker.Round host provider cluster) (s : Worker)
      (o : Option (Option PersistentVolume))
      → Leaves next
      → (SyncWorker.volume_synced host provider cluster info next s o).1.quota_mng ≡ s.quota_mng
  volume_synced-Leaves info next s none h = refl
  volume_synced-Leaves info next s (some none) h = h s
  volume_synced-Leaves info next s (some (some v)) h = volume_patched-Leaves info next s _ h

  sync_quota_path_usage-Leaves :
      (infos : List PathQuotaInfo)
      → Leaves (SyncWorker.sync_quota_path_usage host provider cluster infos)
  unfolding SyncWorker.sync_quota_path_usage
  sync_quota_path_usage-Leaves [] s = refl
  sync_quota_path_usage-Leaves (info ∷ infos) s =
      elim (Bool-cases (SyncWorker.should_update s.last_sync_quota_info_cache info)) [
        | inr same ↦ rw same (sync_quota_path_usage-Leaves infos s)
        | inl new ↦ rw new (
            volume_synced-Leaves info (SyncWorker.sync_quota_path_usage host provider cluster infos)
              s _ (sync_quota_path_usage-Leaves infos))
      ]

  sync_disabled-BooksBalanced :
      (disabled : GoMap (Unit {0})) (disks : List DiskQuotaInfo) (q : QuotaManager W)
      → BooksBalanced q
      → BooksBalanced (SyncWorker.sync_disabled host provider cluster disabled disks q)
  unfolding SyncWorker.sync_disabled
  sync_disabled-BooksBalanced disabled [] q h = h
  sync_disabled-BooksBalanced disabled (disk ∷ disks) q h =
      sync_disabled-BooksBalanced disabled disks _
        (elim (Bool-cases (has disk.mount_point disabled)) [
          | inl off ↦ rw off (elim (Bool-cases disk.disabled) [
            | inl already ↦ rw already h
            | inr on ↦ rw on (disable-BooksBalanced disk.mount_point true q h)
          ])
          | inr wanted ↦ rw wanted (elim (Bool-cases disk.disabled) [
            | inl off ↦ rw off (disable-BooksBalanced disk.mount_point false q h)
            | inr on ↦ rw on h
          ])
        ])

  node_compared-Leaves :
      (report : NodeUsageInfo) (o : Option Bool)
      → Leaves (λ s. SyncWorker.node_compared host provider cluster report s o)
  node_compared-Leaves report none s = refl
  node_compared-Leaves report (some false) s = refl
  node_compared-Leaves report (some true) s =
      patched s (cluster.patch_node s.node_name report s.cluster_state)
    where
      patched :
          (t : Worker) (r : Result StoreError (Unit {0}) × K)
          → (SyncWorker.node_patched host provider cluster report t r).1.quota_mng ≡ t.quota_mng
      patched t (ok u, k) = refl
      patched t (err e, k) = refl

  node_found-BooksBalanced :
      (disks : List DiskQuotaInfo) (s : Worker) (x : Result StoreError ApiNode)
      → BooksBalanced s.quota_mng
      → BooksBalanced (SyncWorker.node_found host provider cluster disks s x).1.quota_mng
  node_found-BooksBalanced disks s (err e) h = h
  node_found-BooksBalanced disks s (ok api_node) h =
      subst BooksBalanced (sym (node_compared-Leaves _ _ _))
        (sync_disabled-BooksBalanced _ disks s.quota_mng h)

  sync_node_quota_status-BooksBalanced :
      (disks : List DiskQuotaInfo) (s : Worker)
      → BooksBalanced s.quota_mng
      → BooksBalanced (SyncWorker.sync_node_quota_status host provider cluster disks s).1.quota_mng
  unfolding SyncWorker.sync_node_quota_status
  sync_node_quota_status-BooksBalanced disks s h = node_found-BooksBalanced disks s _ h

  -- A part of a round that ends leaves the worker that it came to.
  survived-BooksBalanced :
      (r : SyncWorker.Round host provider cluster) (s : Worker)
      → SyncWorker.survived host provider cluster r ≡ some s
      → BooksBalanced r.1.quota_mng
      → BooksBalanced s.quota_mng
  survived-BooksBalanced (ok u, t) s e h =
      subst (λ (v : Worker). BooksBalanced v.quota_mng) (some_injective e) h
  survived-BooksBalanced (err (request_error f), t) s e h =
      subst (λ (v : Worker). BooksBalanced v.quota_mng) (some_injective e) h
  survived-BooksBalanced (err panicked, t) s e h = absurd (ground arith)

  pub populator_loop-BooksBalanced :
      (s t : Worker)
      → SyncWorker.populator_loop host provider cluster s ≡ some t
      → BooksBalanced s.quota_mng
      → BooksBalanced t.quota_mng
  unfolding SyncWorker.populator_loop
  populator_loop-BooksBalanced s t e h =
      let paths = Restore.list_paths host provider s.quota_mng in
      let infos = SyncWorker.listed host provider cluster paths.0 in
      let (s1, e1, r1) = both_ended _ _ e in
      let (s2, e2, r2) = both_ended _ _ r1 in
      let b1 =
        survived-BooksBalanced
          (SyncWorker.clean_orphan_quota_path host provider cluster infos
            (record s { quota_mng = paths.1 }))
          s1 e1
          (clean_orphan_quota_path-BooksBalanced infos (record s { quota_mng = paths.1 })
            (list_paths-BooksBalanced s.quota_mng h)) in
      let b2 =
        survived-BooksBalanced (SyncWorker.sync_quota_path_usage host provider cluster infos s1) s2
          e2 (subst BooksBalanced (sym (sync_quota_path_usage-Leaves infos s1)) b1) in
      let disks = Restore.list_disks host provider s2.quota_mng in
      survived-BooksBalanced
        (SyncWorker.sync_node_quota_status host provider cluster
          (SyncWorker.listed host provider cluster disks.0) (record s2 { quota_mng = disks.1 }))
        t r2
        (sync_node_quota_status-BooksBalanced (SyncWorker.listed host provider cluster disks.0)
          (record s2 { quota_mng = disks.1 }) (list_disks-BooksBalanced s2.quota_mng b2))
