-- ===== src/Quota/Manager/Listing/Books.antt =====
-- A listing changes usage figures only, and a disabled state changes no size: the disks stay
-- balanced (quota-manager/quotamanager_xfs.go).
use hostpathpv_plugin.Base.{
  ℕ, ◌-◌, ◌≡◌, refl, Bool, List, [], ◌∷◌, GoString, GoMap, str_eq, ltb, Bool-cases, inl, inr,
  Result, ok, err,
}
use hostpathpv_plugin.Util.Host.{Host, HostError}
use hostpathpv_plugin.Quota.Types.{QuotaError, Quota, DiskQuotaInfo, PathQuotaInfo, QuotaProvider}
use hostpathpv_plugin.Quota.Naming.{set_quota_disk_disable_state}
use hostpathpv_plugin.Quota.Manager.{XfsQuotaManager}
use hostpathpv_plugin.Quota.Manager.Balance.{IsBalanced}
use hostpathpv_plugin.Quota.Manager.Listing.{
  keep, disk_read, disk_step, refresh_disks, path_read, path_step, refresh_paths, after_xattr,
  disable_disk, list_quota_disk_infos, list_path_quota_infos, set_quota_disk_disabled_state,
}
use hostpathpv_plugin.Quota.Manager.Listing.Same.{
  SameDisk-refl, SameDisks-refl, SamePaths-refl, SameDisks-IsBalanced, SamePaths-IsBalanced,
  SameDisk, SameDisks, SamePaths,
}

module _ {W : Type 0} (host : Host W) (provider : QuotaProvider W) (max : ℕ) where
  keep_disk-Same :
      (k : GoString) (d e : DiskQuotaInfo) (m : GoMap DiskQuotaInfo)
      (r : Result QuotaError (List DiskQuotaInfo)) (n : GoMap DiskQuotaInfo) (w : W)
      → SameDisk d e
      → SameDisks m n
      → SameDisks ((k, d) ∷ m) (keep host provider max k e (r, n, w)).1
  keep_disk-Same k d e m (ok l) n w one rest = (refl, one, rest)
  keep_disk-Same k d e m (err f) n w one rest = (refl, one, rest)

  refresh_disks-Same :
      (m : GoMap DiskQuotaInfo) (w : W) → SameDisks m (refresh_disks host provider max m w).1
  unfolding refresh_disks
  refresh_disks-Same [] w = tt
  refresh_disks-Same ((k, d) ∷ m) w =
      go (host.now w).0 (host.now w).1 (λ w'. refresh_disks-Same m w')
    where
      read :
          (x : Result QuotaError Quota) (w' : W)
          → ((w'' : W) → SameDisks m (refresh_disks host provider max m w'').1)
          → SameDisks
              ((k, d) ∷ m)
              (disk_read host provider max k d m (refresh_disks host provider max m) (x, w')).1
      read (ok q) w' ih =
          let t = host.now w' in
          let next = refresh_disks host provider max m t.1 in
          keep_disk-Same k d (record d { used = q.used; last_sync = t.0 }) m next.0 next.1 next.2
            (record {
              device_name = refl;
              capacity = refl;
              quota_size = refl;
              allocatable_size = refl;
            })
            (ih t.1)
      read (err f) w' ih = (refl, SameDisk-refl d, SameDisks-refl m)

      go :
          (t : ℕ) (w' : W)
          → ((w'' : W) → SameDisks m (refresh_disks host provider max m w'').1)
          → SameDisks
              ((k, d) ∷ m)
              (disk_step host provider max k d m (refresh_disks host provider max m) (t, w')).1
      go t w' ih = elim (Bool-cases (ltb max (t - d.last_sync))) [
        | inl stale ↦
            let p = provider.get_quota_disk_info d.mount_point w' in rw stale (read p.0 p.1 ih)
        | inr fresh ↦
            let next = refresh_disks host provider max m w' in
            rw fresh (keep_disk-Same k d d m next.0 next.1 next.2 (SameDisk-refl d) (ih w'))
      ]

  keep_path-Same :
      (k : GoString) (d e : PathQuotaInfo) (m : GoMap PathQuotaInfo)
      (r : Result QuotaError (List PathQuotaInfo)) (n : GoMap PathQuotaInfo) (w : W)
      → d.device_name ≡ e.device_name
      → d.quota.hard_quota ≡ e.quota.hard_quota
      → SamePaths m n
      → SamePaths ((k, d) ∷ m) (keep host provider max k e (r, n, w)).1
  keep_path-Same k d e m (ok l) n w one two rest = (refl, one, two, rest)
  keep_path-Same k d e m (err f) n w one two rest = (refl, one, two, rest)

  refresh_paths-Same :
      (m : GoMap PathQuotaInfo) (w : W) → SamePaths m (refresh_paths host provider max m w).1
  unfolding refresh_paths
  refresh_paths-Same [] w = tt
  refresh_paths-Same ((k, d) ∷ m) w =
      go (host.now w).0 (host.now w).1 (λ w'. refresh_paths-Same m w')
    where
      read :
          (x : Result QuotaError Quota) (w' : W)
          → ((w'' : W) → SamePaths m (refresh_paths host provider max m w'').1)
          → SamePaths
              ((k, d) ∷ m)
              (path_read host provider max k d m (refresh_paths host provider max m) (x, w')).1
      read (ok q) w' ih =
          let t = host.now w' in
          let next = refresh_paths host provider max m t.1 in
          keep_path-Same k d
            (record d { quota = record d.quota { used = q.used }; last_sync = t.0 }) m next.0 next.1
            next.2 refl refl (ih t.1)
      read (err f) w' ih = (refl, refl, refl, SamePaths-refl m)

      go :
          (t : ℕ) (w' : W)
          → ((w'' : W) → SamePaths m (refresh_paths host provider max m w'').1)
          → SamePaths
              ((k, d) ∷ m)
              (path_step host provider max k d m (refresh_paths host provider max m) (t, w')).1
      go t w' ih = elim (Bool-cases (ltb max (t - d.last_sync))) [
        | inl stale ↦
            let p = provider.get_project_quota d.path d.device_name w' in rw stale (read p.0 p.1 ih)
        | inr fresh ↦
            let next = refresh_paths host provider max m w' in
            rw fresh (keep_path-Same k d d m next.0 next.1 next.2 refl refl (ih w'))
      ]

module _ {W : Type 0} (host : Host W) (provider : QuotaProvider W) where
  disable_disk-Same :
      (mount : GoString) (off : Bool) (m : GoMap DiskQuotaInfo) (w : W)
      → SameDisks m (disable_disk host provider mount off m w).1
  unfolding disable_disk
  disable_disk-Same mount off [] w = tt
  disable_disk-Same mount off ((k, d) ∷ m) w = elim (Bool-cases (str_eq d.mount_point mount)) [
    | inl hit ↦
        let p = set_quota_disk_disable_state host d.mount_point off w in rw hit (written p.0 p.1)
    | inr miss ↦ rw miss (refl, SameDisk-refl d, disable_disk-Same mount off m w)
  ]
    where
      written :
          (x : Result HostError (Unit {0})) (w' : W)
          → SameDisks ((k, d) ∷ m) (after_xattr host provider k d m off (x, w')).1
      written (ok u) w' = (
        refl,
        record { device_name = refl; capacity = refl; quota_size = refl; allocatable_size = refl },
        SameDisks-refl m,
      )
      written (err e) w' = (refl, SameDisk-refl d, SameDisks-refl m)

  abbrev Balanced : XfsQuotaManager W → Type 0
  Balanced m = IsBalanced m.disk_quota_infos m.quotas

  pub list_quota_disk_infos-Balanced :
      (m : XfsQuotaManager W) → Balanced m → Balanced (list_quota_disk_infos host provider m).1
  unfolding list_quota_disk_infos
  list_quota_disk_infos-Balanced m v =
      SameDisks-IsBalanced _ _ m.quotas
        (refresh_disks-Same host provider m.max_cache_time m.disk_quota_infos m.world) v

  pub list_path_quota_infos-Balanced :
      (m : XfsQuotaManager W) → Balanced m → Balanced (list_path_quota_infos host provider m).1
  unfolding list_path_quota_infos
  list_path_quota_infos-Balanced m v =
      SamePaths-IsBalanced m.disk_quota_infos _ _
        (refresh_paths-Same host provider m.max_cache_time m.quotas m.world) v

  pub set_quota_disk_disabled_state-Balanced :
      (mount : GoString) (off : Bool) (m : XfsQuotaManager W)
      → Balanced m
      → Balanced (set_quota_disk_disabled_state host provider mount off m).1
  unfolding set_quota_disk_disabled_state
  set_quota_disk_disabled_state-Balanced mount off m v =
      SameDisks-IsBalanced _ _ m.quotas (disable_disk-Same mount off m.disk_quota_infos m.world) v
