-- ===== src/Quota/Manager/Listing.antt =====
-- `ListQuotaDiskInfos`, `ListPathQuotaInfos` and `SetQuotaDiskDisabledState` of
-- quota-manager/quotamanager_xfs.go. What a listing has refreshed before it fails stays refreshed.
pub mod Same
pub mod Books
use hostpathpv_plugin.Base.{
  ℕ, ◌-◌, Bool, true, false, List, [], ◌∷◌, GoString, GoMap, insert, str_eq, ltb, if◌then◌else◌,
  Result, ok, err,
}
use hostpathpv_plugin.Util.Host.{Host, HostError}
use hostpathpv_plugin.Quota.Types.{
  QuotaError, Quota, DiskQuotaInfo, PathQuotaInfo, QuotaProvider, mount_point_unknown, xattr_failed,
}
use hostpathpv_plugin.Quota.Naming.{set_quota_disk_disable_state}
use hostpathpv_plugin.Quota.Manager.{XfsQuotaManager}

-- The list so far, the entries of the map, and the machine.
abbrev pub Refreshed : Type 0 → Type 0 → Type 0
Refreshed V W = Result QuotaError (List V) × GoMap V × W

module _ {W : Type 0} (host : Host W) (provider : QuotaProvider W) (max_cache_time : ℕ) where
  -- The entry is kept in the map; the list fails if the rest of it fails.
  abbrev keep : {V : Type 0} → GoString → V → Refreshed V W → Refreshed V W
  keep key v (ok vs, m, w) = (ok (v ∷ vs), (key, v) ∷ m, w)
  keep key v (err e, m, w) = (err e, (key, v) ∷ m, w)

  abbrev disk_read :
      GoString
      → DiskQuotaInfo
      → GoMap DiskQuotaInfo
      → (W → Refreshed DiskQuotaInfo W)
      → Result QuotaError Quota × W
      → Refreshed DiskQuotaInfo W
  disk_read key disk rest next (ok quota, w) =
      let (t, w') = host.now w in
      keep key (record disk { used = quota.used; last_sync = t }) (next w')
  disk_read key disk rest next (err e, w) = (err e, (key, disk) ∷ rest, w)

  abbrev disk_step :
      GoString
      → DiskQuotaInfo
      → GoMap DiskQuotaInfo
      → (W → Refreshed DiskQuotaInfo W)
      → ℕ × W
      → Refreshed DiskQuotaInfo W
  disk_step key disk rest next (t, w) =
      if ltb max_cache_time (t - disk.last_sync)
      then disk_read key disk rest next (provider.get_quota_disk_info disk.mount_point w)
      else keep key disk (next w)

  unfoldable pub refresh_disks : GoMap DiskQuotaInfo → W → Refreshed DiskQuotaInfo W
  refresh_disks [] w = (ok [], [], w)
  refresh_disks ((key, disk) ∷ rest) w = disk_step key disk rest (refresh_disks rest) (host.now w)

  abbrev path_read :
      GoString
      → PathQuotaInfo
      → GoMap PathQuotaInfo
      → (W → Refreshed PathQuotaInfo W)
      → Result QuotaError Quota × W
      → Refreshed PathQuotaInfo W
  path_read key info rest next (ok quota, w) =
      let (t, w') = host.now w in
      keep key (record info { quota = record info.quota { used = quota.used }; last_sync = t })
        (next w')
  path_read key info rest next (err e, w) = (err e, (key, info) ∷ rest, w)

  abbrev path_step :
      GoString
      → PathQuotaInfo
      → GoMap PathQuotaInfo
      → (W → Refreshed PathQuotaInfo W)
      → ℕ × W
      → Refreshed PathQuotaInfo W
  path_step key info rest next (t, w) =
      if ltb max_cache_time (t - info.last_sync)
      then path_read key info rest next (provider.get_project_quota info.path info.device_name w)
      else keep key info (next w)

  unfoldable pub refresh_paths : GoMap PathQuotaInfo → W → Refreshed PathQuotaInfo W
  refresh_paths [] w = (ok [], [], w)
  refresh_paths ((key, info) ∷ rest) w = path_step key info rest (refresh_paths rest) (host.now w)

module _ {W : Type 0} (host : Host W) (provider : QuotaProvider W) where
  unfoldable pub list_quota_disk_infos :
      XfsQuotaManager W → Result QuotaError (List DiskQuotaInfo) × XfsQuotaManager W
  unfolding refresh_disks
  list_quota_disk_infos m =
      let (r, disks, w) = refresh_disks host provider m.max_cache_time m.disk_quota_infos m.world in
      (r, record m { disk_quota_infos = disks; world = w })

  unfoldable pub list_path_quota_infos :
      XfsQuotaManager W → Result QuotaError (List PathQuotaInfo) × XfsQuotaManager W
  unfolding refresh_paths
  list_path_quota_infos m =
      let (r, quotas, w) = refresh_paths host provider m.max_cache_time m.quotas m.world in
      (r, record m { quotas = quotas; world = w })

  abbrev after_xattr :
      GoString
      → DiskQuotaInfo
      → GoMap DiskQuotaInfo
      → Bool
      → Result HostError (Unit {0}) × W
      → Result QuotaError (Unit {0}) × GoMap DiskQuotaInfo × W
  after_xattr key disk rest disabled (ok u, w) =
      (ok tt, (key, record disk { disabled = disabled }) ∷ rest, w)
  after_xattr key disk rest disabled (err e, w) = (err xattr_failed, (key, disk) ∷ rest, w)

  abbrev beside :
      GoString
      → DiskQuotaInfo
      → Result QuotaError (Unit {0}) × GoMap DiskQuotaInfo × W
      → Result QuotaError (Unit {0}) × GoMap DiskQuotaInfo × W
  beside key disk (r, m, w) = (r, (key, disk) ∷ m, w)

  -- The first disk with the mount point.
  unfoldable pub disable_disk :
      GoString
      → Bool
      → GoMap DiskQuotaInfo
      → W
      → Result QuotaError (Unit {0}) × GoMap DiskQuotaInfo × W
  disable_disk mount_point disabled [] w = (err mount_point_unknown, [], w)
  disable_disk mount_point disabled ((key, disk) ∷ rest) w =
      let later = beside key disk (disable_disk mount_point disabled rest w) in
      if str_eq disk.mount_point mount_point
      then after_xattr key disk rest disabled
          (set_quota_disk_disable_state host disk.mount_point disabled w)
      else later

  unfoldable pub set_quota_disk_disabled_state :
      GoString → Bool → XfsQuotaManager W → Result QuotaError (Unit {0}) × XfsQuotaManager W
  unfolding disable_disk
  set_quota_disk_disabled_state mount_point disabled m =
      let (r, disks, w) = disable_disk mount_point disabled m.disk_quota_infos m.world in
      (r, record m { disk_quota_infos = disks; world = w })
