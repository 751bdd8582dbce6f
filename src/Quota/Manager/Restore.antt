-- ===== src/Quota/Manager/Restore.antt =====
-- `NewXfsQuotaManager` and `restoreQuotaInfo` of quota-manager/quotamanager_xfs.go, and the manager
-- of quota-manager/quotamanager_fake.go that stands in when the start fails.
pub mod Sizes
use hostpathpv_plugin.Base.{
  ℕ, ◌*◌, ◌^◌, Bool, true, false, not, List, [], ◌∷◌, GoString, GoMap, insert, clean, if◌then◌else◌,
  ℤ, add64, Result, ok, err,
}
use hostpathpv_plugin.Util.Host
use hostpathpv_plugin.Util.Host.{Host, HostError}
use hostpathpv_plugin.Quota.Types.{
  QuotaError, Quota, DiskQuotaInfo, PathQuotaInfo, QuotaProvider, lstat_failed, not_implemented,
}
use hostpathpv_plugin.Quota.Naming.{
  parse_quota_path_info_from_dir_name, get_disk_quota_disable_state,
}
use hostpathpv_plugin.Quota.Manager.{
  XfsQuotaManager, get_volume_quota_path, expand_volume, release_volume_path,
}
use hostpathpv_plugin.Quota.Manager.Listing.{
  list_quota_disk_infos, list_path_quota_infos, set_quota_disk_disabled_state,
}

module _ {W : Type 0} (host : Host W) (provider : QuotaProvider W) where
  abbrev Manager : Type 0
  Manager = XfsQuotaManager W

  abbrev Outcome : Type 0
  Outcome = Result QuotaError (Unit {0}) × Manager

  -- A disk enters with nothing allocated and all of it free; its `lastSync` is the zero time.
  unfoldable pub enter_disk : GoString → GoString → Quota → Manager → Manager
  enter_disk mount_point device quota m =
      let (disabled, w) = get_disk_quota_disable_state host mount_point m.world in
      record m {
        disk_quota_infos =
            insert device
              (record {
                device_name = device;
                mount_point = mount_point;
                capacity = quota.hard_quota;
                used = quota.used;
                quota_size = 0;
                allocatable_size = quota.hard_quota;
                disabled = disabled;
                last_sync = 0;
              })
              m.disk_quota_infos;
        world = w;
      }

  abbrev disk_measured :
      GoString → GoString → (Manager → Outcome) → Manager → Result QuotaError Quota × W → Outcome
  disk_measured mount_point device next m (ok quota, w) =
      next (enter_disk mount_point device quota (record m { world = w }))
  disk_measured mount_point device next m (err e, w) = (err e, record m { world = w })

  -- A mount point without project quotas is reported, and entered all the same.
  abbrev disk_found : GoString → (Manager → Outcome) → Manager → Result HostError GoString → Outcome
  disk_found mount_point next m (ok device) =
      disk_measured mount_point device next m (provider.get_quota_disk_info mount_point m.world)
  disk_found mount_point next m (err e) = (err lstat_failed, m)

  abbrev mounted : Result HostError Bool → Bool
  mounted (ok b) = b
  mounted (err e) = false

  unfoldable pub load_disks : List GoString → Manager → Outcome
  unfolding enter_disk
  load_disks [] m = (ok tt, m)
  load_disks (mount_point ∷ rest) m =
      let others = load_disks rest m in
      if mounted (Host.is_mount_point host mount_point m.world)
      then disk_found mount_point (load_disks rest) m
          (Host.get_dev_for_path host mount_point m.world)
      else others

  -- The volume of a directory enters with the quota that is read; `disk` is the disk's record,
  -- whose allocated size grows by it.
  unfoldable pub enter_path : GoString → GoString → GoString → Quota → Manager → Manager
  enter_path path device volume quota m =
      let (t, w) = host.now m.world in
      record m {
        quotas =
            insert volume
              (record {
                path = path;
                device_name = device;
                quota = quota;
                last_sync = t;
                volume_id = volume;
              })
              m.quotas;
        world = w;
      }

  abbrev path_read :
      GoString
      → GoString
      → GoString
      → DiskQuotaInfo
      → (DiskQuotaInfo → Manager → Result QuotaError DiskQuotaInfo × Manager)
      → Manager
      → Result QuotaError Quota × W
      → Result QuotaError DiskQuotaInfo × Manager
  path_read path device volume disk next m (ok quota, w) =
      next (record disk { quota_size = add64 disk.quota_size quota.hard_quota })
        (enter_path path device volume quota (record m { world = w }))
  path_read path device volume disk next m (err e, w) = (err e, record m { world = w })

  -- A name that ends with the prefix stops the program: the slice is out of range.
  abbrev path_named :
      GoString
      → GoString
      → DiskQuotaInfo
      → (DiskQuotaInfo → Manager → Result QuotaError DiskQuotaInfo × Manager)
      → Manager
      → Result QuotaError GoString
      → Result QuotaError DiskQuotaInfo × Manager
  path_named path device disk next m (ok volume) =
      path_read path device volume disk next m (provider.get_project_quota path device m.world)
  path_named path device disk next m (err e) = (err e, m)

  unfoldable pub load_paths :
      GoString → List GoString → DiskQuotaInfo → Manager → Result QuotaError DiskQuotaInfo × Manager
  unfolding enter_path
  load_paths device [] disk m = (ok disk, m)
  load_paths device (path ∷ rest) disk m =
      path_named path device disk (load_paths device rest) m
        (parse_quota_path_info_from_dir_name path)

  abbrev paths_loaded :
      GoString → (Manager → Outcome) → Result QuotaError DiskQuotaInfo × Manager → Outcome
  paths_loaded device next (ok disk, m) =
      let (t, w) = host.now m.world in
      next (record m {
        disk_quota_infos = insert device (record disk { last_sync = t }) m.disk_quota_infos;
        world = w;
      })
  paths_loaded device next (err e, m) = (err e, m)

  -- The disks are those found before.
  unfoldable pub load_volumes : GoMap DiskQuotaInfo → Manager → Outcome
  unfolding load_paths
  load_volumes [] m = (ok tt, m)
  load_volumes ((device, disk) ∷ rest) m =
      paths_loaded device (load_volumes rest)
        (load_paths device (Host.get_sub_dirs host disk.mount_point m.world) disk m)

  abbrev disks_loaded : Outcome → Outcome
  disks_loaded (ok u, m) = load_volumes m.disk_quota_infos m
  disks_loaded (err e, m) = (err e, m)

  unfoldable pub restore_quota_info : Manager → Outcome
  unfolding load_disks load_volumes
  restore_quota_info m =
      disks_loaded (load_disks (Host.get_sub_dirs host m.quota_root_path m.world) m)

-- What stands behind QuotaManagerInterface.
pub data QuotaManager (W : Type 0) : Type 0 where
  xfs_manager : XfsQuotaManager W → QuotaManager W
  fake_manager : W → QuotaManager W

module _ {W : Type 0} (host : Host W) (provider : QuotaProvider W) where
  abbrev started : Result QuotaError (Unit {0}) × XfsQuotaManager W → QuotaManager W
  started (ok u, m) = xfs_manager m
  started (err e, m) = fake_manager m.world

  -- maxCacheTime is 60 seconds, in nanoseconds.
  unfoldable pub new_xfs_quota_manager : GoString → W → QuotaManager W
  unfolding restore_quota_info
  new_xfs_quota_manager quota_root_path w =
      if Host.is_path_exist host quota_root_path w
      then started (
          restore_quota_info host provider (record {
            quota_root_path = clean quota_root_path;
            disk_quota_infos = [];
            quotas = [];
            max_cache_time = 60 * 10 ^ 9;
            world = w;
          }))
      else fake_manager w

  abbrev pub both :
      {A : Type 0} → Result QuotaError A × XfsQuotaManager W → Result QuotaError A × QuotaManager W
  both (r, m) = (r, xfs_manager m)

  abbrev refuse : {A : Type 0} → W → Result QuotaError A × QuotaManager W
  refuse w = (err not_implemented, fake_manager w)

  unfoldable pub get_path :
      GoString → ℤ → QuotaManager W → Result QuotaError GoString × QuotaManager W
  get_path volume capacity (xfs_manager m) =
      both (get_volume_quota_path host provider volume capacity m)
  get_path volume capacity (fake_manager w) = refuse w

  unfoldable pub expand :
      GoString → ℤ → QuotaManager W → Result QuotaError (Unit {0}) × QuotaManager W
  expand volume capacity (xfs_manager m) = both (expand_volume host provider volume capacity m)
  expand volume capacity (fake_manager w) = refuse w

  unfoldable pub release : GoString → QuotaManager W → Result QuotaError (Unit {0}) × QuotaManager W
  release volume (xfs_manager m) = both (release_volume_path host provider volume m)
  release volume (fake_manager w) = refuse w

  unfoldable pub list_disks :
      QuotaManager W → Result QuotaError (List DiskQuotaInfo) × QuotaManager W
  list_disks (xfs_manager m) = both (list_quota_disk_infos host provider m)
  list_disks (fake_manager w) = refuse w

  unfoldable pub list_paths :
      QuotaManager W → Result QuotaError (List PathQuotaInfo) × QuotaManager W
  list_paths (xfs_manager m) = both (list_path_quota_infos host provider m)
  list_paths (fake_manager w) = refuse w

  unfoldable pub disable :
      GoString → Bool → QuotaManager W → Result QuotaError (Unit {0}) × QuotaManager W
  disable mount_point disabled (xfs_manager m) =
      both (set_quota_disk_disabled_state host provider mount_point disabled m)
  disable mount_point disabled (fake_manager w) = refuse w
