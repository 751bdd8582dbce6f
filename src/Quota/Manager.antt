-- ===== src/Quota/Manager.antt =====
-- quota-manager/quotamanager_xfs.go: `XFSQuotaManager`. A method is a function from the manager to
-- its result and the manager afterwards; the mutex makes each call one step. The pointers that the
-- two maps hold are used only through the maps, so an update is an insertion.
pub mod Restore
pub mod Balance
pub mod Allocation
pub mod Methods
pub mod Listing
pub mod Service
use hostpathpv_plugin.Base.{
  ℕ, ◌-◌, ◌*◌, ◌^◌, Bool, true, false, Option, none, some, List, [], ◌∷◌, GoString, GoMap, lookup,
  insert, delete, str_eq, ltb, if◌then◌else◌, clean, join_path, sort, ℤ, to_u64, add64, sub64,
  Result, ok, err,
}
use hostpathpv_plugin.Util.Host
use hostpathpv_plugin.Util.Host.{Host, HostError}
use hostpathpv_plugin.Quota.Types.{
  QuotaError, Quota, DiskQuotaInfo, DiskQuotaInfoSortItem, PathQuotaInfo, QuotaProvider,
  no_matching_disk, disk_not_found, volume_not_found, mkdir_failed, reduce_unsupported,
  not_enough_quota, mount_point_unknown, xattr_failed,
}
use hostpathpv_plugin.Quota.Naming.{get_quota_path_name, set_quota_disk_disable_state}

-- `world` is the machine, with the state of the quota provider.
pub record XfsQuotaManager (W : Type 0) : Type 0 where
  pub quota_root_path : GoString
  pub disk_quota_infos : GoMap DiskQuotaInfo
  pub quotas : GoMap PathQuotaInfo
  pub max_cache_time : ℕ
  pub world : W

-- The disks that a new quota fits on, and their order: the largest free size first.
unfoldable pub available_disks : ℕ → GoMap DiskQuotaInfo → List DiskQuotaInfoSortItem
available_disks hard_quota [] = []
available_disks hard_quota ((device, disk) ∷ rest) =
    let others = available_disks hard_quota rest in
    if disk.disabled
    then others
    else if ltb disk.allocatable_size hard_quota
    then others
    else record {
      device_name = disk.device_name;
      mount_point = disk.mount_point;
      available_size = disk.allocatable_size;
    }
      ∷ others

unfoldable pub item_less : DiskQuotaInfoSortItem → DiskQuotaInfoSortItem → Bool
item_less a b = ltb b.available_size a.available_size

-- The book-keeping of a disk after a change of its allocated size.
unfoldable pub with_quota_size : ℕ → DiskQuotaInfo → DiskQuotaInfo
with_quota_size size disk = record disk {
  quota_size = size;
  allocatable_size = sub64 disk.capacity size;
}

module _ {W : Type 0} (host : Host W) (provider : QuotaProvider W) where
  abbrev Manager : Type 0
  Manager = XfsQuotaManager W

  abbrev on_world {ℓ} : {B : Type ℓ} → Manager → B × W → B × Manager
  on_world m (x, w) = (x, record m { world = w })

  -- The first of the sorted disks, and the directory made on it if it is not there.
  abbrev made :
      GoString
      → GoString
      → Result HostError (Unit {0}) × Manager
      → Result QuotaError (GoString × GoString) × Manager
  made device path (ok u, m) = (ok (device, path), m)
  made device path (err e, m) = (err mkdir_failed, m)

  abbrev on_best_disk :
      GoString
      → List DiskQuotaInfoSortItem
      → Manager
      → Result QuotaError (GoString × GoString) × Manager
  on_best_disk volume [] m = (err no_matching_disk, m)
  on_best_disk volume (item ∷ items) m =
      let path = join_path item.mount_point (get_quota_path_name volume) in
      if Host.is_path_exist host path m.world
      then (ok (item.device_name, path), m)
      else made item.device_name path (on_world m (Host.mk_dir host path m.world))

  unfoldable pub allocate_new_quota_dir :
      GoString → ℕ → Manager → Result QuotaError (GoString × GoString) × Manager
  unfolding available_disks item_less
  allocate_new_quota_dir volume hard_quota m =
      on_best_disk volume (sort item_less (available_disks hard_quota m.disk_quota_infos)) m

  -- Entering a volume, with its quota in force, into the two caches. `lastSync` is the clock.
  unfoldable pub enter_volume :
      GoString → ℕ → GoString → GoString → DiskQuotaInfo → Manager → Manager
  unfolding with_quota_size
  enter_volume volume size device path disk m =
      let (t, w) = host.now m.world in
      record m {
        quotas =
            insert volume
              (record {
                path = path;
                device_name = device;
                quota = record { hard_quota = size; soft_quota = size; used = 0 };
                last_sync = t;
                volume_id = volume;
              })
              m.quotas;
        disk_quota_infos =
            insert device (with_quota_size (add64 disk.quota_size size) disk) m.disk_quota_infos;
        world = w;
      }

  -- A directory whose quota cannot be set is removed again.
  abbrev after_quota_set :
      GoString
      → ℕ
      → GoString
      → GoString
      → DiskQuotaInfo
      → Result QuotaError (Unit {0}) × Manager
      → Result QuotaError GoString × Manager
  after_quota_set volume size device path disk (ok u, m) =
      (ok path, enter_volume volume size device path disk m)
  after_quota_set volume size device path disk (err e, m) =
      (err e, record m { world = (Host.delete_file host path m.world).1 })

  abbrev on_disk :
      GoString
      → ℕ
      → GoString
      → GoString
      → Option DiskQuotaInfo
      → Manager
      → Result QuotaError GoString × Manager
  on_disk volume size device path none m = (err disk_not_found, m)
  on_disk volume size device path (some disk) m =
      after_quota_set volume size device path disk
        (on_world m (provider.set_project_quota path device size size m.world))

  abbrev after_allocation :
      GoString
      → ℕ
      → Result QuotaError (GoString × GoString) × Manager
      → Result QuotaError GoString × Manager
  after_allocation volume size (ok (device, path), m) =
      on_disk volume size device path (lookup device m.disk_quota_infos) m
  after_allocation volume size (err e, m) = (err e, m)

  unfoldable pub get_volume_quota_path :
      GoString → ℤ → Manager → Result QuotaError GoString × Manager
  unfolding allocate_new_quota_dir enter_volume
  get_volume_quota_path volume capacity m = elim (lookup volume m.quotas) [
    | some info ↦ (ok info.path, m)
    | none ↦
        after_allocation volume (to_u64 capacity)
          (allocate_new_quota_dir volume (to_u64 capacity) m)
  ]

  unfoldable pub enter_expansion : GoString → ℕ → PathQuotaInfo → DiskQuotaInfo → Manager → Manager
  unfolding with_quota_size
  enter_expansion volume size info disk m = record m {
    disk_quota_infos =
        insert info.device_name
          (with_quota_size (sub64 (add64 disk.quota_size size) info.quota.hard_quota) disk)
          m.disk_quota_infos;
    quotas =
        insert volume
          (record info { quota = record info.quota { hard_quota = size; soft_quota = size } })
          m.quotas;
  }

  abbrev after_expansion :
      GoString
      → ℕ
      → PathQuotaInfo
      → DiskQuotaInfo
      → Result QuotaError (Unit {0}) × Manager
      → Result QuotaError (Unit {0}) × Manager
  after_expansion volume size info disk (ok u, m) = (ok tt, enter_expansion volume size info disk m)
  after_expansion volume size info disk (err e, m) = (err e, m)

  abbrev expand_on :
      GoString
      → ℕ
      → PathQuotaInfo
      → Option DiskQuotaInfo
      → Manager
      → Result QuotaError (Unit {0}) × Manager
  expand_on volume size info none m = (err disk_not_found, m)
  expand_on volume size info (some disk) m =
      if ltb size info.quota.hard_quota
      then (err reduce_unsupported, m)
      else if ltb disk.allocatable_size (sub64 size info.quota.hard_quota)
      then (err not_enough_quota, m)
      else after_expansion volume size info disk
          (on_world m (provider.set_project_quota info.path info.device_name size size m.world))

  unfoldable pub expand_volume : GoString → ℤ → Manager → Result QuotaError (Unit {0}) × Manager
  unfolding enter_expansion
  expand_volume volume capacity m = elim (lookup volume m.quotas) [
    | none ↦ (err volume_not_found, m)
    | some info ↦
        expand_on volume (to_u64 capacity) info (lookup info.device_name m.disk_quota_infos) m
  ]

  unfoldable pub enter_release : GoString → PathQuotaInfo → DiskQuotaInfo → Manager → Manager
  unfolding with_quota_size
  enter_release volume info disk m = record m {
    quotas = delete volume m.quotas;
    disk_quota_infos =
        insert info.device_name (with_quota_size (sub64 disk.quota_size info.quota.hard_quota) disk)
          m.disk_quota_infos;
  }

  abbrev after_deletion :
      GoString
      → PathQuotaInfo
      → DiskQuotaInfo
      → Result QuotaError (Unit {0}) × Manager
      → Result QuotaError (Unit {0}) × Manager
  after_deletion volume info disk (ok u, m) = (ok tt, enter_release volume info disk m)
  after_deletion volume info disk (err e, m) = (err e, m)

  abbrev release_on :
      GoString
      → PathQuotaInfo
      → Option DiskQuotaInfo
      → Manager
      → Result QuotaError (Unit {0}) × Manager
  release_on volume info none m = (err disk_not_found, m)
  release_on volume info (some disk) m =
      after_deletion volume info disk (on_world m (provider.delete_project_quota info.path m.world))

  -- Releasing an unknown volume succeeds.
  unfoldable pub release_volume_path : GoString → Manager → Result QuotaError (Unit {0}) × Manager
  unfolding enter_release
  release_volume_path volume m = elim (lookup volume m.quotas) [
    | none ↦ (ok tt, m)
    | some info ↦ release_on volume info (lookup info.device_name m.disk_quota_infos) m
  ]
