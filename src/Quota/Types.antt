-- ===== src/Quota/Types.antt =====
-- The records of quota-manager/quotamanager.go and quotaProvider/project_quota.go, and the
-- interface between the manager and its quota provider.
use hostpathpv_plugin.Base.{ℕ, Bool, GoString, Act}

-- The errors of the quota manager and its provider. `slice_out_of_range` is a panic of Go.
pub data QuotaError : Type 0 where
  no_matching_disk disk_not_found volume_not_found mkdir_failed : QuotaError
  reduce_unsupported not_enough_quota mount_point_unknown xattr_failed : QuotaError
  not_in_range already_allocated range_full allocator_failed : QuotaError
  open_dir_failed syscall_failed remove_failed statfs_failed : QuotaError
  lstat_failed no_backing_device slice_out_of_range not_implemented : QuotaError

-- quotaProvider.Quota, in bytes.
pub record Quota : Type 0 where
  pub hard_quota : ℕ
  pub soft_quota : ℕ
  pub used : ℕ

pub record DiskQuotaInfo : Type 0 where
  pub device_name : GoString
  pub mount_point : GoString
  pub capacity : ℕ
  pub used : ℕ
  pub quota_size : ℕ
  pub allocatable_size : ℕ
  pub disabled : Bool
  pub last_sync : ℕ

pub record DiskQuotaInfoSortItem : Type 0 where
  pub device_name : GoString
  pub mount_point : GoString
  pub available_size : ℕ

pub record PathQuotaInfo : Type 0 where
  pub path : GoString
  pub device_name : GoString
  pub quota : Quota
  pub last_sync : ℕ
  pub volume_id : GoString

-- LinuxVolumeQuotaProvider, over the state `W` of the machine and of the provider.
pub record QuotaProvider (W : Type 0) : Type 0 where
  pub supported : GoString → GoString → W → Bool
  pub get_project_quota : GoString → GoString → Act W QuotaError Quota
  pub set_project_quota : GoString → GoString → ℕ → ℕ → Act W QuotaError (Unit {0})
  pub delete_project_quota : GoString → Act W QuotaError (Unit {0})
  pub get_quota_disk_info : GoString → Act W QuotaError Quota
