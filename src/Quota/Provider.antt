-- ===== src/Quota/Provider.antt =====
-- quotaProvider/quota_xfs.go: `QuotaVolumeProvider`, the quota of a directory by its project number.
pub mod Consistent
pub mod Numbers
pub mod Limits
use hostpathpv_plugin.Base.{
  ℕ, ◌+◌, ◌-◌, Bool, true, false, Option, none, some, [], GoString, clean, GoMap, lookup, insert,
  delete, if◌then◌else◌, mul64, sub64, Result, ok, err, Act,
}
use hostpathpv_plugin.Quota.Types.{QuotaError, Quota, QuotaProvider, statfs_failed, remove_failed}
use hostpathpv_plugin.Quota.Kernel
use hostpathpv_plugin.Quota.Kernel.{Kernel, Statfs}
use hostpathpv_plugin.Quota.ProjectId
use hostpathpv_plugin.Quota.ProjectId.{Bitmap, ProjectIdRange}

abbrev pub linux_xfs_magic : ℕ
linux_xfs_magic = 0x58465342

-- The kernel, the bitmap of the allocator, and the cache of the directories' numbers.
pub record ProviderState (K A : Type 0) : Type 0 where
  pub kernel : K
  pub bitmap : A
  pub quota_path_and_id : GoMap ℕ

module _ {K A : Type 0} (k : Kernel K) (b : Bitmap A) (r : ProjectIdRange) where
  abbrev State : Type 0
  State = ProviderState K A

  -- A call of the kernel, and one of the allocator.
  abbrev on_kernel {ℓ} :
      {B : Type ℓ} → State → Result QuotaError B × K → Result QuotaError B × State
  on_kernel s (x, w) = (x, record s { kernel = w })

  abbrev on_bitmap {ℓ} :
      {B : Type ℓ} → State → Result QuotaError B × A → Result QuotaError B × State
  on_bitmap s (x, m) = (x, record s { bitmap = m })

  unfoldable pub supported : GoString → GoString → State → Bool
  supported mount_point device_path s =
      Kernel.supported k (clean mount_point) device_path linux_xfs_magic s.kernel

  -- Bootstrap: the number that the directory has, once the allocator has granted it.
  abbrev after_grant :
      GoString
      → GoString
      → ℕ
      → Result QuotaError (Unit {0}) × State
      → Result QuotaError Quota × State
  after_grant path device id (ok _, s) =
      let s' = record s { quota_path_and_id = insert path id s.quota_path_and_id } in
      on_kernel s' (Kernel.get_project_quota k device id s'.kernel)
  after_grant path device id (err e, s) = (err e, s)

  abbrev after_project_id :
      GoString → GoString → Result QuotaError ℕ × State → Result QuotaError Quota × State
  after_project_id path device (ok id, s) =
      after_grant path device id (on_bitmap s (ProjectId.allocate b r id s.bitmap))
  after_project_id path device (err e, s) = (err e, s)

  unfoldable pub get_project_quota : GoString → GoString → Act State QuotaError Quota
  get_project_quota quota_path device_path s = elim (lookup quota_path s.quota_path_and_id) [
    | some id ↦ on_kernel s (Kernel.get_project_quota k device_path id s.kernel)
    | none ↦
        after_project_id quota_path device_path
          (on_kernel s (Kernel.get_project_id k quota_path s.kernel))
  ]

  -- The deferred clean-up after a failure: the release's own error is dropped.
  unfoldable pub give_back : GoString → ℕ → State → State
  give_back path id s = record s {
    bitmap = (ProjectId.release b r id s.bitmap).1;
    quota_path_and_id = delete path s.quota_path_and_id;
  }

  abbrev after_limit :
      GoString → ℕ → Result QuotaError (Unit {0}) × State → Result QuotaError (Unit {0}) × State
  after_limit path id (ok _, s) =
      (ok tt, record s { quota_path_and_id = insert path id s.quota_path_and_id })
  after_limit path id (err e, s) = (err e, give_back path id s)

  abbrev after_tag :
      GoString
      → GoString
      → ℕ
      → ℕ
      → ℕ
      → Result QuotaError (Unit {0}) × State
      → Result QuotaError (Unit {0}) × State
  after_tag path device hard soft id (ok _, s) =
      after_limit path id (on_kernel s (Kernel.set_project_quota k device id hard soft s.kernel))
  after_tag path device hard soft id (err e, s) = (err e, give_back path id s)

  abbrev after_number :
      GoString
      → GoString
      → ℕ
      → ℕ
      → Result QuotaError ℕ × State
      → Result QuotaError (Unit {0}) × State
  after_number path device hard soft (ok id, s) =
      after_tag path device hard soft id (on_kernel s (Kernel.set_project_id k path id s.kernel))
  after_number path device hard soft (err e, s) = (err e, s)

  -- A directory that has a number already keeps its limits.
  unfoldable pub set_project_quota : GoString → GoString → ℕ → ℕ → Act State QuotaError (Unit {0})
  unfolding give_back
  set_project_quota quota_path device_path hard soft s =
      elim (lookup quota_path s.quota_path_and_id) [
        | some id ↦ (ok tt, s)
        | none ↦
            after_number quota_path device_path hard soft
              (on_bitmap s (ProjectId.allocate_next b r s.bitmap))
      ]

  -- Removing the directory, if it is still there.
  unfoldable pub remove_path : GoString → Act State QuotaError (Unit {0})
  remove_path path s =
      if k.missing path s.kernel then (ok tt, s) else on_kernel s (k.remove_all path s.kernel)

  abbrev after_release :
      GoString → Result QuotaError (Unit {0}) × State → Result QuotaError (Unit {0}) × State
  after_release path (ok _, s) =
      remove_path path (record s { quota_path_and_id = delete path s.quota_path_and_id })
  after_release path (err e, s) = (err e, s)

  unfoldable pub delete_project_quota : GoString → Act State QuotaError (Unit {0})
  unfolding remove_path
  delete_project_quota quota_path s = elim (lookup quota_path s.quota_path_and_id) [
    | some id ↦ after_release quota_path (on_bitmap s (ProjectId.release b r id s.bitmap))
    | none ↦ remove_path quota_path s
  ]

  -- uint64 products of the numbers that statfs returns.
  abbrev disk_quota : Result QuotaError Statfs → Result QuotaError Quota
  disk_quota (ok fs) = ok (record {
    hard_quota = mul64 fs.blocks fs.bsize;
    soft_quota = mul64 fs.blocks fs.bsize;
    used = mul64 (sub64 fs.blocks fs.bfree) fs.bsize;
  })
  disk_quota (err e) = err statfs_failed

  unfoldable pub get_quota_disk_info : GoString → Act State QuotaError Quota
  unfolding mul64 sub64
  get_quota_disk_info mount_point s = (disk_quota (k.statfs mount_point s.kernel), s)

  -- The provider behind the interface of the manager.
  abbrev pub xfs_provider : QuotaProvider State
  xfs_provider = record {
    supported = supported;
    get_project_quota = get_project_quota;
    set_project_quota = set_project_quota;
    delete_project_quota = delete_project_quota;
    get_quota_disk_info = get_quota_disk_info;
  }
