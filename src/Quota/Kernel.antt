-- ===== src/Quota/Kernel.antt =====
-- quotaProvider/quota_common_linux.go: project quotas through system calls. The calls themselves
-- are the parameter `Kernel`; what the code passes to them and reads from them is written out.
pub mod ReadBack
use Prim.Native.Nat.{bit_and}
use hostpathpv_plugin.Base.{
  ℕ, ◌/◌, ◌<◌, Bool, true, false, ◌&&◌, not, GoString, ltb, ◌==◌, if◌then◌else◌, mul64, sub64,
  Result, ok, err, Act,
}
use hostpathpv_plugin.Quota.Types.{QuotaError, Quota, open_dir_failed, syscall_failed}

-- The parts of fs_disk_quota_t that the code writes and reads; limits and count are in blocks.
pub record FsDiskQuota : Type 0 where
  pub d_blk_hardlimit : ℕ
  pub d_blk_softlimit : ℕ
  pub d_bcount : ℕ

pub record Statfs : Type 0 where
  pub fs_type : ℕ
  pub blocks : ℕ
  pub bfree : ℕ
  pub bsize : ℕ

-- opendir, the ioctls FS_IOC_FSGETXATTR and FS_IOC_FSSETXATTR, quotactl, statfs, stat and
-- os.RemoveAll over the machine's state, with the flags of the kernel's headers.
pub record Kernel (K : Type 0) : Type 0 where
  pub open_dir : GoString → K → Bool
  pub get_xattr_projid : GoString → Act K QuotaError ℕ
  pub set_xattr_projid : GoString → ℕ → Act K QuotaError (Unit {0})
  pub get_quota : GoString → ℕ → Act K QuotaError FsDiskQuota
  pub set_quota : GoString → ℕ → ℕ → ℕ → Act K QuotaError (Unit {0})
  pub quota_flags : GoString → K → Result QuotaError ℕ
  pub pdq_acct : ℕ
  pub pdq_enfd : ℕ
  pub statfs : GoString → K → Result QuotaError Statfs
  pub missing : GoString → K → Bool
  pub remove_all : GoString → Act K QuotaError (Unit {0})

abbrev pub basic_block_size : ℕ
basic_block_size = 512

module _ {K : Type 0} (k : Kernel K) where
  abbrev flags_set : Result QuotaError ℕ → Bool
  flags_set (ok flags) = ltb 0 (bit_and flags k.pdq_enfd) && ltb 0 (bit_and flags k.pdq_acct)
  flags_set (err e) = false

  abbrev magic_matches : ℕ → Result QuotaError Statfs → Bool
  magic_matches magic (ok s) = s.fs_type == magic
  magic_matches magic (err e) = false

  unfoldable pub supported : GoString → GoString → ℕ → K → Bool
  supported mount_point device_path magic w =
      magic_matches magic (k.statfs mount_point w) && flags_set (k.quota_flags device_path w)

  abbrev in_bytes : Result QuotaError FsDiskQuota × K → Result QuotaError Quota × K
  in_bytes (ok d, w) = (
    ok (record {
      hard_quota = mul64 d.d_blk_hardlimit basic_block_size;
      soft_quota = mul64 d.d_blk_softlimit basic_block_size;
      used = mul64 d.d_bcount basic_block_size;
    }),
    w,
  )
  in_bytes (err e, w) = (err syscall_failed, w)

  unfoldable pub get_project_quota : GoString → ℕ → Act K QuotaError Quota
  unfolding mul64
  get_project_quota device_path project_id w = in_bytes (k.get_quota device_path project_id w)

  abbrev or_syscall_failed {ℓ} :
      {A : Type ℓ} {B : Type 0} → Result QuotaError A × B → Result QuotaError A × B
  or_syscall_failed (ok a, w) = (ok a, w)
  or_syscall_failed (err e, w) = (err syscall_failed, w)

  -- The limits are cut down to whole blocks.
  unfoldable pub set_project_quota : GoString → ℕ → ℕ → ℕ → Act K QuotaError (Unit {0})
  set_project_quota device_path project_id hard_quota soft_quota w = or_syscall_failed (
      k.set_quota device_path project_id (hard_quota / basic_block_size)
        (soft_quota / basic_block_size) w)

  unfoldable pub get_project_id : GoString → Act K QuotaError ℕ
  get_project_id quota_path w =
      if k.open_dir quota_path w
      then or_syscall_failed (k.get_xattr_projid quota_path w)
      else (err open_dir_failed, w)

  -- The other flags of the directory are overwritten by FS_XFLAG_PROJINHERIT.
  unfoldable pub set_project_id : GoString → ℕ → Act K QuotaError (Unit {0})
  set_project_id quota_path project_id w =
      if k.open_dir quota_path w
      then or_syscall_failed (k.set_xattr_projid quota_path project_id w)
      else (err open_dir_failed, w)
