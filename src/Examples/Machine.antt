-- ===== src/Examples/Machine.antt =====
-- A machine with the disk /dev/sdb1 on /xfs/disk1, an allocator of four project numbers, and the
-- laws that they fulfil.
use hostpathpv_plugin.Base.{
  ℕ, zero, suc, ◌+◌, ◌<◌, ◌≡◌, refl, Bool, true, false, ◌&&◌, not, Option, none, some, List, [],
  ◌∷◌, arith, codes, GoString, GoMap, lookup, insert, str_eq, ◌==◌, if◌then◌else◌, Result, ok, err,
}
use hostpathpv_plugin.Util.Host.{Host, not_exist, no_data}
use hostpathpv_plugin.Quota.Types.{QuotaError, QuotaProvider, syscall_failed}
use hostpathpv_plugin.Quota.Kernel.{Kernel, FsDiskQuota}
use hostpathpv_plugin.Quota.Kernel.ReadBack.{ReadsBack}
use hostpathpv_plugin.Quota.ProjectId.{Bitmap, BitmapLaws, ProjectIdRange}
use hostpathpv_plugin.Quota.Provider.{ProviderState, xfs_provider, linux_xfs_magic}

pub record Machine : Type 0 where
  pub clock : ℕ
  pub dirs : GoMap (List (GoString × Bool))
  pub projids : GoMap ℕ
  pub quotas : GoString → ℕ → FsDiskQuota

abbrev or_missing {ℓ} : {A : Type ℓ} {E : Type 0} → E → Option A → Result E A
or_missing e none = err e
or_missing e (some a) = ok a

abbrev there {ℓ} : {A : Type ℓ} → Option A → Bool
there none = false
there (some a) = true

abbrev pub machine_kernel : Kernel Machine
machine_kernel = record {
  open_dir = λ p w. there (lookup p w.dirs);
  get_xattr_projid = λ p w. (or_missing syscall_failed (lookup p w.projids), w);
  set_xattr_projid = λ p id w. (ok tt, record w { projids = insert p id w.projids });
  get_quota = λ d id w. (ok (w.quotas d id), w);
  set_quota = λ d id hard soft w. (
    ok tt,
    record w {
      quotas = λ e i.
          if str_eq d e && (id == i)
          then record { d_blk_hardlimit = hard; d_blk_softlimit = soft; d_bcount = 0 }
          else w.quotas e i;
    },
  );
  quota_flags = λ d w. ok 3;
  pdq_acct = 1;
  pdq_enfd = 2;
  statfs =
      λ p w. ok (record { fs_type = linux_xfs_magic; blocks = 1000; bfree = 1000; bsize = 4096 });
  missing = λ p w. not (there (lookup p w.dirs));
  remove_all = λ p w. (ok tt, w);
}

abbrev pub machine_limits : GoString → ℕ → Machine → ℕ × ℕ
machine_limits d id w = ((w.quotas d id).d_blk_hardlimit, (w.quotas d id).d_blk_softlimit)

pub machine-ReadsBack : ReadsBack machine_kernel machine_limits
machine-ReadsBack = record {
  set_limits = λ device id hard soft w ordered h d j. ground arith;
  set_readable = λ device id hard soft w h. (_, refl);
  read_limits = λ device id w q h. ground arith;
  tag_limits = λ path d id j w. refl;
}

-- The allocator: the taken offsets, of four.
abbrev pub Marks : Type 0
Marks = ℕ → Bool

abbrev find_free : ℕ → Marks → Option ℕ
find_free zero m = none
find_free (suc n) m = let lower = find_free n m in if m n then lower else some n

abbrev mark : ℕ → Bool → Marks → Marks
mark i b m j = if i == j then b else m j

abbrev taken_next : Marks → Option ℕ → Result QuotaError (Option ℕ) × Marks
taken_next m none = (ok none, m)
taken_next m (some i) = (ok (some i), mark i true m)

abbrev pub four_numbers : Bitmap Marks
four_numbers = record {
  allocate = λ i m. if m i then (ok false, m) else (ok true, mark i true m);
  allocate_next = λ m. taken_next m (find_free 4 m);
  release = λ i m. (ok tt, mark i false m);
  has = λ i m. m i;
}

find_free-free : (n : ℕ) (m : Marks) (i : ℕ) → find_free n m ≡ some i → (i < n) × (m i ≡ false)
find_free-free zero m i h = absurd (ground arith)
find_free-free (suc n) m i h = ground (arith, find_free-free n m i)

pub four_numbers-BitmapLaws : BitmapLaws four_numbers 4
four_numbers-BitmapLaws = record {
  next_fresh = λ m i h. ground (arith, find_free-free 4 m i);
  next_taken = λ m i j h. ground arith;
  next_refused = λ m j h. ground arith;
  next_failed = λ m e j h. ground arith;
  allocate_free = λ m i h. ground arith;
  allocate_taken = λ m i j h. ground arith;
  allocate_refused = λ m i j h. ground arith;
  allocate_failed = λ m i j e h. ground arith;
  release_frees = λ m i j h. ground arith;
  release_failed = λ m i j e h. ground arith;
}

abbrev pub numbers : ProjectIdRange
numbers = record { prj_id_start = 100; max_prj_id_num = 4 }

abbrev pub World : Type 0
World = ProviderState Machine Marks

abbrev on_machine : World → Machine → World
on_machine s w = record s { kernel = w }

abbrev pub host : Host World
host = record {
  now = λ s. (s.kernel.clock, on_machine s (record s.kernel { clock = s.kernel.clock + 1 }));
  missing = λ p s. not (there (lookup p s.kernel.dirs));
  mkdir_all = λ p s. (ok tt, on_machine s (record s.kernel { dirs = insert p [] s.kernel.dirs }));
  remove_all = λ p s. (ok tt, s);
  read_dir = λ p s. or_missing not_exist (lookup p s.kernel.dirs);
  likely_not_mount_point = λ p s. ok false;
  lstat_dev = λ p s. ok (8, 17);
  mountinfo = λ s. ok (codes "36 35 8:17 / /xfs/disk1 rw - xfs /dev/sdb1 rw" ∷ []);
  set_xattr = λ p k v s. (ok tt, s);
  get_xattr = λ p k s. err no_data;
}

abbrev pub provider : QuotaProvider World
provider = xfs_provider machine_kernel four_numbers numbers

abbrev pub no_quota : FsDiskQuota
no_quota = record { d_blk_hardlimit = 0; d_blk_softlimit = 0; d_bcount = 0 }

abbrev pub root : GoString
root = codes "/xfs"

abbrev pub disk1 : GoString
disk1 = codes "/xfs/disk1"

abbrev pub sdb1 : GoString
sdb1 = codes "/dev/sdb1"

-- Nothing is on the disk.
abbrev pub fresh_world : World
fresh_world = record {
  kernel = record {
    clock = 5;
    dirs = (root, (codes "disk1", true) ∷ []) ∷ (disk1, []) ∷ [];
    projids = [];
    quotas = λ d i. no_quota;
  };
  bitmap = λ i. false;
  quota_path_and_id = [];
}

-- A volume with a quota of a megabyte was left by an earlier run.
abbrev pub used_world : World
used_world = record fresh_world {
  kernel = record {
    clock = 5;
    dirs =
        (root, (codes "disk1", true) ∷ [])
        ∷ (disk1, (codes "k8squota_v0", true) ∷ [])
        ∷ (codes "/xfs/disk1/k8squota_v0", [])
        ∷ [];
    projids = (codes "/xfs/disk1/k8squota_v0", 101) ∷ [];
    quotas = λ d i. record { d_blk_hardlimit = 2048; d_blk_softlimit = 2048; d_bcount = 8 };
  };
}
