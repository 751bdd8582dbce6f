-- ===== src/Quota/Kernel/ReadBack.antt =====
-- The kernel gives back the limits that it was given (quotaProvider/quota_common_linux.go).
use hostpathpv_plugin.Base.{
  ℕ, ◌-◌, ◌/◌, ◌%◌, ◌<◌, ◌≤◌, ◌≡◌, Bool-cases, inl, inr, str_eq, str_eq_refl, ◌&&◌, ◌==◌,
  if◌then◌else◌, true, refl, arith, GoString, word, mul64, Result, ok, err, ap, ◌∙◌, ok-injective,
  sym,
}
use hostpathpv_plugin.Quota.Types.{QuotaError, Quota}
use hostpathpv_plugin.Quota.Kernel.{
  Kernel, FsDiskQuota, basic_block_size, or_syscall_failed, in_bytes, set_project_quota,
  get_project_quota, set_project_id,
}

-- quotactl(2) of XFS: `limits` are the hard and the soft limit of a project on a device, in blocks.
-- Limits with the soft one not above the hard one are set as given, those of one project at a time;
-- a project that has been given limits can be read; to tag a directory changes no limit.
pub record ReadsBack {K : Type 0} (k : Kernel K) (limits : GoString → ℕ → K → ℕ × ℕ) : Type 0 where
  pub set_limits :
      (device : GoString) (id hard soft : ℕ) (w : K)
      → soft ≤ hard
      → (k.set_quota device id hard soft w).0 ≡ ok tt
      → (d : GoString) (j : ℕ)
      → limits d j (k.set_quota device id hard soft w).1
        ≡ (if str_eq device d && (id == j) then (hard, soft) else limits d j w)
  pub set_readable :
      (device : GoString) (id hard soft : ℕ) (w : K)
      → (k.set_quota device id hard soft w).0 ≡ ok tt
      → (q : FsDiskQuota) × ((k.get_quota device id (k.set_quota device id hard soft w).1).0 ≡ ok q)
  pub read_limits :
      (device : GoString) (id : ℕ) (w : K) (q : FsDiskQuota)
      → (k.get_quota device id w).0 ≡ ok q
      → limits device id w ≡ (q.d_blk_hardlimit, q.d_blk_softlimit)
  pub tag_limits :
      (path d : GoString) (id j : ℕ) (w : K)
      → limits d j (k.set_xattr_projid path id w).1 ≡ limits d j w

or_failed-ok :
    {K B : Type 0} (k : Kernel K) (p : Result QuotaError (Unit {0}) × B)
    → (or_syscall_failed k p).0 ≡ ok tt
    → p.0 ≡ ok tt
or_failed-ok k (ok tt, w) h = refl
or_failed-ok k (err e, w) h = absurd (ground arith)

or_failed-state :
    {K B : Type 0} (k : Kernel K) (p : Result QuotaError (Unit {0}) × B)
    → (or_syscall_failed k p).1 ≡ p.1
or_failed-state k (ok u, w) = refl
or_failed-state k (err e, w) = refl

in_bytes-ok :
    {K : Type 0} (k : Kernel K) (p : Result QuotaError FsDiskQuota × K) (d : FsDiskQuota)
    → p.0 ≡ ok d
    → (q : Quota) × ((in_bytes k p).0 ≡ ok q)
      × (q.hard_quota ≡ mul64 d.d_blk_hardlimit basic_block_size)
      × (q.soft_quota ≡ mul64 d.d_blk_softlimit basic_block_size)
in_bytes-ok k (ok c, w) d e = (
  _,
  refl,
  ap (λ (x : FsDiskQuota). mul64 x.d_blk_hardlimit basic_block_size) (ok-injective e),
  ap (λ (x : FsDiskQuota). mul64 x.d_blk_softlimit basic_block_size) (ok-injective e),
)
in_bytes-ok k (err f, w) d e = absurd (ground arith)

whole_blocks :
    (n : ℕ) → n < word → mul64 (n / basic_block_size) basic_block_size ≡ n - n % basic_block_size
unfolding mul64
whole_blocks n h = omega arith

above_0 : (n m : ℕ) → basic_block_size ≤ n → m ≡ n - n % basic_block_size → 0 < m
above_0 n m h e = omega arith

-- The limits that a directory has once its quota is set: those asked for, in whole blocks, and
-- none of them 0, which is no limit.
abbrev pub HasLimits : Result QuotaError Quota → ℕ → ℕ → Type 0
HasLimits x hard soft =
    (q : Quota) × (x ≡ ok q)
    × (q.hard_quota ≡ hard - hard % basic_block_size)
    × (q.soft_quota ≡ soft - soft % basic_block_size)
    × (0 < q.hard_quota)
    × (0 < q.soft_quota)

module _ {K : Type 0} (k : Kernel K) (limits : GoString → ℕ → K → ℕ × ℕ)
    (laws : ReadsBack k limits) where
  -- Tagging a directory, also one that cannot be opened.
  pub set_project_id-limits :
      (path d : GoString) (id j : ℕ) (w : K)
      → limits d j (set_project_id k path id w).1 ≡ limits d j w
  unfolding set_project_id
  set_project_id-limits path d id j w =
      let p = k.set_xattr_projid path id w in
      elim (Bool-cases (k.open_dir path w)) [
        | inl there ↦
            rw there (ap (limits d j) (or_failed-state k p) ∙ laws.tag_limits path d id j w)
        | inr closed ↦ rw closed refl
      ]

  module _ (device : GoString) (id hard soft : ℕ) (small : hard < word) (ordered : soft ≤ hard)
      (block : basic_block_size ≤ soft) where
    pub set_project_quota-limits :
        (w : K) (d : GoString) (j : ℕ)
        → (set_project_quota k device id hard soft w).0 ≡ ok tt
        → limits d j (set_project_quota k device id hard soft w).1 ≡ (
            if str_eq device d && (id == j)
            then (hard / basic_block_size, soft / basic_block_size)
            else limits d j w)
    unfolding set_project_quota
    set_project_quota-limits w d j h =
        let p = k.set_quota device id (hard / basic_block_size) (soft / basic_block_size) w in
        ap (limits d j) (or_failed-state k p)
        ∙ laws.set_limits device id (hard / basic_block_size) (soft / basic_block_size) w
            (omega arith) (or_failed-ok k p h) d j

    readable :
        (w : K)
        → (set_project_quota k device id hard soft w).0 ≡ ok tt
        → (q : FsDiskQuota) × ((k.get_quota device id
              (set_project_quota k device id hard soft w).1).0
            ≡ ok q)
    unfolding set_project_quota
    readable w h =
        let p = k.set_quota device id (hard / basic_block_size) (soft / basic_block_size) w in
        let (q, e) =
          laws.set_readable device id (hard / basic_block_size) (soft / basic_block_size) w
            (or_failed-ok k p h) in
        (q, rw (or_failed-state k p) e)

    pub kernel_limits :
        (w : K)
        → (set_project_quota k device id hard soft w).0 ≡ ok tt
        → HasLimits
            (get_project_quota k device id (set_project_quota k device id hard soft w).1).0
            hard
            soft
    unfolding get_project_quota
    kernel_limits w h =
        let t = (set_project_quota k device id hard soft w).1 in
        let small_soft : soft < word = omega arith in
        let one_block : basic_block_size ≤ hard = omega arith in
        let (d, e) = readable w h in
        let same : (id == id) ≡ true = ground arith in
        let now = sym (laws.read_limits device id t d e) ∙ set_project_quota-limits w device id h in
        let both : (d.d_blk_hardlimit, d.d_blk_softlimit)
            ≡ (hard / basic_block_size, soft / basic_block_size) =
          rw (str_eq_refl device, same) at now in
        let (q, f, fh, fs) = in_bytes-ok k (k.get_quota device id t) d e in
        let hard_set : q.hard_quota ≡ hard - hard % basic_block_size =
          fh ∙ ap (λ (x : ℕ × ℕ). mul64 x.0 basic_block_size) both ∙ whole_blocks hard small in
        let soft_set : q.soft_quota ≡ soft - soft % basic_block_size =
          fs ∙ ap (λ (x : ℕ × ℕ). mul64 x.1 basic_block_size) both ∙ whole_blocks soft small_soft in
        (q, f, hard_set, soft_set, above_0 hard _ one_block hard_set, above_0 soft _ block soft_set)
