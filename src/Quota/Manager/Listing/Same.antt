-- ===== src/Quota/Manager/Listing/Same.antt =====
-- Books that have the same sizes are balanced alike (quota-manager/quotamanager_xfs.go).
use hostpathpv_plugin.Base.{
  ◌≡◌, refl, subst, ◌∙◌, sym, none, some, [], ◌∷◌, arith, GoString, GoMap, str_eq, lookup, IsMap,
  total, Bool-cases, inl, inr,
}
use hostpathpv_plugin.Quota.Types.{DiskQuotaInfo, PathQuotaInfo}
use hostpathpv_plugin.Quota.Manager.Balance.{IsBalanced, allocated}

-- The figures that the balance of a disk is about.
pub record SameDisk (d e : DiskQuotaInfo) : Type 0 where
  pub device_name : d.device_name ≡ e.device_name
  pub capacity : d.capacity ≡ e.capacity
  pub quota_size : d.quota_size ≡ e.quota_size
  pub allocatable_size : d.allocatable_size ≡ e.allocatable_size

abbrev pub SameDisks : GoMap DiskQuotaInfo → GoMap DiskQuotaInfo → Type 0
SameDisks [] [] = Unit
SameDisks ((k, d) ∷ m) ((j, e) ∷ n) = (k ≡ j) × SameDisk d e × SameDisks m n
SameDisks _ _ = ⊥

abbrev pub SamePaths : GoMap PathQuotaInfo → GoMap PathQuotaInfo → Type 0
SamePaths [] [] = Unit
SamePaths ((k, d) ∷ m) ((j, e) ∷ n) =
    (k ≡ j)
    × (d.device_name ≡ e.device_name)
    × (d.quota.hard_quota ≡ e.quota.hard_quota)
    × SamePaths m n
SamePaths _ _ = ⊥

pub SameDisk-refl : (d : DiskQuotaInfo) → SameDisk d d
SameDisk-refl d = record {
  device_name = refl;
  capacity = refl;
  quota_size = refl;
  allocatable_size = refl;
}

pub SameDisks-refl : (m : GoMap DiskQuotaInfo) → SameDisks m m
SameDisks-refl [] = tt
SameDisks-refl ((k, d) ∷ m) = (refl, SameDisk-refl d, SameDisks-refl m)

pub SamePaths-refl : (m : GoMap PathQuotaInfo) → SamePaths m m
SamePaths-refl [] = tt
SamePaths-refl ((k, d) ∷ m) = (refl, refl, refl, SamePaths-refl m)

pub SameDisks-lookup :
    (m n : GoMap DiskQuotaInfo) (k : GoString) (e : DiskQuotaInfo)
    → SameDisks m n
    → lookup k n ≡ some e
    → (d : DiskQuotaInfo) × (lookup k m ≡ some d) × SameDisk d e
unfolding lookup
SameDisks-lookup [] [] k e s h = absurd (ground arith)
SameDisks-lookup [] (x ∷ n) k e s h = absurd s
SameDisks-lookup (x ∷ m) [] k e s h = absurd s
SameDisks-lookup ((i, d) ∷ m) ((j, c) ∷ n) k e s h = elim (Bool-cases (str_eq i k)) [
  | inl same ↦ let found : c ≡ e = ground arith in (d, rw same refl, subst (SameDisk d) found s.1)
  | inr other ↦
      let (x, there, p) = SameDisks-lookup m n k e s.2 (ground arith) in (x, rw other there, p)
]

pub SameDisks-none :
    (m n : GoMap DiskQuotaInfo) (k : GoString)
    → SameDisks m n
    → lookup k m ≡ none
    → lookup k n ≡ none
unfolding lookup
SameDisks-none [] [] k s h = refl
SameDisks-none [] (x ∷ n) k s h = absurd s
SameDisks-none (x ∷ m) [] k s h = absurd s
SameDisks-none ((i, d) ∷ m) ((j, c) ∷ n) k s h = ground (arith, SameDisks-none m n k s.2)

pub SameDisks-IsMap : (m n : GoMap DiskQuotaInfo) → SameDisks m n → IsMap m → IsMap n
SameDisks-IsMap [] [] s h = tt
SameDisks-IsMap [] (x ∷ n) s h = absurd s
SameDisks-IsMap (x ∷ m) [] s h = absurd s
SameDisks-IsMap ((i, d) ∷ m) ((j, c) ∷ n) s h =
    (rw (← s.0) (SameDisks-none m n i s.2 h.0), SameDisks-IsMap m n s.2 h.1)

pub SamePaths-none :
    (m n : GoMap PathQuotaInfo) (k : GoString)
    → SamePaths m n
    → lookup k m ≡ none
    → lookup k n ≡ none
unfolding lookup
SamePaths-none [] [] k s h = refl
SamePaths-none [] (x ∷ n) k s h = absurd s
SamePaths-none (x ∷ m) [] k s h = absurd s
SamePaths-none ((i, d) ∷ m) ((j, c) ∷ n) k s h = ground (arith, SamePaths-none m n k s.3)

pub SamePaths-IsMap : (m n : GoMap PathQuotaInfo) → SamePaths m n → IsMap m → IsMap n
SamePaths-IsMap [] [] s h = tt
SamePaths-IsMap [] (x ∷ n) s h = absurd s
SamePaths-IsMap (x ∷ m) [] s h = absurd s
SamePaths-IsMap ((i, d) ∷ m) ((j, c) ∷ n) s h =
    (rw (← s.0) (SamePaths-none m n i s.3 h.0), SamePaths-IsMap m n s.3 h.1)

pub SamePaths-allocated :
    (device : GoString) (m n : GoMap PathQuotaInfo)
    → SamePaths m n
    → allocated device n ≡ allocated device m
unfolding total
SamePaths-allocated device [] [] s = refl
SamePaths-allocated device [] (x ∷ n) s = absurd s
SamePaths-allocated device (x ∷ m) [] s = absurd s
SamePaths-allocated device ((i, d) ∷ m) ((j, c) ∷ n) s =
    ground (arith, SamePaths-allocated device m n s.3)

pub SameDisks-IsBalanced :
    (m n : GoMap DiskQuotaInfo) (quotas : GoMap PathQuotaInfo)
    → SameDisks m n
    → IsBalanced m quotas
    → IsBalanced n quotas
SameDisks-IsBalanced m n quotas s v = record {
  disk_map = SameDisks-IsMap m n s v.disk_map;
  quota_map = v.quota_map;
  accurate = λ k e h.
      let (d, there, same) = SameDisks-lookup m n k e s h in
      let a = v.accurate k d there in
      record {
        named = sym same.device_name ∙ a.named;
        fits = rw (← same.capacity) a.fits;
        in_word = rw (← same.capacity) a.in_word;
        counted = sym same.quota_size ∙ a.counted;
        rest_free = rw (← same.capacity, ← same.allocatable_size) a.rest_free;
      };
}

pub SamePaths-IsBalanced :
    (disks : GoMap DiskQuotaInfo) (m n : GoMap PathQuotaInfo)
    → SamePaths m n
    → IsBalanced disks m
    → IsBalanced disks n
SamePaths-IsBalanced disks m n s v = record {
  disk_map = v.disk_map;
  quota_map = SamePaths-IsMap m n s v.quota_map;
  accurate = λ k e h.
      let a = v.accurate k e h in
      let same = SamePaths-allocated k m n s in
      record {
        named = a.named;
        fits = rw same a.fits;
        in_word = a.in_word;
        counted = rw same a.counted;
        rest_free = rw same a.rest_free;
      };
}
