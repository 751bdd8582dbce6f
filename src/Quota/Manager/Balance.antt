-- ===== src/Quota/Manager/Balance.antt =====
-- No disk is over-committed (quota-manager/quotamanager_xfs.go): the sizes of the volumes on a disk
-- add up to its allocated size, and stay within its capacity.
use hostpathpv_plugin.Base.{
  ℕ, ◌+◌, ◌-◌, ◌≤◌, ◌<◌, ◌≡◌, refl, false, none, some, arith, GoString, GoMap, str_eq, str_eq_iff,
  str_eq_refl, lookup, insert, delete, lookup-insert, IsMap, insert-IsMap, delete-IsMap, total,
  total-insert_new, total-insert_old, total-delete, total-lookup, if◌then◌else◌, word, add64, sub64,
  add64_exact, sub64_exact, Bool-cases, inl, inr, subst, some_injective,
}
use hostpathpv_plugin.Quota.Types.{DiskQuotaInfo, PathQuotaInfo}
use hostpathpv_plugin.Quota.Manager.{with_quota_size}

-- What a volume takes of a device, and what all volumes take.
abbrev pub size_on : GoString → PathQuotaInfo → ℕ
size_on device info = if str_eq info.device_name device then info.quota.hard_quota else 0

abbrev pub allocated : GoString → GoMap PathQuotaInfo → ℕ
allocated device quotas = total (size_on device) quotas

-- The record of one disk agrees with the volumes on it.
pub record IsAccurate (device : GoString) (disk : DiskQuotaInfo) (quotas : GoMap PathQuotaInfo)
    : Type 0 where
  pub named : disk.device_name ≡ device
  pub fits : allocated device quotas ≤ disk.capacity
  pub in_word : disk.capacity < word
  pub counted : disk.quota_size ≡ allocated device quotas
  pub rest_free : disk.allocatable_size ≡ disk.capacity - allocated device quotas

pub record IsBalanced (disks : GoMap DiskQuotaInfo) (quotas : GoMap PathQuotaInfo) : Type 0 where
  pub disk_map : IsMap disks
  pub quota_map : IsMap quotas
  pub accurate :
      (device : GoString) (disk : DiskQuotaInfo)
      → lookup device disks ≡ some disk
      → IsAccurate device disk quotas

transfer-IsAccurate :
    (device : GoString) (disk : DiskQuotaInfo) (quotas quotas' : GoMap PathQuotaInfo)
    → allocated device quotas' ≡ allocated device quotas
    → IsAccurate device disk quotas
    → IsAccurate device disk quotas'
transfer-IsAccurate device disk quotas quotas' same a = record {
  named = a.named;
  fits = rw same a.fits;
  in_word = a.in_word;
  counted = rw same a.counted;
  rest_free = rw same a.rest_free;
}

with_quota_size-IsAccurate :
    (device : GoString) (disk : DiskQuotaInfo) (size : ℕ) (quotas : GoMap PathQuotaInfo)
    → disk.device_name ≡ device
    → disk.capacity < word
    → allocated device quotas ≤ disk.capacity
    → size ≡ allocated device quotas
    → IsAccurate device (with_quota_size size disk) quotas
unfolding with_quota_size
with_quota_size-IsAccurate device disk size quotas on small fits e = record {
  named = on;
  fits = fits;
  in_word = small;
  counted = e;
  rest_free = omega (arith, sub64_exact disk.capacity size);
}

-- `quotaSize + new - old` in uint64: the sum may wrap, the whole does not.
swap_sizes :
    (a b c : ℕ)
    → a < word
    → b < word
    → c ≤ a
    → c ≤ b
    → a + (b - c) < word
    → sub64 (add64 a b) c ≡ a + (b - c)
unfolding add64 sub64
swap_sizes a b c ha hb h k fits = omega arith

module _ (disks : GoMap DiskQuotaInfo) (quotas : GoMap PathQuotaInfo)
    (v : IsBalanced disks quotas) where
  -- One disk gets a new record that agrees with the new volumes; the other disks keep their sizes.
  update-IsBalanced :
      (device : GoString) (disk : DiskQuotaInfo) (quotas' : GoMap PathQuotaInfo)
      → IsMap quotas'
      → IsAccurate device disk quotas'
      → ((d : GoString) → str_eq device d ≡ false → allocated d quotas' ≡ allocated d quotas)
      → IsBalanced (insert device disk disks) quotas'
  update-IsBalanced device disk quotas' unique a others = record {
    disk_map = insert-IsMap device disk disks v.disk_map;
    quota_map = unique;
    accurate = λ d x e. elim (Bool-cases (str_eq device d)) [
      | inl same ↦
          let at_device : some disk ≡ some x = rw (lookup-insert device d disk disks, same) at e in
          let one : device ≡ d = (str_eq_iff device d).0 same in
          subst (λ k. IsAccurate k x quotas') one
            (subst (λ y. IsAccurate device y quotas') (some_injective at_device) a)
      | inr other ↦
          let old : lookup d disks ≡ some x = rw (lookup-insert device d disk disks, other) at e in
          transfer-IsAccurate d x quotas quotas' (others d other) (v.accurate d x old)
    ];
  }

  -- A new volume on a disk with room for it.
  pub enter_volume-IsBalanced :
      (volume device : GoString) (disk : DiskQuotaInfo) (info : PathQuotaInfo)
      → lookup volume quotas ≡ none
      → lookup device disks ≡ some disk
      → info.device_name ≡ device
      → info.quota.hard_quota ≤ disk.allocatable_size
      → IsBalanced
          (insert device (with_quota_size (add64 disk.quota_size info.quota.hard_quota) disk) disks)
          (insert volume info quotas)
  enter_volume-IsBalanced volume device disk info new there on room =
      let a = v.accurate device disk there in
      let sum = λ (d : GoString). total-insert_new (size_on d) volume info quotas new in
      let mine : size_on device info ≡ info.quota.hard_quota =
        ground (arith, str_eq_iff info.device_name device) in
      update-IsBalanced device _ (insert volume info quotas)
        (insert-IsMap volume info quotas v.quota_map)
        (with_quota_size-IsAccurate device disk (add64 disk.quota_size info.quota.hard_quota)
          (insert volume info quotas) a.named a.in_word
          (omega (arith, sum device, a.fits, a.rest_free))
          (omega (
            arith,
            sum device,
            a.fits,
            a.rest_free,
            a.in_word,
            a.counted,
            add64_exact disk.quota_size info.quota.hard_quota,
          )))
        (λ d other. ground (arith, sum d, str_eq_iff info.device_name d, str_eq_iff device d))

  -- A volume that grows by no more than what is free.
  pub enter_expansion-IsBalanced :
      (volume : GoString) (size : ℕ) (disk : DiskQuotaInfo) (info : PathQuotaInfo)
      → lookup volume quotas ≡ some info
      → lookup info.device_name disks ≡ some disk
      → info.quota.hard_quota ≤ size
      → size < word
      → sub64 size info.quota.hard_quota ≤ disk.allocatable_size
      → IsBalanced
          (insert info.device_name
            (with_quota_size (sub64 (add64 disk.quota_size size) info.quota.hard_quota) disk)
            disks)
          (insert volume
            (record info { quota = record info.quota { hard_quota = size; soft_quota = size } })
            quotas)
  enter_expansion-IsBalanced volume size disk info there on grows small room =
      let a = v.accurate info.device_name disk on in
      let bigger : PathQuotaInfo = record info {
        quota = record info.quota { hard_quota = size; soft_quota = size };
      } in
      let sum = λ (d : GoString). total-insert_old (size_on d) volume bigger info quotas there in
      let old : size_on info.device_name info ≡ info.quota.hard_quota =
        rw (str_eq_refl info.device_name) refl in
      let new : size_on info.device_name bigger ≡ size = rw (str_eq_refl info.device_name) refl in
      let old_fits = total-lookup (size_on info.device_name) volume info quotas there in
      update-IsBalanced info.device_name _ (insert volume bigger quotas)
        (insert-IsMap volume bigger quotas v.quota_map)
        (with_quota_size-IsAccurate info.device_name disk
          (sub64 (add64 disk.quota_size size) info.quota.hard_quota) (insert volume bigger quotas)
          a.named a.in_word
          (omega (
            arith,
            sum info.device_name,
            old,
            new,
            old_fits,
            a.fits,
            a.rest_free,
            a.in_word,
            sub64_exact size info.quota.hard_quota,
          ))
          (omega (
            arith,
            sum info.device_name,
            old,
            new,
            old_fits,
            a.fits,
            a.rest_free,
            a.in_word,
            a.counted,
            sub64_exact size info.quota.hard_quota,
            swap_sizes disk.quota_size size info.quota.hard_quota,
          )))
        (λ d other. ground (arith, sum d))

  pub enter_release-IsBalanced :
      (volume : GoString) (disk : DiskQuotaInfo) (info : PathQuotaInfo)
      → lookup volume quotas ≡ some info
      → lookup info.device_name disks ≡ some disk
      → IsBalanced
          (insert info.device_name
            (with_quota_size (sub64 disk.quota_size info.quota.hard_quota) disk)
            disks)
          (delete volume quotas)
  enter_release-IsBalanced volume disk info there on =
      let a = v.accurate info.device_name disk on in
      let sum = λ (d : GoString). total-delete (size_on d) volume info quotas v.quota_map there in
      let mine : size_on info.device_name info ≡ info.quota.hard_quota =
        rw (str_eq_refl info.device_name) refl in
      update-IsBalanced info.device_name _ (delete volume quotas)
        (delete-IsMap volume quotas v.quota_map)
        (with_quota_size-IsAccurate info.device_name disk
          (sub64 disk.quota_size info.quota.hard_quota) (delete volume quotas) a.named a.in_word
          (omega (arith, sum info.device_name, a.fits))
          (omega (
            arith,
            sum info.device_name,
            mine,
            a.fits,
            a.in_word,
            a.counted,
            sub64_exact disk.quota_size info.quota.hard_quota,
          )))
        (λ d other. ground (arith, sum d))
