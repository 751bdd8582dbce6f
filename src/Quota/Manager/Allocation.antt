-- ===== src/Quota/Manager/Allocation.antt =====
-- Which disk a new volume gets (`allocateNewQuotaDir` of quota-manager/quotamanager_xfs.go).
use hostpathpv_plugin.Base.{
  ℕ, ◌≤◌, ◌<◌, ◌≡◌, refl, ap, ◌∙◌, false, some, List, [], ◌∷◌, arith, GoString, GoMap, str_eq_iff,
  ltb, lookup, IsMap, All, sort, sort-All, insert_sorted, Bool-cases, inl, inr, ◌⊎◌, Result, ok,
  err, join_path,
}
use hostpathpv_plugin.Util.Host
use hostpathpv_plugin.Util.Host.{Host, HostError}
use hostpathpv_plugin.Quota.Types.{
  QuotaError, DiskQuotaInfo, DiskQuotaInfoSortItem, QuotaProvider, no_matching_disk, mkdir_failed,
}
use hostpathpv_plugin.Quota.Naming.{get_quota_path_name}
use hostpathpv_plugin.Quota.Manager.{
  XfsQuotaManager, available_disks, item_less, allocate_new_quota_dir, on_best_disk, made,
}

-- The item stands for a disk of the map that is enabled and has room.
abbrev pub HasRoom : GoMap DiskQuotaInfo → ℕ → DiskQuotaInfoSortItem → Type 0
HasRoom disks size item =
    (disk : DiskQuotaInfo) × (lookup item.device_name disks ≡ some disk)
    × (disk.disabled ≡ false)
    × (size ≤ disk.allocatable_size)
    × (item.mount_point ≡ disk.mount_point)
    × (item.available_size ≡ disk.allocatable_size)

abbrev pub AreNamed : GoMap DiskQuotaInfo → Type 0
AreNamed disks = (k : GoString) (d : DiskQuotaInfo) → lookup k disks ≡ some d → d.device_name ≡ k

module _ (disks : GoMap DiskQuotaInfo) (size : ℕ) (names : AreNamed disks) where
  -- The entries not looked at yet are entries of the whole map.
  abbrev Within : GoMap DiskQuotaInfo → Type 0
  Within m = (k : GoString) (d : DiskQuotaInfo) → lookup k m ≡ some d → lookup k disks ≡ some d

  Within-tail :
      (k : GoString) (d : DiskQuotaInfo) (m : GoMap DiskQuotaInfo)
      → IsMap ((k, d) ∷ m)
      → Within ((k, d) ∷ m)
      → Within m
  unfolding lookup
  Within-tail k d m u h j x e = h j x (ground (arith, str_eq_iff k j))

  available_disks-HasRoom :
      (m : GoMap DiskQuotaInfo)
      → IsMap m
      → Within m
      → All (HasRoom disks size) (available_disks size m)
  unfolding available_disks lookup
  available_disks-HasRoom [] u h = tt
  available_disks-HasRoom ((k, d) ∷ m) u h =
      let rest = available_disks-HasRoom m u.1 (Within-tail k d m u h) in
      let there : lookup k disks ≡ some d = h k d (ground (arith, str_eq_iff k k)) in
      elim (Bool-cases d.disabled) [
        | inl off ↦ rw off rest
        | inr on ↦ elim (Bool-cases (ltb d.allocatable_size size)) [
          | inl small ↦ rw (on, small) rest
          | inr enough ↦
              rw (on, enough)
                (
                  (
                    d,
                    ap (λ n. lookup n disks) (names k d there) ∙ there,
                    on,
                    ground arith,
                    refl,
                    refl,
                  ),
                  rest,
                )
        ]
      ]

-- The first of the sorted items is a largest one.
abbrev Bounds : List DiskQuotaInfoSortItem → List DiskQuotaInfoSortItem → Type 0
Bounds [] xs = All (λ x. ⊥) xs
Bounds (first ∷ rest) xs =
    All (λ (x : DiskQuotaInfoSortItem). x.available_size ≤ first.available_size) xs

All-le :
    (a b : ℕ) (xs : List DiskQuotaInfoSortItem)
    → a ≤ b
    → All (λ (x : DiskQuotaInfoSortItem). x.available_size ≤ a) xs
    → All (λ (x : DiskQuotaInfoSortItem). x.available_size ≤ b) xs
All-le a b [] h k = tt
All-le a b (x ∷ xs) h k = (omega (arith, k.0), All-le a b xs h k.1)

All-absurd :
    (n : ℕ) (xs : List DiskQuotaInfoSortItem)
    → All (λ x. ⊥) xs
    → All (λ (x : DiskQuotaInfoSortItem). x.available_size ≤ n) xs
All-absurd n [] h = tt
All-absurd n (x ∷ xs) h = absurd h.0

insert_sorted-Bounds :
    (a : DiskQuotaInfoSortItem) (s xs : List DiskQuotaInfoSortItem)
    → Bounds s xs
    → Bounds (insert_sorted item_less a s) (a ∷ xs)
unfolding insert_sorted item_less
insert_sorted-Bounds a [] xs h = (omega arith, All-absurd a.available_size xs h)
insert_sorted-Bounds a (f ∷ s) xs h = elim (Bool-cases (ltb a.available_size f.available_size)) [
  | inl before ↦ rw before (ground arith, h)
  | inr after ↦ rw after (omega arith, All-le f.available_size a.available_size xs (ground arith) h)
]

sort-Bounds : (xs : List DiskQuotaInfoSortItem) → Bounds (sort item_less xs) xs
unfolding sort
sort-Bounds [] = tt
sort-Bounds (x ∷ xs) = insert_sorted-Bounds x (sort item_less xs) xs (sort-Bounds xs)

-- What bounds the available items bounds the enabled disks with room.
available_disks-bound :
    (size n : ℕ) (k : GoString) (d : DiskQuotaInfo) (m : GoMap DiskQuotaInfo)
    → All (λ (x : DiskQuotaInfoSortItem). x.available_size ≤ n) (available_disks size m)
    → lookup k m ≡ some d
    → d.disabled ≡ false
    → size ≤ d.allocatable_size
    → d.allocatable_size ≤ n
unfolding available_disks lookup
available_disks-bound size n k d [] h e on room = absurd (ground arith)
available_disks-bound size n k d ((j, x) ∷ m) h e on room =
    ground (arith, available_disks-bound size n k d m)

-- With no item no enabled disk has room.
available_disks-none :
    (size : ℕ) (k : GoString) (d : DiskQuotaInfo) (m : GoMap DiskQuotaInfo)
    → All (λ x. ⊥) (available_disks size m)
    → lookup k m ≡ some d
    → d.disabled ≡ false
    → d.allocatable_size < size
unfolding available_disks lookup
available_disks-none size k d [] h e on = absurd (ground arith)
available_disks-none size k d ((j, x) ∷ m) h e on = ground (arith, available_disks-none size k d m)

module _ {W : Type 0} (host : Host W) (provider : QuotaProvider W) where
  -- The outcome of an allocation: the disk, and the result for it.
  pub record IsBest (volume : GoString) (size : ℕ) (m : XfsQuotaManager W) (disk : DiskQuotaInfo)
      (device path : GoString) : Type 0 where
    pub known : lookup device m.disk_quota_infos ≡ some disk
    pub enabled : disk.disabled ≡ false
    pub room : size ≤ disk.allocatable_size
    pub located : path ≡ join_path disk.mount_point (get_quota_path_name volume)
    pub largest :
        (k : GoString) (d : DiskQuotaInfo)
        → lookup k m.disk_quota_infos ≡ some d
        → d.disabled ≡ false
        → d.allocatable_size ≤ disk.allocatable_size

  abbrev pub Picks :
      GoString
      → ℕ
      → XfsQuotaManager W
      → Result QuotaError (GoString × GoString) × XfsQuotaManager W
      → Type 0
  Picks volume size m r =
      ((r ≡ (err no_matching_disk, m))
        × ((k : GoString) (d : DiskQuotaInfo)
            → lookup k m.disk_quota_infos ≡ some d
            → d.disabled ≡ false
            → d.allocatable_size < size))
      ⊎ ((disk : DiskQuotaInfo) × (device : GoString) × (path : GoString) × (w : W) × IsBest volume
            size m disk device path
          × ((r ≡ (ok (device, path), record m { world = w }))
              ⊎ (r ≡ (err mkdir_failed, record m { world = w }))))

  made_cases :
      (device path : GoString) (m : XfsQuotaManager W) (x : Result HostError (Unit {0})) (w : W)
      → (made host provider device path (x, record m { world = w })
          ≡ (ok (device, path), record m { world = w }))
        ⊎ (made host provider device path (x, record m { world = w })
            ≡ (err mkdir_failed, record m { world = w }))
  made_cases device path m (ok u) w = inl refl
  made_cases device path m (err e) w = inr refl

  best_cases :
      (volume : GoString) (size : ℕ) (m : XfsQuotaManager W) (items : List DiskQuotaInfoSortItem)
      → All (HasRoom m.disk_quota_infos size) items
      → Bounds items (available_disks size m.disk_quota_infos)
      → Picks volume size m (on_best_disk host provider volume items m)
  best_cases volume size m [] h b =
      inl (refl, λ k d. available_disks-none size k d m.disk_quota_infos b)
  best_cases volume size m (item ∷ items) h b =
      let (disk, known, on, room, mounted, sized) = h.0 in
      let path = join_path item.mount_point (get_quota_path_name volume) in
      let best : IsBest volume size m disk item.device_name path = record {
        known = known;
        enabled = on;
        room = room;
        located = ap (λ p. join_path p (get_quota_path_name volume)) mounted;
        largest = λ k d e active. ground (
          arith,
          available_disks-bound size item.available_size k d m.disk_quota_infos b e active,
        );
      } in
      elim (Bool-cases (Host.is_path_exist host path m.world)) [
        | inl there ↦ inr (disk, item.device_name, path, m.world, best, inl (rw there refl))
        | inr new ↦
            let p = Host.mk_dir host path m.world in
            inr (
              disk,
              item.device_name,
              path,
              p.1,
              best,
              rw new (made_cases item.device_name path m p.0 p.1),
            )
      ]

  -- For disks that stand once each under their own name: either the answer is that no disk
  -- matches, and every enabled disk has less room than is asked for; or an enabled disk with
  -- enough room, and the most room of all enabled disks, is taken with the volume's directory on
  -- it, or making that directory fails. Only the machine changes.
  pub allocate_new_quota_dir_best :
      (volume : GoString) (size : ℕ) (m : XfsQuotaManager W)
      → IsMap m.disk_quota_infos
      → AreNamed m.disk_quota_infos
      → Picks volume size m (allocate_new_quota_dir host provider volume size m)
  unfolding allocate_new_quota_dir
  allocate_new_quota_dir_best volume size m u names =
      best_cases volume size m (sort item_less (available_disks size m.disk_quota_infos))
        (sort-All (HasRoom m.disk_quota_infos size) item_less _
          (available_disks-HasRoom m.disk_quota_infos size names m.disk_quota_infos u (λ k d e. e)))
        (sort-Bounds (available_disks size m.disk_quota_infos))
