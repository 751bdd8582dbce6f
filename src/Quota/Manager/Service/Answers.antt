-- ===== src/Quota/Manager/Service/Answers.antt =====
-- What the callers of the manager can rely on (quota-manager/quotamanager_xfs.go).
use hostpathpv_plugin.Base.{
  ℕ, ◌≡◌, refl, ap, Option, none, some, List, [], ◌∷◌, arith, GoString, str_eq, str_eq_iff, lookup,
  lookup-insert_same, lookup-delete, join_path, if◌then◌else◌, ℤ, to_u64, Result, ok, err,
  Option-cases, Bool-cases, inl, inr, ltb, sub64, ◌≤◌,
}
use hostpathpv_plugin.Util.Host
use hostpathpv_plugin.Util.Host.{Host, HostError}
use hostpathpv_plugin.Quota.Types.{
  QuotaError, DiskQuotaInfo, PathQuotaInfo, QuotaProvider, DiskQuotaInfoSortItem,
}
use hostpathpv_plugin.Quota.Naming.{get_quota_path_name}
use hostpathpv_plugin.Quota.Manager.{
  XfsQuotaManager, get_volume_quota_path, expand_volume, release_volume_path, enter_volume,
  enter_expansion, enter_release, allocate_new_quota_dir, on_best_disk, made, on_disk,
  after_allocation, after_quota_set, expand_on, after_expansion, release_on, after_deletion,
}

-- The two caches of the manager are as before.
abbrev pub SameBooks : {W : Type 0} → XfsQuotaManager W → XfsQuotaManager W → Type 0
SameBooks m n = (n.disk_quota_infos ≡ m.disk_quota_infos) × (n.quotas ≡ m.quotas)

module _ {W : Type 0} (host : Host W) (provider : QuotaProvider W) where
  -- After a failure the caches are as before; after a success the volume is entered with the path
  -- that is returned.
  abbrev pub Answered :
      GoString → XfsQuotaManager W → Result QuotaError GoString × XfsQuotaManager W → Type 0
  Answered volume m (ok path, n) =
      (info : PathQuotaInfo) × (lookup volume n.quotas ≡ some info) × (info.path ≡ path)
  Answered volume m (err e, n) = SameBooks m n

  set-Answered :
      (volume : GoString) (size : ℕ) (device path : GoString) (disk : DiskQuotaInfo)
      (m : XfsQuotaManager W) (x : Result QuotaError (Unit {0})) (w : W)
      → Answered volume m
          (after_quota_set host provider volume size device path disk (x, record m { world = w }))
  unfolding enter_volume
  set-Answered volume size device path disk m (ok u) w =
      (_, lookup-insert_same volume _ m.quotas, refl)
  set-Answered volume size device path disk m (err e) w = (refl, refl)

  disk-Answered :
      (volume : GoString) (size : ℕ) (device path : GoString) (m : XfsQuotaManager W)
      (d : Option DiskQuotaInfo) (w : W)
      → Answered volume m (on_disk host provider volume size device path d (record m { world = w }))
  disk-Answered volume size device path m none w = (refl, refl)
  disk-Answered volume size device path m (some disk) w =
      let p = provider.set_project_quota path device size size w in
      set-Answered volume size device path disk m p.0 p.1

  best-Answered :
      (volume : GoString) (size : ℕ) (m : XfsQuotaManager W) (items : List DiskQuotaInfoSortItem)
      → Answered volume m
          (after_allocation host provider volume size (on_best_disk host provider volume items m))
  best-Answered volume size m [] = (refl, refl)
  best-Answered volume size m (item ∷ items) =
      let path = join_path item.mount_point (get_quota_path_name volume) in
      elim (Bool-cases (Host.is_path_exist host path m.world)) [
        | inl there ↦ rw there (
            disk-Answered volume size item.device_name path m
              (lookup item.device_name m.disk_quota_infos) m.world)
        | inr new ↦ rw new (let p = Host.mk_dir host path m.world in after p.0 p.1)
      ]
    where
      after :
          (x : Result HostError (Unit {0})) (w : W)
          → Answered volume m (
              after_allocation host provider volume size (
                made host provider item.device_name
                  (join_path item.mount_point (get_quota_path_name volume))
                  (x, record m { world = w })))
      after (ok u) w =
          disk-Answered volume size item.device_name _ m
            (lookup item.device_name m.disk_quota_infos) w
      after (err e) w = (refl, refl)

  pub get_volume_quota_path-Answered :
      (volume : GoString) (capacity : ℤ) (m : XfsQuotaManager W)
      → Answered volume m (get_volume_quota_path host provider volume capacity m)
  unfolding get_volume_quota_path allocate_new_quota_dir
  get_volume_quota_path-Answered volume capacity m = elim (Option-cases (lookup volume m.quotas)) [
    | inr (info, e) ↦ rw (e, get_volume_quota_path, Answered) (info, e, refl)
    | inl e ↦ rw (e, get_volume_quota_path, Answered) (best-Answered volume (to_u64 capacity) m _)
  ]

  Answered-again :
      (volume : GoString) (capacity : ℤ) (m n : XfsQuotaManager W) (x : Result QuotaError GoString)
      → (path : GoString) → x ≡ ok path
      → Answered volume m (x, n)
      → get_volume_quota_path host provider volume capacity n ≡ (ok path, n)
  unfolding get_volume_quota_path
  Answered-again volume capacity m n (ok p) path h (info, e, same) =
      rw (e, get_volume_quota_path) (ap (λ (q : GoString). (ok q, n)) (ground arith))
  Answered-again volume capacity m n (err e) path h a = absurd (ground arith)

  -- After a call that gave the directory of a volume, asking for it again, with any capacity,
  -- gives the same path and changes nothing.
  pub get_volume_quota_path-again :
      (volume path : GoString) (capacity other : ℤ) (m : XfsQuotaManager W)
      → (get_volume_quota_path host provider volume capacity m).0 ≡ ok path
      → let n = (get_volume_quota_path host provider volume capacity m).1 in
        get_volume_quota_path host provider volume other n ≡ (ok path, n)
  get_volume_quota_path-again volume path capacity other m h =
      let p = get_volume_quota_path host provider volume capacity m in
      Answered-again volume other m p.1 p.0 path h
        (get_volume_quota_path-Answered volume capacity m)

  -- A failed expansion changes neither cache; a successful one enters the size that was asked for,
  -- which is not below the old one, and leaves the path and the device.
  abbrev pub Expanded :
      GoString → ℕ → XfsQuotaManager W → Result QuotaError (Unit {0}) × XfsQuotaManager W → Type 0
  Expanded volume size m (ok u, n) =
      (old info : PathQuotaInfo) × (lookup volume m.quotas ≡ some old)
      × (lookup volume n.quotas ≡ some info)
      × (old.quota.hard_quota ≤ size)
      × (info.quota.hard_quota ≡ size)
      × (info.path ≡ old.path)
      × (info.device_name ≡ old.device_name)
  Expanded volume size m (err e, n) = SameBooks m n

  expand_on-Expanded :
      (volume : GoString) (size : ℕ) (info : PathQuotaInfo) (d : Option DiskQuotaInfo)
      (m : XfsQuotaManager W)
      → lookup volume m.quotas ≡ some info
      → Expanded volume size m (expand_on host provider volume size info d m)
  unfolding enter_expansion
  expand_on-Expanded volume size info none m there = (refl, refl)
  expand_on-Expanded volume size info (some disk) m there =
      elim (Bool-cases (ltb size info.quota.hard_quota)) [
        | inl less ↦ rw less (refl, refl)
        | inr more ↦
            rw more
              (elim (Bool-cases (ltb disk.allocatable_size (sub64 size info.quota.hard_quota))) [
                | inl full ↦ rw full (refl, refl)
                | inr room ↦ rw room (
                    let p =
                      provider.set_project_quota info.path info.device_name size size m.world in
                    after p.0 p.1 (ground arith))
              ])
      ]
    where
      after :
          (x : Result QuotaError (Unit {0})) (w : W)
          → info.quota.hard_quota ≤ size
          → Expanded volume size m
              (after_expansion host provider volume size info disk (x, record m { world = w }))
      after (ok u) w grows =
          (info, _, there, lookup-insert_same volume _ m.quotas, grows, refl, refl, refl)
      after (err e) w grows = (refl, refl)

  -- An expansion that fails changes neither cache; one that succeeds was of a known volume of at
  -- most the new size, and enters the new size with the same path and device.
  pub expand_volume_books :
      (volume : GoString) (capacity : ℤ) (m : XfsQuotaManager W)
      → Expanded volume (to_u64 capacity) m (expand_volume host provider volume capacity m)
  unfolding expand_volume
  expand_volume_books volume capacity m = elim (Option-cases (lookup volume m.quotas)) [
    | inl none_there ↦ rw (none_there, expand_volume, Expanded) (refl, refl)
    | inr (info, e) ↦
        rw (e, expand_volume, Expanded)
          (expand_on-Expanded volume (to_u64 capacity) info
            (lookup info.device_name m.disk_quota_infos) m e)
  ]

  -- A released volume is in the cache no more, the others are as before; a failed release changes
  -- neither cache.
  abbrev pub Released :
      GoString → XfsQuotaManager W → Result QuotaError (Unit {0}) × XfsQuotaManager W → Type 0
  Released volume m (ok u, n) =
      (v : GoString) → lookup v n.quotas ≡ (if str_eq volume v then none else lookup v m.quotas)
  Released volume m (err e, n) = SameBooks m n

  release_on-Released :
      (volume : GoString) (info : PathQuotaInfo) (d : Option DiskQuotaInfo) (m : XfsQuotaManager W)
      → Released volume m (release_on host provider volume info d m)
  unfolding enter_release
  release_on-Released volume info none m = (refl, refl)
  release_on-Released volume info (some disk) m =
      let p = provider.delete_project_quota info.path m.world in after p.0 p.1
    where
      after :
          (x : Result QuotaError (Unit {0})) (w : W)
          → Released volume m
              (after_deletion host provider volume info disk (x, record m { world = w }))
      after (ok u) w = λ v. lookup-delete volume v m.quotas
      after (err e) w = (refl, refl)

  -- A release that fails changes neither cache; after one that succeeds the volume is not in the
  -- cache, and the other volumes are as before.
  pub release_volume_path_books :
      (volume : GoString) (m : XfsQuotaManager W)
      → Released volume m (release_volume_path host provider volume m)
  unfolding release_volume_path
  release_volume_path_books volume m = elim (Option-cases (lookup volume m.quotas)) [
    | inl missing ↦
        rw (missing, release_volume_path, Released) (λ v. ground (arith, str_eq_iff volume v))
    | inr (info, e) ↦
        rw (e, release_volume_path, Released)
          (release_on-Released volume info (lookup info.device_name m.disk_quota_infos) m)
  ]
