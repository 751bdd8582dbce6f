-- ===== src/Quota/Manager/Methods.antt =====
-- The methods that allocate, expand and release volumes keep the disks balanced
-- (quota-manager/quotamanager_xfs.go).
use hostpathpv_plugin.Base.{
  ℕ, ◌≤◌, ◌<◌, ◌≡◌, refl, Option, none, some, arith, GoString, ltb, lookup, word, sub64, ℤ, pos,
  negsuc, to_u64, Result, ok, err, Option-cases, Bool-cases, inl, inr,
}
use hostpathpv_plugin.Util.Host.{Host}
use hostpathpv_plugin.Quota.Types.{QuotaError, DiskQuotaInfo, PathQuotaInfo, QuotaProvider}
use hostpathpv_plugin.Quota.Manager.{
  XfsQuotaManager, get_volume_quota_path, expand_volume, release_volume_path, enter_volume,
  enter_expansion, enter_release, after_quota_set, after_expansion, expand_on, after_deletion,
  release_on,
}
use hostpathpv_plugin.Quota.Manager.Balance.{
  IsBalanced, enter_volume-IsBalanced, enter_expansion-IsBalanced, enter_release-IsBalanced,
}
use hostpathpv_plugin.Quota.Manager.Allocation.{allocate_new_quota_dir_best}

to_u64-lt : (n : ℤ) → to_u64 n < word
unfolding to_u64
to_u64-lt (pos n) = omega arith
to_u64-lt (negsuc n) = omega arith

module _ {W : Type 0} (host : Host W) (provider : QuotaProvider W) where
  abbrev pub Balanced : XfsQuotaManager W → Type 0
  Balanced m = IsBalanced m.disk_quota_infos m.quotas

  quota_set-Balanced :
      (volume : GoString) (size : ℕ) (device path : GoString) (disk : DiskQuotaInfo)
      (m : XfsQuotaManager W) (x : Result QuotaError (Unit {0}))
      → Balanced m
      → lookup volume m.quotas ≡ none
      → lookup device m.disk_quota_infos ≡ some disk
      → size ≤ disk.allocatable_size
      → Balanced (after_quota_set host provider volume size device path disk (x, m)).1
  unfolding enter_volume
  quota_set-Balanced volume size device path disk m (ok u) v new there room =
      enter_volume-IsBalanced m.disk_quota_infos m.quotas v volume device disk
        (record {
          path = path;
          device_name = device;
          quota = record { hard_quota = size; soft_quota = size; used = 0 };
          last_sync = (host.now m.world).0;
          volume_id = volume;
        })
        new there refl room
  quota_set-Balanced volume size device path disk m (err e) v new there room = v

  -- A volume that is allocated, or found, keeps every disk within its capacity.
  pub get_volume_quota_path-Balanced :
      (volume : GoString) (capacity : ℤ) (m : XfsQuotaManager W)
      → Balanced m
      → Balanced (get_volume_quota_path host provider volume capacity m).1
  unfolding get_volume_quota_path
  get_volume_quota_path-Balanced volume capacity m v =
      elim (Option-cases (lookup volume m.quotas)) [
        | inr (info, old) ↦ rw (old, get_volume_quota_path) v
        | inl new ↦
            let size = to_u64 capacity in
            let picks =
              allocate_new_quota_dir_best host provider volume size m v.disk_map
                (λ k d e. (v.accurate k d e).named) in
            rw (new, get_volume_quota_path)
              (elim picks [
                | inl (full, _) ↦ rw full v
                | inr (disk, device, path, w, best, inr failed) ↦ rw failed v
                | inr (disk, device, path, w, best, inl made) ↦
                    let p = provider.set_project_quota path device size size w in
                    rw made (
                      rw best.known (
                        quota_set-Balanced volume size device path disk (record m { world = p.1 })
                          p.0 v new best.known best.room))
              ])
      ]

  expansion-Balanced :
      (volume : GoString) (size : ℕ) (info : PathQuotaInfo) (disk : DiskQuotaInfo)
      (m : XfsQuotaManager W) (x : Result QuotaError (Unit {0}))
      → Balanced m
      → lookup volume m.quotas ≡ some info
      → lookup info.device_name m.disk_quota_infos ≡ some disk
      → info.quota.hard_quota ≤ size
      → size < word
      → sub64 size info.quota.hard_quota ≤ disk.allocatable_size
      → Balanced (after_expansion host provider volume size info disk (x, m)).1
  unfolding enter_expansion
  expansion-Balanced volume size info disk m (ok u) v mine there grows small room =
      enter_expansion-IsBalanced m.disk_quota_infos m.quotas v volume size disk info mine there
        grows small room
  expansion-Balanced volume size info disk m (err e) v mine there grows small room = v

  expand_on-Balanced :
      (volume : GoString) (size : ℕ) (info : PathQuotaInfo) (m : XfsQuotaManager W)
      (o : Option DiskQuotaInfo)
      → Balanced m
      → lookup volume m.quotas ≡ some info
      → lookup info.device_name m.disk_quota_infos ≡ o
      → size < word
      → Balanced (expand_on host provider volume size info o m).1
  expand_on-Balanced volume size info m none v mine there small = v
  expand_on-Balanced volume size info m (some disk) v mine there small =
      elim (Bool-cases (ltb size info.quota.hard_quota)) [
        | inl less ↦ rw less v
        | inr grows ↦
            elim (Bool-cases (ltb disk.allocatable_size (sub64 size info.quota.hard_quota))) [
              | inl full ↦ rw (grows, full) v
              | inr room ↦
                  let p = provider.set_project_quota info.path info.device_name size size m.world in
                  rw (grows, room)
                    (expansion-Balanced volume size info disk (record m { world = p.1 }) p.0 v mine
                      there (ground arith) small (ground arith))
            ]
      ]

  pub expand_volume-Balanced :
      (volume : GoString) (capacity : ℤ) (m : XfsQuotaManager W)
      → Balanced m
      → Balanced (expand_volume host provider volume capacity m).1
  unfolding expand_volume
  expand_volume-Balanced volume capacity m v = elim (Option-cases (lookup volume m.quotas)) [
    | inl unknown ↦ rw (unknown, expand_volume) v
    | inr (info, old) ↦
        rw (old, expand_volume)
          (expand_on-Balanced volume (to_u64 capacity) info m
            (lookup info.device_name m.disk_quota_infos) v old refl (to_u64-lt capacity))
  ]

  deletion-Balanced :
      (volume : GoString) (info : PathQuotaInfo) (disk : DiskQuotaInfo) (m : XfsQuotaManager W)
      (x : Result QuotaError (Unit {0}))
      → Balanced m
      → lookup volume m.quotas ≡ some info
      → lookup info.device_name m.disk_quota_infos ≡ some disk
      → Balanced (after_deletion host provider volume info disk (x, m)).1
  unfolding enter_release
  deletion-Balanced volume info disk m (ok u) v mine there =
      enter_release-IsBalanced m.disk_quota_infos m.quotas v volume disk info mine there
  deletion-Balanced volume info disk m (err e) v mine there = v

  release_on-Balanced :
      (volume : GoString) (info : PathQuotaInfo) (m : XfsQuotaManager W) (o : Option DiskQuotaInfo)
      → Balanced m
      → lookup volume m.quotas ≡ some info
      → lookup info.device_name m.disk_quota_infos ≡ o
      → Balanced (release_on host provider volume info o m).1
  release_on-Balanced volume info m none v mine there = v
  release_on-Balanced volume info m (some disk) v mine there =
      let p = provider.delete_project_quota info.path m.world in
      deletion-Balanced volume info disk (record m { world = p.1 }) p.0 v mine there

  pub release_volume_path-Balanced :
      (volume : GoString) (m : XfsQuotaManager W)
      → Balanced m
      → Balanced (release_volume_path host provider volume m).1
  unfolding release_volume_path
  release_volume_path-Balanced volume m v = elim (Option-cases (lookup volume m.quotas)) [
    | inl unknown ↦ rw (unknown, release_volume_path) v
    | inr (info, old) ↦
        rw (old, release_volume_path)
          (release_on-Balanced volume info m (lookup info.device_name m.disk_quota_infos) v old
            refl)
  ]
