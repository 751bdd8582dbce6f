-- ===== src/Quota/Manager/Restore/Sizes.antt =====
-- The sizes of the disks after a start (`restoreQuotaInfo` of quota-manager/quotamanager_xfs.go).
use hostpathpv_plugin.Base.{
  ◌<◌, ◌≡◌, refl, some, List, [], ◌∷◌, arith, GoString, All, sym, subst, some_injective, GoMap,
  str_eq, lookup, insert, Result, ok, err, Bool-cases, inl, inr,
}
use hostpathpv_plugin.Util.Host
use hostpathpv_plugin.Util.Host.{Host, HostError}
use hostpathpv_plugin.Quota.Types.{QuotaError, Quota, DiskQuotaInfo, QuotaProvider}
use hostpathpv_plugin.Quota.Naming.{parse_quota_path_info_from_dir_name}
use hostpathpv_plugin.Quota.Manager.{XfsQuotaManager}
use hostpathpv_plugin.Quota.Manager.Balance.{IsBalanced, allocated}
use hostpathpv_plugin.Quota.Manager.Restore.{
  enter_path, enter_disk, disk_measured, disk_found, mounted, load_disks, path_read, path_named,
  load_paths, paths_loaded, load_volumes, disks_loaded, restore_quota_info,
}

-- Every disk of the list is recorded as free in full.
abbrev pub AllFree : GoMap DiskQuotaInfo → Type 0
AllFree disks = All (λ (e : GoString × DiskQuotaInfo). e.1.allocatable_size ≡ e.1.capacity) disks

insert-AllFree :
    (device : GoString) (d : DiskQuotaInfo) (disks : GoMap DiskQuotaInfo)
    → d.allocatable_size ≡ d.capacity
    → AllFree disks
    → AllFree (insert device d disks)
unfolding insert
insert-AllFree device d [] free h = (free, tt)
insert-AllFree device d ((k, x) ∷ disks) free h = elim (Bool-cases (str_eq k device)) [
  | inl same ↦ rw same (free, h.1)
  | inr other ↦ rw other (h.0, insert-AllFree device d disks free h.1)
]

lookup-AllFree :
    (device : GoString) (d : DiskQuotaInfo) (disks : GoMap DiskQuotaInfo)
    → AllFree disks
    → lookup device disks ≡ some d
    → d.allocatable_size ≡ d.capacity
unfolding lookup
lookup-AllFree device d [] h e = absurd (ground arith)
lookup-AllFree device d ((k, x) ∷ disks) h e = elim (Bool-cases (str_eq k device)) [
  | inl same ↦
      let one : some x ≡ some d = rw same at e in
      subst (λ (y : DiskQuotaInfo). y.allocatable_size ≡ y.capacity) (some_injective one) h.0
  | inr other ↦ lookup-AllFree device d disks h.1 (rw other at e)
]

module _ {W : Type 0} (host : Host W) (provider : QuotaProvider W) where
  abbrev Free : XfsQuotaManager W → Type 0
  Free m = AllFree m.disk_quota_infos

  load_disks-Free :
      (mounts : List GoString) (m : XfsQuotaManager W)
      → Free m
      → Free (load_disks host provider mounts m).1
  unfolding load_disks enter_disk
  load_disks-Free [] m h = h
  load_disks-Free (mount ∷ rest) m h =
      elim (Bool-cases (mounted host provider (Host.is_mount_point host mount m.world))) [
        | inr plain ↦ rw plain (load_disks-Free rest m h)
        | inl disk ↦
            rw disk (found (Host.get_dev_for_path host mount m.world) (load_disks-Free rest))
      ]
    where
      measured :
          (device : GoString) (x : Result QuotaError Quota) (w : W)
          → ((n : XfsQuotaManager W) → Free n → Free (load_disks host provider rest n).1)
          → Free
              (disk_measured host provider mount device (load_disks host provider rest) m (x, w)).1
      measured device (ok quota) w ih = ih _ (insert-AllFree device _ m.disk_quota_infos refl h)
      measured device (err e) w ih = h

      found :
          (x : Result HostError GoString)
          → ((n : XfsQuotaManager W) → Free n → Free (load_disks host provider rest n).1)
          → Free (disk_found host provider mount (load_disks host provider rest) m x).1
      found (ok device) ih =
          let p = provider.get_quota_disk_info mount m.world in measured device p.0 p.1 ih
      found (err e) ih = h

  -- Reading the volumes of a disk leaves the map alone, and changes neither its capacity nor its
  -- allocatable size in the record.
  abbrev KeepsFree : Result QuotaError DiskQuotaInfo × XfsQuotaManager W → Type 0
  KeepsFree (ok d, m) = (d.allocatable_size ≡ d.capacity) × Free m
  KeepsFree (err e, m) = Free m

  load_paths-Free :
      (device : GoString) (paths : List GoString) (disk : DiskQuotaInfo) (m : XfsQuotaManager W)
      → disk.allocatable_size ≡ disk.capacity
      → Free m
      → KeepsFree (load_paths host provider device paths disk m)
  unfolding load_paths enter_path
  load_paths-Free device [] disk m free h = (free, h)
  load_paths-Free device (path ∷ rest) disk m free h =
      named (parse_quota_path_info_from_dir_name path) (load_paths-Free device rest)
    where
      read :
          (volume : GoString) (x : Result QuotaError Quota) (w : W)
          → ((d : DiskQuotaInfo) (n : XfsQuotaManager W)
              → d.allocatable_size ≡ d.capacity
              → Free n
              → KeepsFree (load_paths host provider device rest d n))
          → KeepsFree (
              path_read host provider path device volume disk
                (load_paths host provider device rest)
                m
                (x, w))
      read volume (ok quota) w ih = ih _ _ free h
      read volume (err e) w ih = h

      named :
          (x : Result QuotaError GoString)
          → ((d : DiskQuotaInfo) (n : XfsQuotaManager W)
              → d.allocatable_size ≡ d.capacity
              → Free n
              → KeepsFree (load_paths host provider device rest d n))
          → KeepsFree
              (path_named host provider path device disk (load_paths host provider device rest) m x)
      named (ok volume) ih =
          let p = provider.get_project_quota path device m.world in read volume p.0 p.1 ih
      named (err e) ih = h

  load_volumes-Free :
      (disks : GoMap DiskQuotaInfo) (m : XfsQuotaManager W)
      → AllFree disks
      → Free m
      → Free (load_volumes host provider disks m).1
  unfolding load_volumes
  load_volumes-Free [] m all h = h
  load_volumes-Free ((device, disk) ∷ rest) m all h =
      let dirs = Host.get_sub_dirs host disk.mount_point m.world in
      let p = load_paths host provider device dirs disk m in
      loaded p.0 p.1 (load_paths-Free device dirs disk m all.0 h)
        (λ n. load_volumes-Free rest n all.1)
    where
      loaded :
          (x : Result QuotaError DiskQuotaInfo) (n : XfsQuotaManager W)
          → KeepsFree (x, n)
          → ((k : XfsQuotaManager W) → Free k → Free (load_volumes host provider rest k).1)
          → Free (paths_loaded host provider device (load_volumes host provider rest) (x, n)).1
      loaded (ok d) n k ih = ih _ (insert-AllFree device _ n.disk_quota_infos k.0 k.1)
      loaded (err e) n k ih = k

  restore-Free : (m : XfsQuotaManager W) → Free m → Free (restore_quota_info host provider m).1
  unfolding restore_quota_info
  restore-Free m h =
      let p = load_disks host provider (Host.get_sub_dirs host m.quota_root_path m.world) m in
      volumes p.0 p.1 (load_disks-Free _ m h)
    where
      volumes :
          (x : Result QuotaError (Unit {0})) (n : XfsQuotaManager W)
          → Free n
          → Free (disks_loaded host provider (x, n)).1
      volumes (ok u) n k = load_volumes-Free n.disk_quota_infos n k k
      volumes (err e) n k = k

  -- After a start each disk is recorded with all of its capacity allocatable, whatever the quotas of
  -- the volumes that were found on it.
  pub restore-lookup :
      (m : XfsQuotaManager W) (device : GoString) (d : DiskQuotaInfo)
      → m.disk_quota_infos ≡ []
      → lookup device (restore_quota_info host provider m).1.disk_quota_infos ≡ some d
      → d.allocatable_size ≡ d.capacity
  restore-lookup m device d empty e =
      lookup-AllFree device d _ (restore-Free m (subst AllFree (sym empty) tt)) e

  -- After a start without known disks: if the volumes that were entered take anything of a disk that
  -- was entered, the books are not balanced.
  pub restore-unbalanced :
      (m : XfsQuotaManager W) (device : GoString) (d : DiskQuotaInfo)
      → m.disk_quota_infos ≡ []
      → let n = (restore_quota_info host provider m).1 in
        lookup device n.disk_quota_infos ≡ some d
        → 0 < allocated device n.quotas
        → ¬ IsBalanced n.disk_quota_infos n.quotas
  restore-unbalanced m device d empty e used v =
      let a = v.accurate device d e in
      let whole = restore-lookup m device d empty e in omega (arith, a.fits, a.rest_free)
