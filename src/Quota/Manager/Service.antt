-- ===== src/Quota/Manager/Service.antt =====
-- Sequences of calls of the manager, and what its callers can rely on
-- (quota-manager/quotamanager_xfs.go).
pub mod Answers
pub mod Expansion
use hostpathpv_plugin.Base.{
  ℕ, ◌≡◌, refl, ap, Bool, true, false, Option, none, some, List, [], ◌∷◌, arith, GoString, GoMap,
  str_eq, str_eq_refl, lookup, delete, insert, lookup-insert, lookup-delete, if◌then◌else◌, ℤ,
  to_u64, Result, ok, err, Option-cases, Bool-cases, inl, inr, ◌⊎◌, ltb, sub64, ◌≤◌, ◌<◌,
}
use hostpathpv_plugin.Util.Host.{Host}
use hostpathpv_plugin.Quota.Types.{QuotaError, DiskQuotaInfo, PathQuotaInfo, QuotaProvider}
use hostpathpv_plugin.Quota.Manager.{
  XfsQuotaManager, get_volume_quota_path, expand_volume, release_volume_path,
}
use hostpathpv_plugin.Quota.Manager.Balance.{IsBalanced}
use hostpathpv_plugin.Quota.Manager.Methods.{
  Balanced, get_volume_quota_path-Balanced, expand_volume-Balanced, release_volume_path-Balanced,
}
use hostpathpv_plugin.Quota.Manager.Listing.{
  list_quota_disk_infos, list_path_quota_infos, set_quota_disk_disabled_state,
}
use hostpathpv_plugin.Quota.Manager.Listing.Books.{
  list_quota_disk_infos-Balanced, list_path_quota_infos-Balanced,
  set_quota_disk_disabled_state-Balanced,
}

-- The methods of QuotaManagerInterface.
pub data ManagerCall : Type 0 where
  gets expands : GoString → ℤ → ManagerCall
  releases : GoString → ManagerCall
  disables : GoString → Bool → ManagerCall
  lists_disks lists_paths : ManagerCall

module _ {W : Type 0} (host : Host W) (provider : QuotaProvider W) where
  pub step : XfsQuotaManager W → ManagerCall → XfsQuotaManager W
  step m (gets volume capacity) = (get_volume_quota_path host provider volume capacity m).1
  step m (expands volume capacity) = (expand_volume host provider volume capacity m).1
  step m (releases volume) = (release_volume_path host provider volume m).1
  step m (disables mount_point disabled) =
      (set_quota_disk_disabled_state host provider mount_point disabled m).1
  step m lists_disks = (list_quota_disk_infos host provider m).1
  step m lists_paths = (list_path_quota_infos host provider m).1

  pub run : XfsQuotaManager W → List ManagerCall → XfsQuotaManager W
  run m [] = m
  run m (c ∷ cs) = run (step m c) cs

  step-Balanced :
      (m : XfsQuotaManager W) (c : ManagerCall)
      → Balanced host provider m
      → Balanced host provider (step m c)
  unfolding step
  step-Balanced m (gets volume capacity) v =
      get_volume_quota_path-Balanced host provider volume capacity m v
  step-Balanced m (expands volume capacity) v =
      expand_volume-Balanced host provider volume capacity m v
  step-Balanced m (releases volume) v = release_volume_path-Balanced host provider volume m v
  step-Balanced m (disables mount off) v =
      set_quota_disk_disabled_state-Balanced host provider mount off m v
  step-Balanced m lists_disks v = list_quota_disk_infos-Balanced host provider m v
  step-Balanced m lists_paths v = list_path_quota_infos-Balanced host provider m v

  -- From balanced books, and whatever the calls, the machine and the provider do: on every disk the
  -- sizes of the volumes add up to the allocated size, at most the capacity, and the allocatable
  -- size is the rest. No disk is over-committed.
  pub run-IsBalanced :
      (m : XfsQuotaManager W) (cs : List ManagerCall)
      → IsBalanced m.disk_quota_infos m.quotas
      → IsBalanced (run m cs).disk_quota_infos (run m cs).quotas
  unfolding run
  run-IsBalanced m [] v = v
  run-IsBalanced m (c ∷ cs) v = run-IsBalanced (step m c) cs (step-Balanced m c v)
