-- ===== src/Quota/Provider/Limits.antt =====
-- Which limits the kernel ends up with (quotaProvider/quota_xfs.go).
use hostpathpv_plugin.Base.{
  ℕ, ◌<◌, ◌≤◌, ◌≡◌, ◌&&◌, ◌==◌, false, str_eq, refl, some, GoString, lookup, word, ok,
}
use hostpathpv_plugin.Quota.Kernel
use hostpathpv_plugin.Quota.Kernel.{Kernel, FsDiskQuota, basic_block_size}
use hostpathpv_plugin.Quota.Kernel.ReadBack.{ReadsBack, HasLimits}
use hostpathpv_plugin.Quota.ProjectId
use hostpathpv_plugin.Quota.ProjectId.{Bitmap, ProjectIdRange}
use hostpathpv_plugin.Quota.Provider.{ProviderState, get_project_quota, set_project_quota}

module _ {K A : Type 0} (k : Kernel K) (b : Bitmap A) (r : ProjectIdRange) where
  -- A directory that has a project number keeps the limits that it has: the call reports success
  -- and changes neither the kernel nor the provider.
  pub set_project_quota_again :
      (path device : GoString) (id hard soft : ℕ) (s : ProviderState K A)
      → lookup path s.quota_path_and_id ≡ some id
      → set_project_quota k b r path device hard soft s ≡ (ok tt, s)
  unfolding set_project_quota
  set_project_quota_again path device id hard soft s old = rw (old, set_project_quota) refl

module _ {K A : Type 0} (k : Kernel K) (b : Bitmap A) (r : ProjectIdRange)
    (limits : GoString → ℕ → K → ℕ × ℕ) (laws : ReadsBack k limits) (path device : GoString)
    (hard soft : ℕ) (small : hard < word) (ordered : soft ≤ hard)
    (block : basic_block_size ≤ soft) where
  -- The directory has a number and the limits asked for, and the other projects have theirs still.
  abbrev pub InForce : ProviderState K A → ProviderState K A → Type 0
  InForce s t =
      (id : ℕ) × (lookup path t.quota_path_and_id ≡ some id)
      × HasLimits (get_project_quota k b r path device t).0 hard soft
      × ((d : GoString) (j : ℕ)
          → (str_eq device d && (id == j)) ≡ false
          → limits d j t.kernel ≡ limits d j s.kernel)
