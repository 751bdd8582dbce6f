-- ===== src/Quota/Manager/Service/Expansion.antt =====
-- Expanding a volume over the provider of quotaProvider/quota_xfs.go: the manager's
-- `ExpandVolume` (quota-manager/quotamanager_xfs.go) and the provider's `SetProjectQuota` together.
use hostpathpv_plugin.Base.{
  ℕ, ◌≡◌, refl, ap, Option, none, some, GoString, lookup, ℤ, to_u64, Bool-cases, inl, inr, ltb,
  sub64,
}
use hostpathpv_plugin.Util.Host.{Host}
use hostpathpv_plugin.Quota.Types.{DiskQuotaInfo, PathQuotaInfo}
use hostpathpv_plugin.Quota.Kernel.{Kernel}
use hostpathpv_plugin.Quota.ProjectId.{Bitmap, ProjectIdRange}
use hostpathpv_plugin.Quota.Provider.{ProviderState, xfs_provider}
use hostpathpv_plugin.Quota.Provider.Limits.{set_project_quota_again}
use hostpathpv_plugin.Quota.Manager.{
  XfsQuotaManager, expand_volume, expand_on, after_expansion, on_world, enter_expansion,
}

module _ {K A : Type 0} (k : Kernel K) (b : Bitmap A) (r : ProjectIdRange)
    (host : Host (ProviderState K A)) where
  expand_on-world :
      (volume : GoString) (size id : ℕ) (info : PathQuotaInfo) (d : Option DiskQuotaInfo)
      (m : XfsQuotaManager (ProviderState K A))
      → lookup info.path m.world.quota_path_and_id ≡ some id
      → (expand_on host (xfs_provider k b r) volume size info d m).1.world ≡ m.world
  unfolding enter_expansion
  expand_on-world volume size id info none m e = refl
  expand_on-world volume size id info (some disk) m e =
      elim (Bool-cases (ltb size info.quota.hard_quota)) [
        | inl less ↦ rw less refl
        | inr more ↦
            rw more
              (elim (Bool-cases (ltb disk.allocatable_size (sub64 size info.quota.hard_quota))) [
                | inl full ↦ rw full refl
                | inr room ↦ rw room (
                    ap
                      (λ p.
                        (after_expansion host (xfs_provider k b r) volume size info disk
                          (on_world host (xfs_provider k b r) m p)).1.world)
                      (set_project_quota_again k b r info.path info.device_name id size size m.world
                        e))
              ])
      ]

  -- Expanding a known volume whose directory has a cached project number changes nothing in the
  -- kernel or in the provider, whatever the answer: also when the caches enter the new size, the
  -- kernel keeps the old limit.
  pub expand_volume_keeps_world :
      (volume : GoString) (capacity : ℤ) (info : PathQuotaInfo) (id : ℕ)
      (m : XfsQuotaManager (ProviderState K A))
      → lookup volume m.quotas ≡ some info
      → lookup info.path m.world.quota_path_and_id ≡ some id
      → (expand_volume host (xfs_provider k b r) volume capacity m).1.world ≡ m.world
  unfolding expand_volume
  expand_volume_keeps_world volume capacity info id m there numbered =
      rw (there, expand_volume)
        (expand_on-world volume (to_u64 capacity) id info
          (lookup info.device_name m.disk_quota_infos) m numbered)
