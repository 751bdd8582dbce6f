-- ===== src/Examples/Quotas.antt =====
-- The project numbers, the quotas of directories and their names at work.
use hostpathpv_plugin.Base.{
  ℕ, ◌≤◌, ◌<◌, ◌≡◌, refl, true, false, List, [], ◌∷◌, arith, codes, GoString, lookup, clean,
  join_path, index_of, join_with, split_at, str_eq, if◌then◌else◌, ◌==◌, ok,
}
use hostpathpv_plugin.Quota.Kernel
use hostpathpv_plugin.Quota.ProjectId
use hostpathpv_plugin.Quota.ProjectId.{has}
use hostpathpv_plugin.Quota.ProjectId.Fresh.{allocate_next-fresh}
use hostpathpv_plugin.Quota.Provider.Numbers.{
  ProviderCall, sets, gets, deletes, run, run-IsConsistent,
}
use hostpathpv_plugin.Quota.Provider.Consistent.{IsConsistent}
use hostpathpv_plugin.Quota.Naming.{get_quota_path_name, parse_quota_path_info_from_dir_name}
use hostpathpv_plugin.Quota.Naming.RoundTrip.{parse-join_path}
use hostpathpv_plugin.Examples.Machine.{
  machine_kernel, four_numbers, four_numbers-BitmapLaws, numbers, fresh_world, disk1, sdb1,
}

abbrev path : GoString
path = codes "/xfs/disk1/k8squota_v1"

allocate_next-fresh_example :
    (100 ≤ 103)
    × (103 < 104)
    × (has four_numbers numbers 103 fresh_world.bitmap ≡ false)
    × ((j : ℕ)
        → has four_numbers numbers j
            (ProjectId.allocate_next four_numbers numbers fresh_world.bitmap).1
          ≡ (if 103 == j then true else has four_numbers numbers j fresh_world.bitmap))
unfolding ProjectId.allocate_next
allocate_next-fresh_example =
    allocate_next-fresh four_numbers numbers four_numbers-BitmapLaws (omega arith)
      fresh_world.bitmap 103 refl

empty-IsConsistent : IsConsistent four_numbers numbers fresh_world.bitmap []
unfolding lookup
empty-IsConsistent = record {
  taken = λ p id e. absurd (ground arith);
  distinct = λ p q id e f. absurd (ground arith);
}

abbrev calls : List ProviderCall
calls = sets path sdb1 5000 5000 ∷ gets path sdb1 ∷ deletes path ∷ []

run-IsConsistent_example :
    IsConsistent four_numbers numbers
      (run machine_kernel four_numbers numbers fresh_world calls).bitmap
      (run machine_kernel four_numbers numbers fresh_world calls).quota_path_and_id
run-IsConsistent_example =
    run-IsConsistent machine_kernel four_numbers numbers four_numbers-BitmapLaws (omega arith)
      fresh_world calls empty-IsConsistent

parse-join_path_example :
    parse_quota_path_info_from_dir_name (join_path disk1 (get_quota_path_name (codes "v1")))
    ≡ ok (codes "v1")
unfolding index_of clean join_with split_at get_quota_path_name str_eq
parse-join_path_example = parse-join_path disk1 (codes "v1") (λ h. ground arith) refl refl
