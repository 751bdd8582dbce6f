-- ===== src/Examples/Managers.antt =====
-- The quota manager at work on the machine.
use hostpathpv_plugin.Base.{
  ◌≡◌, refl, false, some, List, [], ◌∷◌, arith, codes, GoString, lookup, insert, str_eq, str_eq_iff,
  clean, join_path, index_of, join_with, split_at, sort, pos, to_u64, add64, sub64, mul64, ok,
  subst, insert_sorted, has_prefix, total, sym,
}
use hostpathpv_plugin.Util.Host
use hostpathpv_plugin.Util.Host.{Host}
use hostpathpv_plugin.Quota.Types.{DiskQuotaInfo}
use hostpathpv_plugin.Quota.Kernel
use hostpathpv_plugin.Quota.ProjectId
use hostpathpv_plugin.Quota.Provider
use hostpathpv_plugin.Quota.Naming
use hostpathpv_plugin.Quota.Manager.{
  XfsQuotaManager, available_disks, item_less, with_quota_size, allocate_new_quota_dir,
  enter_volume, get_volume_quota_path, expand_volume, release_volume_path,
}
use hostpathpv_plugin.Quota.Manager.Balance.{IsBalanced, IsAccurate}
use hostpathpv_plugin.Quota.Manager.Allocation.{Picks, allocate_new_quota_dir_best}
use hostpathpv_plugin.Quota.Manager.Service.{
  ManagerCall, gets, expands, releases, lists_disks, run, run-IsBalanced,
}
use hostpathpv_plugin.Quota.Manager.Service.Answers.{
  Expanded, Released, get_volume_quota_path-again, expand_volume_books, release_volume_path_books,
}
use hostpathpv_plugin.Quota.Manager.Service.Expansion.{expand_volume_keeps_world}
use hostpathpv_plugin.Quota.Manager.Restore.{
  restore_quota_info, load_disks, load_paths, load_volumes, enter_disk, enter_path,
}
use hostpathpv_plugin.Quota.Manager.Restore.Sizes.{restore-unbalanced}
use hostpathpv_plugin.Examples.Machine.{
  World, host, provider, machine_kernel, four_numbers, numbers, fresh_world, used_world, root,
  disk1, sdb1,
}

abbrev v1 : GoString
v1 = codes "v1"

abbrev pub disk : DiskQuotaInfo
disk = record {
  device_name = sdb1;
  mount_point = disk1;
  capacity = 4096000;
  used = 0;
  quota_size = 0;
  allocatable_size = 4096000;
  disabled = false;
  last_sync = 0;
}

-- One disk, no volume.
abbrev pub idle : XfsQuotaManager World
idle = record {
  quota_root_path = root;
  disk_quota_infos = (sdb1, disk) ∷ [];
  quotas = [];
  max_cache_time = 60;
  world = fresh_world;
}

only_disk :
    (device : GoString) (d : DiskQuotaInfo)
    → lookup device idle.disk_quota_infos ≡ some d
    → (device ≡ sdb1) × (d ≡ disk)
unfolding lookup
only_disk device d e = ground (arith, str_eq_iff sdb1 device)

disk-IsAccurate : IsAccurate sdb1 disk []
unfolding total
disk-IsAccurate = record {
  named = refl;
  fits = omega arith;
  in_word = omega arith;
  counted = refl;
  rest_free = refl;
}

pub idle-IsBalanced : IsBalanced idle.disk_quota_infos idle.quotas
unfolding lookup
idle-IsBalanced = record {
  disk_map = (refl, tt);
  quota_map = tt;
  accurate = λ device d e.
      let (one, same) = only_disk device d e in
      subst (λ k. IsAccurate k d []) (sym one)
        (subst (λ x. IsAccurate sdb1 x []) (sym same) disk-IsAccurate);
}

abbrev calls : List ManagerCall
calls = gets v1 (pos 3000000) ∷ expands v1 (pos 4000000) ∷ lists_disks ∷ releases v1 ∷ []

run-IsBalanced_example :
    IsBalanced (run host provider idle calls).disk_quota_infos (run host provider idle calls).quotas
run-IsBalanced_example = run-IsBalanced host provider idle calls idle-IsBalanced

allocate_new_quota_dir_best_example :
    Picks host provider v1 3000000 idle (allocate_new_quota_dir host provider v1 3000000 idle)
allocate_new_quota_dir_best_example =
    allocate_new_quota_dir_best host provider v1 3000000 idle idle-IsBalanced.disk_map
      (λ k d e. (idle-IsBalanced.accurate k d e).named)

abbrev pub v1_path : GoString
v1_path = codes "/xfs/disk1/k8squota_v1"

get_volume_quota_path-again_example :
    get_volume_quota_path host provider v1
      (pos 7)
      (get_volume_quota_path host provider v1 (pos 3000000) idle).1
    ≡ (ok v1_path, (get_volume_quota_path host provider v1 (pos 3000000) idle).1)
unfolding get_volume_quota_path lookup sort to_u64 Host.is_path_exist str_eq join_path
    Naming.get_quota_path_name clean join_with split_at Host.mk_dir Provider.set_project_quota
    ProjectId.allocate_next Kernel.set_project_id insert Kernel.set_project_quota insert_sorted
    add64 sub64 allocate_new_quota_dir available_disks enter_volume item_less with_quota_size
    ProjectId.contains
get_volume_quota_path-again_example =
    get_volume_quota_path-again host provider v1 v1_path (pos 3000000) (pos 7) idle refl

-- With one volume of three megabytes.
abbrev pub in_use : XfsQuotaManager World
in_use = record idle {
  disk_quota_infos = (sdb1, record disk { quota_size = 3000000; allocatable_size = 1096000 }) ∷ [];
  quotas =
      (
        v1,
        record {
          path = v1_path;
          device_name = sdb1;
          quota = record { hard_quota = 3000000; soft_quota = 3000000; used = 0 };
          last_sync = 5;
          volume_id = v1;
        },
      )
      ∷ [];
  world = record fresh_world { quota_path_and_id = (v1_path, 103) ∷ [] };
}

expand_volume_books_example :
    Expanded host provider v1 4000000 in_use (expand_volume host provider v1 (pos 4000000) in_use)
unfolding to_u64
expand_volume_books_example = expand_volume_books host provider v1 (pos 4000000) in_use

release_volume_path_books_example :
    Released host provider v1 in_use (release_volume_path host provider v1 in_use)
release_volume_path_books_example = release_volume_path_books host provider v1 in_use

expand_volume_keeps_world_example :
    (expand_volume host provider v1 (pos 4000000) in_use).1.world ≡ in_use.world
unfolding lookup str_eq
expand_volume_keeps_world_example =
    expand_volume_keeps_world machine_kernel four_numbers numbers host v1 (pos 4000000) _ 103 in_use
      refl refl

-- A start on a disk that has a volume.
abbrev before : XfsQuotaManager World
before = record {
  quota_root_path = root;
  disk_quota_infos = [];
  quotas = [];
  max_cache_time = 60;
  world = used_world;
}

abbrev after : XfsQuotaManager World
after = (restore_quota_info host provider before).1

restore-unbalanced_example : ¬ IsBalanced after.disk_quota_infos after.quotas
unfolding lookup restore_quota_info Host.get_sub_dirs str_eq clean join_with split_at
    Host.is_mount_point Host.get_dev_for_path Provider.get_quota_disk_info insert
    Naming.get_disk_quota_disable_state Naming.set_quota_disk_disable_state
    Naming.parse_quota_path_info_from_dir_name index_of Provider.get_project_quota
    Kernel.get_project_id has_prefix add64 mul64 sub64 Kernel.get_project_quota enter_disk
    enter_path load_disks load_paths load_volumes Naming.format_bool Naming.parse_bool
    ProjectId.allocate ProjectId.contains Host.decimal Host.fields total
restore-unbalanced_example =
    restore-unbalanced host provider before sdb1
      (record disk { quota_size = 1048576; last_sync = 6 }) refl refl (omega arith)
