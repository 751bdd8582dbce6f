-- ===== src/Examples/Workers.antt =====
-- The node's worker at work.
use hostpathpv_plugin.Base.{
  ℕ, ◌≡◌, refl, true, false, none, some, [], ◌∷◌, codes, GoString, GoMap, lookup, str_eq, pos, ok,
  err, ◌⊎◌,
}
use hostpathpv_plugin.Quota.Types.{PathQuotaInfo}
use hostpathpv_plugin.Quota.Manager.Restore.{xfs_manager}
use hostpathpv_plugin.Client.Node.{no_node_usage, NodeUsageInfo}
use hostpathpv_plugin.Driver.MetaStore.{list_meta_infos, request_failed}
use hostpathpv_plugin.Driver.Node.Volumes.{quota_of}
use hostpathpv_plugin.Driver.SyncWorker.{
  should_node_update, Cluster, SyncWorker, clean_orphan_quota_path,
}
use hostpathpv_plugin.Driver.SyncWorker.Orphans.{
  is_in, clean_orphan_quota_path-spares, clean_orphan_quota_path-removes,
}
use hostpathpv_plugin.Driver.SyncWorker.Reports.{should_node_update_blind}
use hostpathpv_plugin.Examples.Controllers.{maps}
use hostpathpv_plugin.Examples.Machine.{World, host, provider, sdb1}
use hostpathpv_plugin.Examples.Managers.{in_use, v1_path}
use hostpathpv_plugin.Examples.Servers.{api_volume}

abbrev pub cluster : Cluster (GoMap GoString)
cluster = record {
  config_maps = maps;
  get_volume = λ k n. some api_volume;
  get_node = λ n k. err request_failed;
  patch_volume = λ n u k. (ok tt, k);
  patch_node = λ n u k. (ok tt, k);
  read_volume_usage = λ t. none;
  read_node_usage = λ t. none;
  decode = λ t. t;
}

abbrev pub worker : SyncWorker World (GoMap GoString)
worker = record {
  node_name = codes "n1";
  should_delete_vol_ids = codes "v0" ∷ [];
  last_sync_quota_info_cache = [];
  last_node_usage_info = no_node_usage;
  quota_mng = xfs_manager in_use;
  cluster_state = (codes "v1", []) ∷ [];
}

abbrev report : PathQuotaInfo
report = record {
  path = v1_path;
  device_name = sdb1;
  quota = record { hard_quota = 3000000; soft_quota = 3000000; used = 0 };
  last_sync = 5;
  volume_id = codes "v1";
}

clean_orphan_quota_path-spares_example :
    quota_of
      (codes "v1")
      (clean_orphan_quota_path host provider cluster (report ∷ []) worker).1.quota_mng
    ≡ quota_of (codes "v1") worker.quota_mng
unfolding list_meta_infos lookup str_eq
clean_orphan_quota_path-spares_example =
    clean_orphan_quota_path-spares host provider cluster (codes "v1") (report ∷ [])
      ((codes "v1", []) ∷ []) worker refl refl (refl, tt)

clean_orphan_quota_path-removes_example :
    let t =
      (clean_orphan_quota_path host provider cluster
        (report ∷ [])
        (record worker { cluster_state = [] })).1 in
    (quota_of (codes "v1") t.quota_mng ≡ none) ⊎ (is_in (codes "v1") t.should_delete_vol_ids ≡ true)
unfolding list_meta_infos lookup str_eq
clean_orphan_quota_path-removes_example =
    clean_orphan_quota_path-removes host provider cluster (codes "v1") (report ∷ []) []
      (record worker { cluster_state = [] }) refl refl refl

abbrev one_disk : ℕ → NodeUsageInfo
one_disk n = record no_node_usage {
  disk_status =
      record {
        mount_point = codes "/xfs/disk1";
        capacity = pos 100;
        quota_size = pos 0;
        used = pos 0;
        allocatable = pos n;
        disabled = false;
      }
      ∷ [];
}

should_node_update_blind_example : should_node_update (one_disk 100) (one_disk 7) ≡ some false
should_node_update_blind_example =
    should_node_update_blind (one_disk 100) (one_disk 7) refl refl refl (refl, refl, tt)
