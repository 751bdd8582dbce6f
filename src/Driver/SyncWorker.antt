-- ===== src/Driver/SyncWorker.antt =====
-- csi-plugin/hostpath/syncworker.go: one round of the worker, over the quota manager of the node and
-- the API server, which is the parameter `Cluster`. The timer around the rounds is left out.
pub mod Orphans
pub mod Reports
use hostpathpv_plugin.Base.{
  ℕ, Bool, true, false, ◌||◌, not, Option, none, some, List, [], ◌∷◌, ◌++◌, map, GoString, GoMap,
  lookup, insert, has, str_eq, ◌==◌, if◌then◌else◌, ℤ, pos, eqb_ℤ, add_i64, sub_i64, to_i64, sort,
  Result, ok, err, Act,
}
use hostpathpv_plugin.Util.Host.{Host}
use hostpathpv_plugin.Util.Size.{round_off_bytes}
use hostpathpv_plugin.Quota.Types.{QuotaError, Quota, DiskQuotaInfo, PathQuotaInfo, QuotaProvider}
use hostpathpv_plugin.Quota.Manager.Restore
use hostpathpv_plugin.Quota.Manager.Restore.{QuotaManager}
use hostpathpv_plugin.Client.Volume.{
  ApiVolume, PvUsageInfo, PersistentVolume, get_host_path_pv_by_volume_id,
}
use hostpathpv_plugin.Client.Node.{
  ApiNode, DiskInfo, NodeUsageInfo, Node, to_host_path_node, disk_info_less,
}
use hostpathpv_plugin.Driver.MetaStore.{StoreError, ConfigMaps, list_meta_infos}

-- The requests of hostpathclient/client.go to the API server, and the readers of the annotations.
pub record Cluster (K : Type 0) : Type 0 where
  pub config_maps : ConfigMaps K
  pub get_volume : K → GoString → Option ApiVolume
  pub get_node : GoString → K → Result StoreError ApiNode
  pub patch_volume : GoString → PvUsageInfo → Act K StoreError (Unit {0})
  pub patch_node : GoString → NodeUsageInfo → Act K StoreError (Unit {0})
  pub read_volume_usage : GoString → Option PvUsageInfo
  pub read_node_usage : GoString → Option NodeUsageInfo
  pub decode : GoString → GoString

pub record SyncWorker (W K : Type 0) : Type 0 where
  pub node_name : GoString
  pub should_delete_vol_ids : List GoString
  pub last_sync_quota_info_cache : GoMap PathQuotaInfo
  pub last_node_usage_info : NodeUsageInfo
  pub quota_mng : QuotaManager W
  pub cluster_state : K

-- The errors of a round: of the API server, or a panic.
pub data SyncError : Type 0 where
  request_error : StoreError → SyncError
  panicked : SyncError

unfoldable pub should_update : GoMap PathQuotaInfo → PathQuotaInfo → Bool
should_update cache new = elim (lookup new.volume_id cache) [
  | none ↦ true
  | some old ↦
      not (str_eq new.path old.path)
      || (not (new.quota.hard_quota == old.quota.hard_quota)
          || not (new.quota.used == old.quota.used))
]

-- The disks compared place by place, as far as the old list goes; a shorter new list is a panic,
-- `none`. A disk's allocatable size is compared with itself.
unfoldable pub disks_differ : List DiskInfo → List DiskInfo → Option Bool
disks_differ [] new = some false
disks_differ (o ∷ old) [] = none
disks_differ (o ∷ old) (n ∷ new) =
    let later = disks_differ old new in
    if not (str_eq o.mount_point n.mount_point)
      || (not (eqb_ℤ (round_off_bytes o.used) (round_off_bytes n.used))
          || not (eqb_ℤ o.allocatable o.allocatable))
    then some true
    else later

unfoldable pub should_node_update : NodeUsageInfo → NodeUsageInfo → Option Bool
unfolding disks_differ
should_node_update old new =
    if not (eqb_ℤ old.capacity new.capacity)
      || (not (eqb_ℤ old.quota_size new.quota_size)
          || not (eqb_ℤ (round_off_bytes old.used) (round_off_bytes new.used)))
    then some true
    else disks_differ old.disk_status new.disk_status

-- What is reported of the disks: int64 sums, and the disks sorted.
unfoldable pub disk_report : DiskQuotaInfo → DiskInfo
disk_report disk = record {
  mount_point = disk.mount_point;
  capacity = to_i64 disk.capacity;
  quota_size = to_i64 disk.quota_size;
  used = to_i64 disk.used;
  allocatable = to_i64 disk.allocatable_size;
  disabled = disk.disabled;
}

abbrev add_up : (DiskQuotaInfo → ℕ) → List DiskQuotaInfo → ℤ → ℤ
add_up size [] total = total
add_up size (disk ∷ disks) total = add_up size disks (add_i64 total (to_i64 (size disk)))

unfoldable pub node_report : List DiskQuotaInfo → NodeUsageInfo
unfolding disk_report
node_report disks =
    let capacity = add_up (λ (d : DiskQuotaInfo). d.capacity) disks (pos 0) in
    let used = add_up (λ (d : DiskQuotaInfo). d.used) disks (pos 0) in
    record {
      capacity = capacity;
      quota_size = add_up (λ (d : DiskQuotaInfo). d.quota_size) disks (pos 0);
      used = used;
      available_size = sub_i64 capacity used;
      allocatable = add_up (λ (d : DiskQuotaInfo). d.allocatable_size) disks (pos 0);
      disk_status = sort disk_info_less (map disk_report disks);
    }

module _ {W K : Type 0} (host : Host W) (provider : QuotaProvider W) (cluster : Cluster K) where
  abbrev pub Worker : Type 0
  Worker = SyncWorker W K

  abbrev failed : Result QuotaError (Unit {0}) → Bool
  failed (ok u) = false
  failed (err e) = true

  -- Releasing volumes one after the other; those that fail are kept, in their order.
  unfoldable pub release_all : List GoString → QuotaManager W → List GoString × QuotaManager W
  release_all [] q = ([], q)
  release_all (id ∷ ids) q =
      let p = Restore.release host provider id q in
      let rest = release_all ids p.1 in ((if failed p.0 then id ∷ rest.0 else rest.0), rest.1)

  -- The volumes with a quota that the store does not list.
  unfoldable pub orphans : GoMap GoString → List PathQuotaInfo → List GoString
  orphans meta_infos [] = []
  orphans meta_infos (info ∷ infos) =
      let rest = orphans meta_infos infos in
      if has info.volume_id meta_infos then rest else info.volume_id ∷ rest

  abbrev pub Round : Type 0
  Round = Result SyncError (Unit {0}) × Worker

  abbrev pub clean_listed :
      List PathQuotaInfo → List GoString → Result StoreError (GoMap GoString) → Worker → Round
  clean_listed infos again (err e) s = (err (request_error e), s)
  clean_listed infos again (ok meta_infos) s =
      let p = release_all (orphans meta_infos infos) s.quota_mng in
      (ok tt, record s { quota_mng = p.1; should_delete_vol_ids = again ++ p.0 })

  unfoldable pub clean_orphan_quota_path : List PathQuotaInfo → Worker → Round
  unfolding release_all orphans
  clean_orphan_quota_path infos s =
      let p = release_all s.should_delete_vol_ids s.quota_mng in
      clean_listed infos p.0 (list_meta_infos cluster.config_maps s.cluster_state)
        (record s { quota_mng = p.1 })

  abbrev pub volume_patched :
      PathQuotaInfo → (Worker → Round) → Worker → Result StoreError (Unit {0}) × K → Round
  volume_patched info next s (ok u, k) = next (record s {
    cluster_state = k;
    last_sync_quota_info_cache = insert info.volume_id info s.last_sync_quota_info_cache;
  })
  volume_patched info next s (err e, k) = (err (request_error e), record s { cluster_state = k })

  -- The volume as it is found with the node's name, the path and the used size set.
  abbrev pub volume_synced :
      PathQuotaInfo → (Worker → Round) → Worker → Option (Option PersistentVolume) → Round
  volume_synced info next s none = (err panicked, s)
  volume_synced info next s (some none) = next s
  volume_synced info next s (some (some hpv)) = volume_patched info next s (
      cluster.patch_volume hpv.name
        (record {
          node_name = s.node_name;
          path = info.path;
          capacity = hpv.capacity;
          used = to_i64 info.quota.used;
        })
        s.cluster_state)

  unfoldable pub sync_quota_path_usage : List PathQuotaInfo → Worker → Round
  unfolding should_update
  sync_quota_path_usage [] s = (ok tt, s)
  sync_quota_path_usage (info ∷ infos) s =
      let skip = sync_quota_path_usage infos s in
      if should_update s.last_sync_quota_info_cache info
      then volume_synced info (sync_quota_path_usage infos) s (
          get_host_path_pv_by_volume_id cluster.read_volume_usage
            (cluster.get_volume s.cluster_state) info.volume_id)
      else skip

  -- The state of each disk set to what the node says; an error is only logged.
  unfoldable pub sync_disabled :
      GoMap (Unit {0}) → List DiskQuotaInfo → QuotaManager W → QuotaManager W
  sync_disabled disabled_disks [] q = q
  sync_disabled disabled_disks (disk ∷ disks) q =
      let set = λ (b : Bool). (Restore.disable host provider disk.mount_point b q).1 in
      sync_disabled disabled_disks disks (
        if has disk.mount_point disabled_disks
        then if disk.disabled then q else set true
        else if disk.disabled
        then set false
        else q)

  abbrev pub node_patched : NodeUsageInfo → Worker → Result StoreError (Unit {0}) × K → Round
  node_patched report s (ok u, k) =
      (ok tt, record s { cluster_state = k; last_node_usage_info = report })
  node_patched report s (err e, k) = (err (request_error e), record s { cluster_state = k })

  abbrev pub node_compared : NodeUsageInfo → Worker → Option Bool → Round
  node_compared report s none = (err panicked, s)
  node_compared report s (some false) = (ok tt, s)
  node_compared report s (some true) =
      node_patched report s (cluster.patch_node s.node_name report s.cluster_state)

  abbrev pub node_found : List DiskQuotaInfo → Worker → Result StoreError ApiNode → Round
  node_found disks s (err e) = (err (request_error e), s)
  node_found disks s (ok api_node) =
      let node = to_host_path_node cluster.read_node_usage cluster.decode api_node in
      let report = node_report disks in
      node_compared report
        (record s { quota_mng = sync_disabled node.disabled_disk disks s.quota_mng })
        (should_node_update s.last_node_usage_info report)

  unfoldable pub sync_node_quota_status : List DiskQuotaInfo → Worker → Round
  unfolding node_report should_node_update sync_disabled
  sync_node_quota_status disks s = node_found disks s (cluster.get_node s.node_name s.cluster_state)

  -- A list that cannot be read is empty for the rest of the round.
  abbrev pub listed : {A : Type 0} → Result QuotaError (List A) → List A
  listed (ok xs) = xs
  listed (err e) = []

  abbrev pub survived : Round → Option Worker
  survived (ok u, s) = some s
  survived (err (request_error e), s) = some s
  survived (err panicked, s) = none

  -- A round: the errors of its parts are logged, and a panic, `none`, ends the program.
  unfoldable pub populator_loop : Worker → Option Worker
  unfolding clean_orphan_quota_path sync_quota_path_usage sync_node_quota_status
  populator_loop s =
      let paths = Restore.list_paths host provider s.quota_mng in
      let infos = listed paths.0 in
      elim (survived (clean_orphan_quota_path infos (record s { quota_mng = paths.1 }))) [
        | none ↦ none
        | some s1 ↦ elim (survived (sync_quota_path_usage infos s1)) [
          | none ↦ none
          | some s2 ↦
              let disks = Restore.list_disks host provider s2.quota_mng in
              survived (sync_node_quota_status (listed disks.0) (record s2 { quota_mng = disks.1 }))
        ]
      ]
