-- ===== src/Examples/Nodes.antt =====
-- The filter of nodes at work.
use mathlib.Core.List.{Perm}
use hostpathpv_plugin.Base.{
  sub_i64, ℕ, refl, true, false, some, List, [], ◌∷◌, map, arith, codes, str_eq, pos, sort,
  insert_sorted, inl,
}
use hostpathpv_plugin.Client.Volume.{PersistentVolume, persistent_volume_key}
use hostpathpv_plugin.Client.Node.{DiskInfo, Node, no_node_usage}
use hostpathpv_plugin.Client.Control.{get_persistent_volume_by_claim}
use hostpathpv_plugin.Scheduler.Predicate.{
  Pod, fill, match_disks, can_node_match, collect_requests, filter_node,
}
use hostpathpv_plugin.Scheduler.Predicate.Room.{EachFits, concat, can_node_match-EachFits}
use hostpathpv_plugin.Scheduler.Predicate.Bound.{Suits, filter_node-Suits}

abbrev disk_with : ℕ → DiskInfo
disk_with n = record {
  mount_point = codes "/xfs/disk1";
  capacity = pos 100;
  quota_size = pos 0;
  used = pos 0;
  allocatable = pos n;
  disabled = false;
}

can_node_match-EachFits_example :
    (gs : List (List ℕ)) × Perm (map pos (concat gs)) (pos 3 ∷ pos 5 ∷ [])
    × EachFits gs (disk_with 5 ∷ disk_with 4 ∷ [])
unfolding can_node_match match_disks fill sort insert_sorted sub_i64
can_node_match-EachFits_example =
    can_node_match-EachFits (pos 3 ∷ pos 5 ∷ []) (disk_with 5 ∷ disk_with 4 ∷ []) (refl, (refl, tt))
      (omega arith, (omega arith, tt)) refl

abbrev node : Node
node = record {
  version = codes "1";
  name = codes "n1";
  namespace = [];
  host_path_node = true;
  disk_usage = no_node_usage;
  disabled_disk = [];
  ready = codes "Ready";
}

abbrev bound_volume : PersistentVolume
bound_volume = record {
  version = codes "1";
  name = codes "pvc-17";
  namespace = [];
  index = codes "default/claim";
  vol_id = codes "id";
  is_host_path_pv = true;
  bind_node = codes "n1";
  ephemeral = true;
  capacity = pos 3000000;
  volume_path = [];
  usage = pos 0;
}

abbrev pod : Pod
pod = record { name = codes "p"; namespace = codes "default"; volumes = some (codes "claim") ∷ [] }

filter_node-Suits_example : Suits bound_volume node
unfolding filter_node collect_requests get_persistent_volume_by_claim persistent_volume_key str_eq
filter_node-Suits_example =
    filter_node-Suits (bound_volume ∷ []) pod node (codes "claim") bound_volume (inl refl) refl refl
      refl
