-- ===== src/Scheduler/Scores.antt =====
-- extender-scheduler/scheduler/prioritize/hostpath_diskusage.go: the scores of the nodes. The nodes
-- are scored by goroutines, each in a place of its own; here they are scored in the list's order.
-- `out_of_range` is what the machine makes of a float64 that is no int64, which Go leaves open.
pub mod Reference
use hostpathpv_plugin.Base.{
  ℕ, zero, suc, ◌+◌, ◌*◌, ◌/◌, ◌^◌, ◌<◌, Bool, true, false, ◌||◌, not, Option, List, [], ◌∷◌, map,
  GoString, ltb, leb, if◌then◌else◌, ℤ, pos, negsuc, sub_ℕ, ltb_ℤ, leb_ℤ, sub_i64,
}
use hostpathpv_plugin.Util.Float.{Float, of_int, times, over, truncated}
use hostpathpv_plugin.Client.Node.{
  ApiNode, NodeUsageInfo, Node, is_host_path_node, to_host_path_node,
}

abbrev pub default_node_score : ℤ
default_node_score = pos 100

-- schedulerapi.HostPriority
pub record HostPriority : Type 0 where
  pub host : GoString
  pub score : ℤ

-- Whether all nodes are host-path nodes.
unfoldable pub has_host_path : List ApiNode → Bool
has_host_path [] = true
has_host_path (node ∷ nodes) =
    let rest = has_host_path nodes in if not (is_host_path_node node) then false else rest

unfoldable pub max_count : List HostPriority → ℤ → ℤ
max_count [] best = best
max_count (p ∷ ps) best = max_count ps (if ltb_ℤ best p.score then p.score else best)

module _ (out_of_range : ℤ) where
  -- int64(f), for a magnitude and its sign
  abbrev pub int64_of : (ℕ → ℤ) → Float → ℤ
  int64_of signed f = if ltb (truncated f) (2 ^ 63) then signed (truncated f) else out_of_range

  -- int64((float64(100) * float64(left)) / float64(capacity)), for a capacity that is positive
  unfoldable pub percent_left : ℤ → ℕ → ℤ
  percent_left (pos left) capacity =
      int64_of pos (over (times (of_int 100) (of_int left)) (of_int capacity))
  percent_left (negsuc n) capacity =
      int64_of (sub_ℕ 0) (over (times (of_int 100) (of_int (suc n))) (of_int capacity))

  abbrev usage_score : ℤ → ℤ → ℤ
  usage_score (negsuc n) allocated = pos 0
  usage_score (pos capacity) allocated =
      if leb_ℤ (pos capacity) (pos 0) || leb_ℤ (pos capacity) allocated
      then pos 0
      else percent_left (sub_i64 (pos capacity) allocated) capacity

  module _ (read_usage : GoString → Option NodeUsageInfo) (decode : GoString → GoString) where
    abbrev usage_of : ApiNode → NodeUsageInfo
    usage_of node = (to_host_path_node read_usage decode node).disk_usage

    unfoldable pub map_scoring_node : Bool → ApiNode → HostPriority
    unfolding percent_left
    map_scoring_node host_path node = record {
      host = node.name;
      score =
          if not host_path
          then default_node_score
          else usage_score (usage_of node).capacity (usage_of node).quota_size;
    }

  -- int64(10 * (float64(score) / float64(best))), for a best score that is positive
  unfoldable pub tenths : ℤ → ℕ → ℤ
  tenths (pos score) best = int64_of pos (times (of_int 10) (over (of_int score) (of_int best)))
  tenths (negsuc n) best =
      int64_of (sub_ℕ 0) (times (of_int 10) (over (of_int (suc n)) (of_int best)))

  abbrev pub rescaled : ℤ → HostPriority → HostPriority
  rescaled (pos zero) p = record p { score = pos 0 }
  rescaled (pos (suc n)) p = record p { score = tenths p.score (suc n) }
  rescaled (negsuc n) p = record p { score = pos 0 }

  unfoldable pub reduce_scoring_node : Bool → List HostPriority → List HostPriority
  unfolding max_count tenths
  reduce_scoring_node host_path ps =
      if not host_path then ps else map (rescaled (max_count ps (pos 0))) ps

  unfoldable pub score_nodes :
      (GoString → Option NodeUsageInfo) → (GoString → GoString) → List ApiNode → List HostPriority
  unfolding map_scoring_node reduce_scoring_node has_host_path
  score_nodes read_usage decode nodes =
      reduce_scoring_node (has_host_path nodes)
        (map (map_scoring_node read_usage decode (has_host_path nodes)) nodes)
