-- ===== src/Scheduler/Predicate.antt =====
-- extender-scheduler/scheduler/predicate: hostpathpv_disk_pressure.go, the filter of nodes, and the
-- handler of predicate.go. The cached volumes are the informer's store.
pub mod Room
pub mod Bound
use hostpathpv_plugin.Base.{
  ℕ, Bool, true, false, Option, none, some, List, [], ◌∷◌, ◌++◌, GoString, GoMap, insert, str_eq,
  is_empty, not, ◌||◌, if◌then◌else◌, ℤ, pos, leb_ℤ, ltb_ℤ, eqb_ℤ, add_i64, sub_i64, sort, Result,
  ok, err,
}
use hostpathpv_plugin.Client.Volume.{PersistentVolume}
use hostpathpv_plugin.Client.Node.{DiskInfo, Node}
use hostpathpv_plugin.Client.Control.{get_persistent_volume_by_claim}

-- A volume of a pod is the name of its claim, if it is one of a claim.
pub record Pod : Type 0 where
  pub name : GoString
  pub namespace : GoString
  pub volumes : List (Option GoString)

-- The requests that are left when as many as possible, in their order, are taken from the free size.
unfoldable pub fill : ℤ → List ℤ → List ℤ
fill free [] = []
fill free (r ∷ rs) = let rest = fill (sub_i64 free r) rs in if leb_ℤ r free then rest else r ∷ rs

abbrev no_requests : List ℤ → Bool
no_requests [] = true
no_requests (r ∷ rs) = false

unfoldable pub match_disks : List ℤ → List DiskInfo → Bool
unfolding fill
match_disks rs [] = no_requests rs
match_disks rs (d ∷ ds) = match_disks (fill d.allocatable rs) ds

-- The largest request first, and the disks in the order of the list; whether a disk is disabled is
-- not looked at.
unfoldable pub can_node_match : List ℤ → List DiskInfo → Bool
unfolding match_disks
can_node_match requests have_now = match_disks (sort (λ a b. ltb_ℤ b a) requests) have_now

-- What the loop over the volumes of a pod ends with: a refusal, or the size and the list of the
-- requests.
abbrev Requests : Type 0
Requests = Option (ℤ × List ℤ)

abbrev one_volume :
    Node → Option PersistentVolume → (ℤ × List ℤ) → ((ℤ × List ℤ) → Requests) → Requests
one_volume node none acc next = none
one_volume node (some pv) acc next =
    if not pv.is_host_path_pv
    then next acc
    else if not node.host_path_node
    then none
    else if not (is_empty pv.bind_node)
    then if not (str_eq pv.bind_node node.name) then none else next acc
    else next (add_i64 acc.0 pv.capacity, acc.1 ++ (pv.capacity ∷ []))

unfoldable pub collect_requests :
    List PersistentVolume → GoString → Node → List (Option GoString) → (ℤ × List ℤ) → Requests
unfolding get_persistent_volume_by_claim
collect_requests pvs namespace node [] acc = some acc
collect_requests pvs namespace node (none ∷ volumes) acc =
    collect_requests pvs namespace node volumes acc
collect_requests pvs namespace node (some claim ∷ volumes) acc =
    one_volume node (get_persistent_volume_by_claim pvs claim namespace) acc
      (collect_requests pvs namespace node volumes)

abbrev decide : Node → Requests → Bool
decide node none = false
decide node (some (size, requests)) =
    if eqb_ℤ size (pos 0) || no_requests requests
    then true
    else can_node_match requests node.disk_usage.disk_status

-- The filter never reports an error.
unfoldable pub filter_node : List PersistentVolume → Pod → Node → Bool
unfolding collect_requests can_node_match
filter_node pvs pod node =
    decide node (collect_requests pvs pod.namespace node pod.volumes (pos 0, []))

-- The handler over any predicate: nodes are given by name.
pub record FilterResult : Type 0 where
  pub can_schedule : List GoString
  pub failed_nodes : GoMap GoString

module _ {N : Type 0} (name_of : N → GoString) (filter : N → Result GoString Bool) where
  abbrev sorted_out : N → Result GoString Bool → FilterResult → FilterResult
  sorted_out node (ok true) r = record r { can_schedule = r.can_schedule ++ (name_of node ∷ []) }
  sorted_out node (ok false) r = r
  sorted_out node (err e) r = record r { failed_nodes = insert (name_of node) e r.failed_nodes }

  abbrev sort_out : List N → FilterResult → FilterResult
  sort_out [] r = r
  sort_out (node ∷ nodes) r = sort_out nodes (sorted_out node (filter node) r)

  -- A node that is refused without an error is in neither part.
  unfoldable pub handler : List N → FilterResult
  handler nodes = sort_out nodes (record { can_schedule = []; failed_nodes = [] })
