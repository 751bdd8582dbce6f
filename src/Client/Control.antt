-- ===== src/Client/Control.antt =====
-- pkg/hostpathclient/controller.go: the look-ups in the caches of the scheduler, the requests that
-- bind, and the wait for the caches. A cache is the list that the store gives: `List`, or `ByIndex`
-- under an index value; the API server is the parameter `BindingApi`.
pub mod Synced
use hostpathpv_plugin.Base.{
  ℕ, zero, suc, Bool, not, ◌&&◌, Option, none, some, List, [], ◌∷◌, ◌++◌, codes, GoString, str_eq,
  is_empty, if◌then◌else◌, Result, ok, err, Act,
}
use hostpathpv_plugin.Client.Volume.{PersistentVolume, persistent_volume_key}
use hostpathpv_plugin.Client.Node.{Node}
use hostpathpv_plugin.Client.Pod.{Pod}
use hostpathpv_plugin.Client.Patch.{get_host_path_pv_bind_node_patch_bytes}

-- The index functions: the values under which `ByIndex` finds an object.
unfoldable pub pod_namespace_index_func : Pod → List GoString
pod_namespace_index_func p = p.namespace ∷ []

unfoldable pub pv_claim_name_namespace_index_func : PersistentVolume → List GoString
pv_claim_name_namespace_index_func p = p.index ∷ []

-- The first pod under the namespace with the name.
unfoldable pub get_pod : List Pod → GoString → GoString → Option Pod
get_pod [] name namespace = none
get_pod (p ∷ ps) name namespace =
    let later = get_pod ps name namespace in
    if str_eq p.namespace namespace && str_eq p.name name then some p else later

unfoldable pub get_node : List Node → GoString → Option Node
get_node [] name = none
get_node (n ∷ ns) name =
    let later = get_node ns name in if str_eq n.name name then some n else later

-- The first volume under the key of the claim.
unfoldable pub get_persistent_volume_by_claim :
    List PersistentVolume → GoString → GoString → Option PersistentVolume
get_persistent_volume_by_claim [] name namespace = none
get_persistent_volume_by_claim (pv ∷ pvs) name namespace =
    let later = get_persistent_volume_by_claim pvs name namespace in
    if str_eq pv.index (persistent_volume_key name namespace) then some pv else later

pub record Binding : Type 0 where
  pub namespace : GoString
  pub name : GoString
  pub uid : GoString
  pub node : GoString

pub data ApiError : Type 0 where
  request_refused : ApiError

-- A JSON patch of a volume, and the binding of a pod in a namespace.
pub record BindingApi (K : Type 0) : Type 0 where
  pub patch_volume : GoString → GoString → Act K ApiError (Unit {0})
  pub post_binding : GoString → Binding → Act K ApiError (Unit {0})

module _ {K : Type 0} (api : BindingApi K) where
  unfoldable pub bind_host_path_pv : GoString → GoString → Act K ApiError (Unit {0})
  bind_host_path_pv pv_name node_name =
      api.patch_volume pv_name (get_host_path_pv_bind_node_patch_bytes node_name)

  unfoldable pub bind_pod : Pod → GoString → Act K ApiError (Unit {0})
  bind_pod pod node_name =
      api.post_binding pod.namespace
        (record { namespace = pod.namespace; name = pod.name; uid = pod.uid; node = node_name })

-- The field selector of the pods that are listed and watched.
unfoldable pub pending_selector : GoString → GoString
pending_selector selector =
    (if is_empty selector then [] else selector ++ codes ",") ++ codes "status.phase==Pending"

-- What wakes the wait: the timeout of a minute, or a tick, at which each of the three informers has
-- synced or not.
pub data Wake : Type 0 where
  timeout : Wake
  tick : Bool → Bool → Bool → Wake

pub data WaitError : Type 0 where
  timed_out : WaitError

abbrev named_unless : Bool → GoString → List GoString
named_unless synced name = if synced then [] else name ∷ []

unfoldable pub unsynced_resources : Bool → Bool → Bool → List GoString
unsynced_resources pods nodes volumes =
    named_unless pods (codes "pods")
    ++ named_unless nodes (codes "nodes")
    ++ named_unless volumes (codes "persistentVolumes")

-- The loop over the wakes that come; `none` if they do not suffice.
unfoldable pub wait_for_resource_synced : List Wake → Option (Result WaitError (Unit {0}))
unfolding unsynced_resources
wait_for_resource_synced [] = none
wait_for_resource_synced (timeout ∷ later) = some (err timed_out)
wait_for_resource_synced (tick pods nodes volumes ∷ later) =
    let rest = wait_for_resource_synced later in
    elim (unsynced_resources pods nodes volumes) [ [] ↦ some (ok tt) | ◌∷◌ name names ↦ rest ]

-- Run: the wait's error is the error.
unfoldable pub run : List Wake → Option (Result WaitError (Unit {0}))
unfolding wait_for_resource_synced
run wakes = wait_for_resource_synced wakes
