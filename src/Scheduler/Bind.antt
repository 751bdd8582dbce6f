-- ===== src/Scheduler/Bind.antt =====
-- extender-scheduler/scheduler/bind/hostpathpv_bind.go: the binding of a pod and of its volumes to a
-- node, with the caches and the requests of hostpathclient/controller.go.
pub mod Api
pub mod Steps
pub mod Bound
use hostpathpv_plugin.Base.{
  Bool, not, Option, none, some, List, [], ◌∷◌, GoString, str_eq, is_empty, if◌then◌else◌, Result,
  ok, err, Act,
}
use hostpathpv_plugin.Client.Volume.{PersistentVolume}
use hostpathpv_plugin.Client.Pod.{Pod}
use hostpathpv_plugin.Client.Control.{
  ApiError, BindingApi, get_pod, get_persistent_volume_by_claim, bind_host_path_pv, bind_pod,
}

pub data BindError : Type 0 where
  pod_not_found conflict : BindError
  request_failed : ApiError → BindError

module _ {K : Type 0} (api : BindingApi K) where
  abbrev pub Done : Type 0
  Done = Result BindError (Unit {0}) × K

  -- A request, and what follows if it succeeds.
  abbrev pub then_do : Result ApiError (Unit {0}) × K → (K → Done) → Done
  then_do (ok u, k) next = next k
  then_do (err e, k) next = (err (request_failed e), k)

  -- One turn of the loop over the claims.
  unfoldable pub bind_volume : GoString → Option PersistentVolume → K → (K → Done) → Done
  bind_volume node none k next = next k
  bind_volume node (some pv) k next =
      if not pv.is_host_path_pv
      then next k
      else if pv.ephemeral
      then next k
      else if is_empty pv.bind_node
      then then_do (bind_host_path_pv api pv.name node k) next
      else if not (str_eq pv.bind_node node)
      then (err conflict, k)
      else next k

  unfoldable pub bind_claims :
      List PersistentVolume → GoString → GoString → List GoString → K → (K → Done) → Done
  unfolding bind_volume
  bind_claims pvs namespace node [] k next = next k
  bind_claims pvs namespace node (claim ∷ claims) k next =
      bind_volume node (get_persistent_volume_by_claim pvs claim namespace) k
        (λ k'. bind_claims pvs namespace node claims k' next)

  abbrev pub last_step : Pod → GoString → K → Done
  last_step pod node k = then_do (bind_pod api pod node k) (λ k'. (ok tt, k'))

  -- The first error ends the work; volumes that were bound before it stay bound.
  unfoldable pub bind :
      List Pod → List PersistentVolume → GoString → GoString → GoString → Act K BindError (Unit {0})
  unfolding bind_claims
  bind pods pvs pod_name pod_namespace node k = elim (get_pod pods pod_name pod_namespace) [
    | none ↦ (err pod_not_found, k)
    | some pod ↦ bind_claims pvs pod.namespace node pod.pv_claims k (last_step pod node)
  ]
