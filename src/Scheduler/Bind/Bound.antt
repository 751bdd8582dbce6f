-- ===== src/Scheduler/Bind/Bound.antt =====
-- What a binding leaves behind (scheduler/bind/hostpathpv_bind.go).
use hostpathpv_plugin.Base.{
  ◌≡◌, refl, sym, ap, subst, ◌∙◌, true, Option, none, some, List, [], ◌∷◌, arith, GoString,
  str_eq_iff, Result, ok, err, inl, inr, ◌⊎◌,
}
use hostpathpv_plugin.Client.Volume.{PersistentVolume}
use hostpathpv_plugin.Client.Pod.{Pod}
use hostpathpv_plugin.Client.Control.{ApiError, BindingApi, get_pod, bind_pod}
use hostpathpv_plugin.Scheduler.Bind.{
  BindError, pod_not_found, request_failed, Done, then_do, bind_claims, last_step, bind,
}
use hostpathpv_plugin.Scheduler.Bind.Api.{is_plain, View, BindingLaws}
use hostpathpv_plugin.Scheduler.Bind.Steps.{
  AllSettled, SameNodes, AllSettled-kept, bind_claims-Came,
}

-- A pod that is found has the name and the namespace that were asked for.
get_pod-named :
    (pods : List Pod) (name namespace : GoString) (pod : Pod)
    → get_pod pods name namespace ≡ some pod
    → (pod.namespace ≡ namespace) × (pod.name ≡ name)
unfolding get_pod
get_pod-named [] name namespace pod h = absurd (ground arith)
get_pod-named (p ∷ ps) name namespace pod h = ground (
  arith,
  get_pod-named ps name namespace pod,
  str_eq_iff p.namespace namespace,
  str_eq_iff p.name name,
)

module _ {K : Type 0} (api : BindingApi K) (view : View K) where
  -- Either the pod was found, it is bound to the node, and so are its volumes; or there is an error,
  -- and no pod is bound anew.
  abbrev pub Outcome :
      List Pod → List PersistentVolume → GoString → GoString → GoString → K → Done api → Type 0
  Outcome pods pvs name namespace node k (r, k') =
      ((r ≡ ok tt)
        × (view.node_of k' namespace name ≡ node)
        × ((pod : Pod) × (get_pod pods name namespace ≡ some pod)
            × AllSettled api view pvs namespace node pod.pv_claims k'))
      ⊎ ((e : BindError) × (r ≡ err e) × SameNodes api view k k')

  module _ (laws : BindingLaws api view) (node : GoString) (plain : is_plain node ≡ true) where
    module _ (pods : List Pod) (pvs : List PersistentVolume) (pod : Pod) where
      -- The last step of a pod that was found.
      last_outcome :
          (k0 k : K) (x : Result ApiError (Unit {0}))
          → get_pod pods pod.name pod.namespace ≡ some pod
          → SameNodes api view k0 k
          → AllSettled api view pvs pod.namespace node pod.pv_claims k
          → (bind_pod api pod node k).0 ≡ x
          → Outcome pods pvs pod.name pod.namespace node k0
              (then_do api (x, (bind_pod api pod node k).1) (λ k'. (ok tt, k')))
      unfolding bind_pod
      last_outcome k0 k (ok u) found same settled h = inl (
        refl,
        laws.bound pod.namespace _ k h,
        (
          pod,
          found,
          AllSettled-kept api view laws node plain pvs pod.namespace pod.pv_claims k _
              (λ j e. laws.bind_keeps pod.namespace j _ k ∙ e) settled,
        ),
      )
      last_outcome k0 k (err e) found same settled h =
          inr
            (request_failed e, refl, λ n p. laws.bind_refused pod.namespace n p _ k e h ∙ same n p)

      found_outcome :
          (k : K)
          → get_pod pods pod.name pod.namespace ≡ some pod
          → Outcome pods pvs pod.name pod.namespace node k
              (bind_claims api pvs pod.namespace node pod.pv_claims k (last_step api pod node))
      found_outcome k found =
          let (k1, same, how) =
            bind_claims-Came api view laws node plain pvs pod.namespace pod.pv_claims k
              (last_step api pod node) in
          elim how [
            | inl failed ↦ rw failed.1 (inr (failed.0, refl, same))
            | inr (keep, settled, e) ↦
                rw e (last_outcome k k1 (bind_pod api pod node k1).0 found same settled refl)
          ]

    -- If the API server keeps its laws and the node's name is plain: either the binding reports
    -- success, and then the pod was in the cache, it is bound to the node, and each cached host-path
    -- volume of its claims that is not ephemeral is bound to the node, in the cache or in the API
    -- server; or it reports an error, and then no pod is bound that was not before.
    pub bind-Outcome :
        (pods : List Pod) (pvs : List PersistentVolume) (name namespace : GoString) (k : K)
        → Outcome pods pvs name namespace node k (bind api pods pvs name namespace node k)
    unfolding bind
    bind-Outcome pods pvs name namespace k = from (get_pod pods name namespace) refl
      where
        from :
            (o : Option Pod)
            → get_pod pods name namespace ≡ o
            → Outcome pods pvs name namespace node k (bind api pods pvs name namespace node k)
        from none h = rw (h, bind) (inr (pod_not_found, refl, λ n p. refl))
        from (some pod) h =
            let (e, f) = get_pod-named pods name namespace pod h in
            let out =
              bind_claims api pvs pod.namespace node pod.pv_claims k (last_step api pod node) in
            let found : get_pod pods pod.name pod.namespace ≡ some pod =
              ap (λ (n : GoString). get_pod pods n pod.namespace) f
              ∙ ap (λ (n : GoString). get_pod pods name n) e
              ∙ h in
            let reached : bind api pods pvs name namespace node k ≡ out = rw (h, bind) refl in
            subst (Outcome pods pvs name namespace node k) (sym reached) (
              subst (λ (n : GoString). Outcome pods pvs name n node k out) e
                (subst (λ (n : GoString). Outcome pods pvs n pod.namespace node k out) f
                  (found_outcome pods pvs pod k found)))
