-- ===== src/Scheduler/Bind/Steps.antt =====
-- How far the loop over the claims comes (scheduler/bind/hostpathpv_bind.go).
use hostpathpv_plugin.Base.{
  ◌≡◌, refl, sym, subst, ◌∙◌, true, false, Option, none, some, List, [], ◌∷◌, arith, GoString,
  str_eq, str_eq_iff, is_empty, Result, ok, err, Bool-cases, inl, inr, ◌⊎◌,
}
use hostpathpv_plugin.Client.Volume.{PersistentVolume}
use hostpathpv_plugin.Client.Control.{
  ApiError, BindingApi, get_persistent_volume_by_claim, bind_host_path_pv,
}
use hostpathpv_plugin.Scheduler.Bind.{
  BindError, conflict, request_failed, Done, then_do, bind_volume, bind_claims,
}
use hostpathpv_plugin.Scheduler.Bind.Api.{is_plain, View, BindingLaws}

module _ {K : Type 0} (api : BindingApi K) (view : View K) where
  -- A volume that needs no node, or is bound to this one in the cache or in the API server.
  abbrev pub Settled : GoString → K → PersistentVolume → Type 0
  Settled node k pv =
      (pv.is_host_path_pv ≡ false)
      ⊎ ((pv.ephemeral ≡ true) ⊎ ((pv.bind_node ≡ node) ⊎ (view.bind_node k pv.name ≡ node)))

  -- A claim without a cached volume asks nothing.
  abbrev pub ClaimSettled : GoString → K → Option PersistentVolume → Type 0
  ClaimSettled node k none = Unit
  ClaimSettled node k (some pv) = Settled node k pv

  abbrev pub AllSettled : List PersistentVolume → GoString → GoString → List GoString → K → Type 0
  AllSettled pvs namespace node [] k = Unit
  AllSettled pvs namespace node (claim ∷ claims) k =
      ClaimSettled node k (get_persistent_volume_by_claim pvs claim namespace)
      × AllSettled pvs namespace node claims k

  abbrev pub SameNodes : K → K → Type 0
  SameNodes k k' =
      (namespace pod : GoString) → view.node_of k' namespace pod ≡ view.node_of k namespace pod

  module _ (laws : BindingLaws api view) (node : GoString) (plain : is_plain node ≡ true) where
    abbrev pub Keeps : K → K → Type 0
    Keeps k k' = (j : GoString) → view.bind_node k j ≡ node → view.bind_node k' j ≡ node

    ClaimSettled-kept :
        (k k' : K) (o : Option PersistentVolume)
        → Keeps k k'
        → ClaimSettled node k o
        → ClaimSettled node k' o
    ClaimSettled-kept k k' none keep h = tt
    ClaimSettled-kept k k' (some pv) keep (inl h) = inl h
    ClaimSettled-kept k k' (some pv) keep (inr (inl h)) = inr (inl h)
    ClaimSettled-kept k k' (some pv) keep (inr (inr (inl h))) = inr (inr (inl h))
    ClaimSettled-kept k k' (some pv) keep (inr (inr (inr h))) = inr (inr (inr (keep pv.name h)))

    pub AllSettled-kept :
        (pvs : List PersistentVolume) (namespace : GoString) (claims : List GoString) (k k' : K)
        → Keeps k k'
        → AllSettled pvs namespace node claims k
        → AllSettled pvs namespace node claims k'
    AllSettled-kept pvs namespace [] k k' keep h = tt
    AllSettled-kept pvs namespace (claim ∷ claims) k k' keep h = (
      ClaimSettled-kept k k' (get_persistent_volume_by_claim pvs claim namespace) keep h.0,
      AllSettled-kept pvs namespace claims k k' keep h.1,
    )

    -- The part came to a state from which the rest went on, or to an error; no pod was bound on the way.
    abbrev pub Came : K → (K → Type 0) → (K → Done api) → Done api → Type 0
    Came k Reached next out =
        (k' : K) × SameNodes k k'
        × (((e : BindError) × (out ≡ (err e, k'))) ⊎ (Keeps k k' × Reached k' × (out ≡ next k')))

    patch-Came :
        (pv : PersistentVolume) (k : K) (next : K → Done api) (x : Result ApiError (Unit {0}))
        → (bind_host_path_pv api pv.name node k).0 ≡ x
        → Came k
            (λ k'. Settled node k' pv)
            next
            (then_do api (x, (bind_host_path_pv api pv.name node k).1) next)
    unfolding bind_host_path_pv
    patch-Came pv k next (err e) h = (
      _,
      λ namespace pod. laws.patch_keeps pv.name _ namespace pod k,
      inl (request_failed e, refl),
    )
    patch-Came pv k next (ok u) h =
        let after = λ (j : GoString). laws.patched pv.name j node k plain h in
        (
          _,
          λ namespace pod. laws.patch_keeps pv.name _ namespace pod k,
          inr (
            λ j same. ground (arith, after j, same),
            inr (inr (inr (ground (arith, after pv.name, str_eq_iff pv.name pv.name)))),
            refl,
          ),
        )

    stays : (k : K) → Keeps k k
    stays k j h = h

    is_empty-nil : (s : GoString) → is_empty s ≡ true → s ≡ []
    is_empty-nil [] h = refl
    is_empty-nil (c ∷ s) h = absurd (ground arith)

    Came-subst :
        {k : K} {Reached : K → Type 0} {next : K → Done api} {out out' : Done api}
        → out ≡ out'
        → Came k Reached next out'
        → Came k Reached next out
    Came-subst {k} {Reached} {next} e came =
        subst (λ (o : Done api). Came k Reached next o) (sym e) came

    bind_volume-Came :
        (o : Option PersistentVolume) (k : K) (next : K → Done api)
        → Came k (λ k'. ClaimSettled node k' o) next (bind_volume api node o k next)
    unfolding bind_volume
    bind_volume-Came none k next = (k, λ n p. refl, inr (stays k, tt, refl))
    bind_volume-Came (some pv) k next = elim (Bool-cases pv.is_host_path_pv) [
      | inr other ↦ (k, λ n p. refl, inr (stays k, inl other, rw other refl))
      | inl ours ↦ elim (Bool-cases pv.ephemeral) [
        | inl short ↦ (k, λ n p. refl, inr (stays k, inr (inl short), rw (ours, short) refl))
        | inr long ↦ elim (Bool-cases (is_empty pv.bind_node)) [
          | inl unbound ↦
              Came-subst (rw (ours, long, unbound) refl)
                (patch-Came pv k next (bind_host_path_pv api pv.name node k).0 refl)
          | inr bound ↦ elim (Bool-cases (str_eq pv.bind_node node)) [
            | inl same ↦ (
              k,
              λ n p. refl,
              inr (
                stays k,
                inr (inr (inl ((str_eq_iff pv.bind_node node).0 same))),
                rw (ours, long, bound, same) refl,
              ),
            )
            | inr apart ↦ (k, λ n p. refl, inl (conflict, rw (ours, long, bound, apart) refl))
          ]
        ]
      ]
    ]

    -- A part, and a part that goes on from the state it came to.
    chain :
        {R T : K → Type 0} {k : K} {mid next : K → Done api} {out : Done api}
        → ((k1 k2 : K) → Keeps k1 k2 → R k1 → R k2)
        → Came k R mid out
        → ((k1 : K) → Came k1 T next (mid k1))
        → Came k (λ k'. R k' × T k') next out
    chain kept (k1, same, inl failed) after = (k1, same, inl failed)
    chain kept (k1, same, inr (keep, settled, e)) after =
        let (k2, same', how) = after k1 in
        (
          k2,
          λ n p. same' n p ∙ same n p,
          elim how [
            | inl failed ↦ inl (failed.0, e ∙ failed.1)
            | inr (keep', settled', e') ↦
                inr (λ j h. keep' j (keep j h), (kept k1 k2 keep' settled, settled'), e ∙ e')
          ],
        )

    pub bind_claims-Came :
        (pvs : List PersistentVolume) (namespace : GoString) (claims : List GoString) (k : K)
        (next : K → Done api)
        → Came k
            (AllSettled pvs namespace node claims)
            next
            (bind_claims api pvs namespace node claims k next)
    unfolding bind_claims
    bind_claims-Came pvs namespace [] k next = (k, λ n p. refl, inr (stays k, tt, refl))
    bind_claims-Came pvs namespace (claim ∷ claims) k next =
        let o = get_persistent_volume_by_claim pvs claim namespace in
        let rest = λ (k' : K). bind_claims api pvs namespace node claims k' next in
        chain (λ k1 k2. ClaimSettled-kept k1 k2 o) (bind_volume-Came o k rest)
          (λ k1. bind_claims-Came pvs namespace claims k1 next)
