-- ===== src/Scheduler/Predicate/Bound.antt =====
-- A pod goes to the node that its volumes are bound to (scheduler/predicate/hostpathpv_disk_pressure.go).
use hostpathpv_plugin.Base.{
  ◌≡◌, refl, ap, sym, ◌∙◌, true, false, Option, none, some, List, [], ◌∷◌, arith, GoString,
  is_empty, str_eq, str_eq_iff, ℤ, pos, Bool-cases, inl, inr, ◌⊎◌, some_injective,
}
use hostpathpv_plugin.Client.Volume.{PersistentVolume}
use hostpathpv_plugin.Client.Node.{Node}
use hostpathpv_plugin.Client.Control.{get_persistent_volume_by_claim}
use hostpathpv_plugin.Scheduler.Predicate.{
  Pod, one_volume, collect_requests, decide, filter_node, Requests,
}

-- The pod has a volume of the claim.
abbrev pub Uses : GoString → List (Option GoString) → Type 0
Uses claim [] = ⊥
Uses claim (v ∷ vs) = (v ≡ some claim) ⊎ Uses claim vs

-- What the filter asks of a volume and a node.
abbrev pub Suits : PersistentVolume → Node → Type 0
Suits pv node = (node.host_path_node ≡ true) × ((pv.bind_node ≡ []) ⊎ (pv.bind_node ≡ node.name))

is_empty-nil : (s : GoString) → is_empty s ≡ true → s ≡ []
is_empty-nil [] h = refl
is_empty-nil (c ∷ s) h = absurd (ground arith)

abbrev Passed : Node → Option PersistentVolume → ((ℤ × List ℤ) → Requests) → (ℤ × List ℤ) → Type 0
Passed node o next out =
    (pv : PersistentVolume) × (acc : ℤ × List ℤ) × (o ≡ some pv)
    × (next acc ≡ some out)
    × ((pv.is_host_path_pv ≡ false) ⊎ Suits pv node)

one_volume-Passed :
    (node : Node) (o : Option PersistentVolume) (acc out : ℤ × List ℤ)
    (next : (ℤ × List ℤ) → Requests)
    → one_volume node o acc next ≡ some out
    → Passed node o next out
one_volume-Passed node none acc out next h = absurd (ground arith)
one_volume-Passed node (some pv) acc out next h = elim (Bool-cases pv.is_host_path_pv) [
  | inr other ↦ (pv, acc, refl, rw other at h, inl other)
  | inl ours ↦
      let h1 = rw ours at h in
      elim (Bool-cases node.host_path_node) [
        | inr plain ↦ absurd (let h2 = rw plain at h1 in ground arith)
        | inl served ↦
            let h2 = rw served at h1 in
            elim (Bool-cases (is_empty pv.bind_node)) [
              | inl unbound ↦ (
                pv,
                _,
                refl,
                rw unbound at h2,
                inr (served, inl (is_empty-nil pv.bind_node unbound)),
              )
              | inr bound ↦
                  let h3 = rw bound at h2 in
                  elim (Bool-cases (str_eq pv.bind_node node.name)) [
                    | inl same ↦ (
                      pv,
                      acc,
                      refl,
                      rw same at h3,
                      inr (served, inr ((str_eq_iff pv.bind_node node.name).0 same)),
                    )
                    | inr apart ↦ absurd (let h4 = rw apart at h3 in ground arith)
                  ]
            ]
      ]
]

module _ (pvs : List PersistentVolume) (namespace : GoString) (node : Node) (claim : GoString)
    (pv : PersistentVolume) (known : get_persistent_volume_by_claim pvs claim namespace ≡ some pv)
    (ours : pv.is_host_path_pv ≡ true) where
  suits :
      (o : Option PersistentVolume) (next : (ℤ × List ℤ) → Requests) (out : ℤ × List ℤ)
      → o ≡ some pv
      → Passed node o next out
      → Suits pv node
  suits o next out e (x, acc, same, rest, inl other) =
      let one : x ≡ pv = some_injective (sym same ∙ e) in
      absurd (ground (arith, ap (λ (v : PersistentVolume). v.is_host_path_pv) one))
  suits o next out e (x, acc, same, rest, inr (served, inl unbound)) =
      let one : x ≡ pv = some_injective (sym same ∙ e) in
      (served, inl (sym (ap (λ (v : PersistentVolume). v.bind_node) one) ∙ unbound))
  suits o next out e (x, acc, same, rest, inr (served, inr bound)) =
      let one : x ≡ pv = some_injective (sym same ∙ e) in
      (served, inr (sym (ap (λ (v : PersistentVolume). v.bind_node) one) ∙ bound))

  collect_requests-Suits :
      (volumes : List (Option GoString)) (acc out : ℤ × List ℤ)
      → Uses claim volumes
      → collect_requests pvs namespace node volumes acc ≡ some out
      → Suits pv node
  unfolding collect_requests
  collect_requests-Suits [] acc out u h = absurd u
  collect_requests-Suits (none ∷ vs) acc out (inl e) h = absurd (ground arith)
  collect_requests-Suits (none ∷ vs) acc out (inr u) h = collect_requests-Suits vs acc out u h
  collect_requests-Suits (some c ∷ vs) acc out (inl e) h =
      suits (get_persistent_volume_by_claim pvs c namespace)
        (collect_requests pvs namespace node vs) out
        (ap (λ (k : GoString). get_persistent_volume_by_claim pvs k namespace) (some_injective e)
          ∙ known)
        (one_volume-Passed node (get_persistent_volume_by_claim pvs c namespace) acc out
          (collect_requests pvs namespace node vs) h)
  collect_requests-Suits (some c ∷ vs) acc out (inr u) h =
      let (x, acc', same, rest, suit) =
        one_volume-Passed node (get_persistent_volume_by_claim pvs c namespace) acc out
          (collect_requests pvs namespace node vs) h in
      collect_requests-Suits vs acc' out u rest

decide-some :
    (node : Node) (r : Requests) → decide node r ≡ true → (out : ℤ × List ℤ) × (r ≡ some out)
decide-some node none h = absurd (ground arith)
decide-some node (some out) h = (out, refl)

-- If a pod has a volume of a claim whose cached volume is a host-path volume, and a node passes the
-- filter for the pod, then the node is a host-path node, and the volume is bound to no node or to
-- this one.
pub filter_node-Suits :
    (pvs : List PersistentVolume) (pod : Pod) (node : Node) (claim : GoString)
    (pv : PersistentVolume)
    → Uses claim pod.volumes
    → get_persistent_volume_by_claim pvs claim pod.namespace ≡ some pv
    → pv.is_host_path_pv ≡ true
    → filter_node pvs pod node ≡ true
    → Suits pv node
unfolding filter_node
filter_node-Suits pvs pod node claim pv uses known ours accepted =
    let (out, collected) =
      decide-some node (collect_requests pvs pod.namespace node pod.volumes (pos 0, [])) accepted in
    collect_requests-Suits pvs pod.namespace node claim pv known ours pod.volumes (pos 0, []) out
      uses collected
