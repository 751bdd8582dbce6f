-- ===== src/Examples/Scheduling.antt =====
-- The wait for the caches, the binding and the scores of the scheduler at work.
use hostpathpv_plugin.Base.{
  ℕ, zero, suc, ◌≤◌, ◌≡◌, refl, ap, true, false, Option, none, some, List, [], ◌∷◌, ◌++◌, map,
  arith, codes, GoString, GoMap, lookup, insert, lookup-insert, lookup-insert_same, slash, str_eq,
  drop, if◌then◌else◌, pos, ok,
}
use hostpathpv_plugin.Client.Volume.{PersistentVolume}
use hostpathpv_plugin.Client.Pod.{Pod}
use hostpathpv_plugin.Client.Patch.{
  annotation_patch, rfc6901_encode, get_host_path_pv_bind_node_patch_bytes,
}
use hostpathpv_plugin.Client.Control.{BindingApi, Wake, timeout, tick}
use hostpathpv_plugin.Client.Control.Synced.{EndsAt, wait_for_resource_synced_ends}
use hostpathpv_plugin.Scheduler.Bind.{bind}
use hostpathpv_plugin.Scheduler.Bind.Api.{View, BindingLaws}
use hostpathpv_plugin.Scheduler.Bind.Bound.{Outcome, bind-Outcome}
use hostpathpv_plugin.Scheduler.Scores.{HostPriority, reduce_scoring_node}
use hostpathpv_plugin.Scheduler.Scores.Reference.{
  best_score, in_tenths, reduce_scoring_node-in_tenths,
}

-- The volumes sync at the second tick.
abbrev wakes : ℕ → Wake
wakes zero = tick true true false
wakes (suc zero) = tick true true true
wakes (suc (suc n)) = timeout

wait_for_resource_synced_ends_example : (i : ℕ) × (i ≤ 2) × EndsAt wakes 120 i
wait_for_resource_synced_ends_example = wait_for_resource_synced_ends wakes 120 2 (omega arith) refl

-- A server that keeps the nodes of volumes and of pods.
pub record Kept : Type 0 where
  pub volumes : GoMap GoString
  pub pods : GoMap GoString

-- A text without its last three bytes.
abbrev without_end : GoString → GoString
without_end [] = []
without_end (a ∷ []) = []
without_end (a ∷ b ∷ []) = []
without_end (a ∷ b ∷ c ∷ []) = []
without_end (a ∷ b ∷ c ∷ d ∷ s) = a ∷ without_end (b ∷ c ∷ d ∷ s)

without_end_lem : (s : GoString) → without_end (s ++ codes "\"" ++ codes "}]") ≡ s
without_end_lem [] = refl
without_end_lem (a ∷ []) = refl
without_end_lem (a ∷ b ∷ []) = refl
without_end_lem (a ∷ b ∷ c ∷ []) = refl
without_end_lem (a ∷ b ∷ c ∷ d ∷ s) = ap (λ (t : GoString). a ∷ t) (without_end_lem (b ∷ c ∷ d ∷ s))

-- The value in a patch of the annotation: what follows the first 91 bytes.
abbrev value_of : GoString → GoString
value_of text = without_end (drop 91 text)

value_of_patch : (node : GoString) → value_of (get_host_path_pv_bind_node_patch_bytes node) ≡ node
unfolding get_host_path_pv_bind_node_patch_bytes annotation_patch rfc6901_encode
value_of_patch node = without_end_lem node

abbrev pod_key : GoString → GoString → GoString
pod_key namespace name = namespace ++ (slash ∷ name)

abbrev or_empty : Option GoString → GoString
or_empty none = []
or_empty (some s) = s

abbrev api : BindingApi Kept
api = record {
  patch_volume = λ pv text k. (ok tt, record k { volumes = insert pv (value_of text) k.volumes });
  post_binding =
      λ namespace b k. (ok tt, record k { pods = insert (pod_key namespace b.name) b.node k.pods });
}

abbrev view : View Kept
view = record {
  bind_node = λ k j. or_empty (lookup j k.volumes);
  node_of = λ k namespace name. or_empty (lookup (pod_key namespace name) k.pods);
}

looked_up :
    (pv j value node : GoString) (m : GoMap GoString)
    → value ≡ node
    → or_empty (lookup j (insert pv value m))
      ≡ (if str_eq pv j then node else or_empty (lookup j m))
looked_up pv j value node m e = rw (lookup-insert pv j value m) (ground (arith, e))

api-BindingLaws : BindingLaws api view
api-BindingLaws = record {
  patched = λ pv j node k plain h.
      looked_up pv j (value_of (get_host_path_pv_bind_node_patch_bytes node)) node k.volumes
        (value_of_patch node);
  patch_keeps = λ pv text namespace pod k. refl;
  bound =
      λ namespace b k h. ap or_empty (lookup-insert_same (pod_key namespace b.name) b.node k.pods);
  bind_refused = λ namespace other pod b k e h. absurd (ground arith);
  bind_keeps = λ namespace j b k. refl;
}

abbrev web : Pod
web = record {
  uid = codes "7";
  version = codes "1";
  name = codes "web";
  namespace = codes "default";
  pv_claims = codes "data" ∷ codes "other" ∷ [];
}

-- A volume of the claim `data` that is bound to no node.
abbrev data_volume : PersistentVolume
data_volume = record {
  version = codes "1";
  name = codes "pvc-17";
  namespace = [];
  index = codes "default/data";
  vol_id = [];
  is_host_path_pv = true;
  bind_node = [];
  ephemeral = false;
  capacity = pos 3000000;
  volume_path = [];
  usage = pos 0;
}

abbrev nothing_bound : Kept
nothing_bound = record { volumes = []; pods = [] }

bind-Outcome_example :
    Outcome api view
      (web ∷ [])
      (data_volume ∷ [])
      (codes "web")
      (codes "default")
      (codes "n1")
      nothing_bound
      (bind api
        (web ∷ [])
        (data_volume ∷ [])
        (codes "web")
        (codes "default")
        (codes "n1")
        nothing_bound)
bind-Outcome_example =
    bind-Outcome api view api-BindingLaws (codes "n1") refl (web ∷ []) (data_volume ∷ [])
      (codes "web") (codes "default") nothing_bound

abbrev scored : List HostPriority
scored =
    record { host = codes "n1"; score = pos 87 }
    ∷ record { host = codes "n2"; score = pos 29 }
    ∷ record { host = codes "n3"; score = pos 0 }
    ∷ []

reduce_scoring_node-in_tenths_example :
    reduce_scoring_node (pos 0) true scored ≡ map (in_tenths (best_score scored)) scored
reduce_scoring_node-in_tenths_example =
    reduce_scoring_node-in_tenths (pos 0) scored
      ((refl, omega arith), ((refl, omega arith), ((refl, omega arith), tt)))
