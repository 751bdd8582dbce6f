-- ===== src/Scheduler/Bind/Api.antt =====
-- What the scheduler relies on of the API server, and which texts a JSON string keeps.
use hostpathpv_plugin.Base.{
  ◌≡◌, Bool, true, ◌&&◌, [], ◌∷◌, GoString, str_eq, ltb, leb, ◌==◌, not, ok, err, if◌then◌else◌,
}
use hostpathpv_plugin.Client.Patch.{get_host_path_pv_bind_node_patch_bytes}
use hostpathpv_plugin.Client.Control.{ApiError, Binding, BindingApi}

-- A text that stands for itself between the quotes of a JSON string: printable ASCII, no quote and
-- no backslash.
abbrev pub is_plain : GoString → Bool
is_plain [] = true
is_plain (c ∷ s) = (leb 32 c && ltb c 127) && (not (c == b'"') && (not (c == b'\\') && is_plain s))

-- What the API server keeps: the node in the annotation of a volume, and the node of a pod in a
-- namespace.
pub record View (K : Type 0) : Type 0 where
  pub bind_node : K → GoString → GoString
  pub node_of : K → GoString → GoString → GoString

-- What it documents: a JSON patch that adds the annotation adds it; a binding sets the pod's node; a
-- binding that fails changes no pod, a patch none, and a binding no annotation.
pub record BindingLaws {K : Type 0} (api : BindingApi K) (view : View K) : Type 0 where
  pub patched :
      (pv j node : GoString) (k : K)
      → is_plain node ≡ true
      → (api.patch_volume pv (get_host_path_pv_bind_node_patch_bytes node) k).0 ≡ ok tt
      → view.bind_node (api.patch_volume pv (get_host_path_pv_bind_node_patch_bytes node) k).1 j
        ≡ (if str_eq pv j then node else view.bind_node k j)
  pub patch_keeps :
      (pv text namespace pod : GoString) (k : K)
      → view.node_of (api.patch_volume pv text k).1 namespace pod ≡ view.node_of k namespace pod
  pub bound :
      (namespace : GoString) (b : Binding) (k : K)
      → (api.post_binding namespace b k).0 ≡ ok tt
      → view.node_of (api.post_binding namespace b k).1 namespace b.name ≡ b.node
  pub bind_refused :
      (namespace other pod : GoString) (b : Binding) (k : K) (e : ApiError)
      → (api.post_binding namespace b k).0 ≡ err e
      → view.node_of (api.post_binding namespace b k).1 other pod ≡ view.node_of k other pod
  pub bind_keeps :
      (namespace j : GoString) (b : Binding) (k : K)
      → view.bind_node (api.post_binding namespace b k).1 j ≡ view.bind_node k j
