-- ===== src/Client/Pod.antt =====
-- pkg/hostpathclient/pod.go: what is kept of a pod.
use hostpathpv_plugin.Base.{Option, none, some, List, [], ◌∷◌, GoString}

-- The parts of corev1.Pod that are read; a volume is the name of its claim, if it is one of a claim.
pub record ApiPod : Type 0 where
  pub uid : GoString
  pub version : GoString
  pub name : GoString
  pub namespace : GoString
  pub volumes : List (Option GoString)

pub record Pod : Type 0 where
  pub uid : GoString
  pub version : GoString
  pub name : GoString
  pub namespace : GoString
  pub pv_claims : List GoString

unfoldable pub claims_of : List (Option GoString) → List GoString
claims_of [] = []
claims_of (none ∷ volumes) = claims_of volumes
claims_of (some claim ∷ volumes) = claim ∷ claims_of volumes

unfoldable pub to_pod : ApiPod → Pod
unfolding claims_of
to_pod pod = record {
  uid = pod.uid;
  version = pod.version;
  name = pod.name;
  namespace = pod.namespace;
  pv_claims = claims_of pod.volumes;
}

-- The copy has no UID.
unfoldable pub deep_copy_pod : Pod → Pod
deep_copy_pod p = record p { uid = [] }
