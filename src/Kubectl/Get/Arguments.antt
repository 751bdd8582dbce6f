-- ===== src/Kubectl/Get/Arguments.antt =====
-- The command line against a reference for it (pkg/kubectl-plugin/hostpathpv_get.go).
use hostpathpv_plugin.Base.{
  ◌≡◌, refl, ◌||◌, Bool, true, Option, none, some, List, [], ◌∷◌, arith, GoString, codes, str_eq,
  str_eq_comm, Result, ok, err, if◌then◌else◌,
}
use hostpathpv_plugin.Kubectl.Get.{
  GetError, no_resource, unsupported, too_many_arguments, Action, show_nodes, show_pvs, command,
}

-- The two resources, each with its two spellings.
pub data Resource : Type 0 where
  nodes volumes : Resource

abbrev resource_of : GoString → Option Resource
resource_of arg =
    if str_eq (codes "node") arg || str_eq (codes "nodes") arg
    then some nodes
    else if str_eq (codes "pv") arg || str_eq (codes "pvs") arg
    then some volumes
    else none

abbrev show : Resource → GoString → Bool → Action
show nodes name filter = show_nodes name filter
show volumes name filter = show_pvs name

abbrev described : Option Resource → List GoString → Bool → Result GetError Action
described none names filter = err unsupported
described (some r) [] filter = ok (show r [] filter)
described (some r) (name ∷ []) filter = ok (show r name filter)
described (some r) (name ∷ other ∷ more) filter = err too_many_arguments

-- A resource, and then no name or one.
abbrev pub reference : List GoString → Bool → Result GetError Action
reference [] filter = err no_resource
reference (arg ∷ names) filter = described (resource_of arg) names filter

-- Where the flag and the client are at hand: for every list of arguments, the command does what
-- `reference` gives and does not panic. It lists the nodes or the volumes, named in either spelling,
-- with no name or one; it has an error each for no argument, for any other resource, pods included,
-- and for more names.
pub command-reference :
    (args : List GoString) (filter : Bool)
    → command (ok filter) true args ≡ some (reference args filter)
unfolding command
command-reference [] filter = refl
command-reference (arg ∷ []) filter = ground (
  arith,
  str_eq_comm arg (codes "node"),
  str_eq_comm arg (codes "nodes"),
  str_eq_comm arg (codes "pv"),
  str_eq_comm arg (codes "pvs"),
)
command-reference (arg ∷ name ∷ []) filter = ground (
  arith,
  str_eq_comm arg (codes "node"),
  str_eq_comm arg (codes "nodes"),
  str_eq_comm arg (codes "pv"),
  str_eq_comm arg (codes "pvs"),
)
command-reference (arg ∷ name ∷ other ∷ more) filter = ground arith
