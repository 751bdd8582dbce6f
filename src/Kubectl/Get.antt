-- ===== src/Kubectl/Get.antt =====
-- pkg/kubectl-plugin/hostpathpv_get.go: the command line of `kubectl hostpathpv get`. A flag or a
-- client that fails is an error of the library, `failed`.
pub mod Arguments
pub mod Listings
use hostpathpv_plugin.Base.{
  Bool, true, false, ◌||◌, not, Option, none, some, List, [], ◌∷◌, GoString, codes, length, str_eq,
  ltb, if◌then◌else◌, Result, ok, err,
}

pub data GetError : Type 0 where
  no_resource unsupported too_many_arguments failed : GetError

pub record GetOptions : Type 0 where
  pub resource : GoString
  pub resource_name : GoString
  pub filter : Bool

abbrev pub support_type : List GoString
support_type = codes "node" ∷ codes "nodes" ∷ codes "pv" ∷ codes "pvs" ∷ []

abbrev type_supported : List GoString → GoString → Bool → Bool
type_supported [] arg found = found
type_supported (t ∷ ts) arg found = type_supported ts arg (if str_eq t arg then true else found)

-- Validate
unfoldable pub validate : List GoString → Result GetError (Unit {0})
validate [] = err no_resource
validate (arg ∷ args) =
    if not (type_supported support_type arg false)
    then err unsupported
    else if ltb 2 (length (arg ∷ args))
    then err too_many_arguments
    else ok tt

-- Complete: the flag, the client, and the arguments; without arguments it is a panic, `none`.
unfoldable pub complete :
    Result GetError Bool → Bool → List GoString → Option (Result GetError GetOptions)
complete (err e) client args = some (err e)
complete (ok filter) false args = some (err failed)
complete (ok filter) true [] = none
complete (ok filter) true (arg ∷ []) =
    some (ok (record { resource = arg; resource_name = []; filter = filter }))
complete (ok filter) true (arg ∷ name ∷ []) =
    some (ok (record { resource = arg; resource_name = name; filter = filter }))
complete (ok filter) true (arg ∷ name ∷ other ∷ more) =
    some (ok (record { resource = arg; resource_name = []; filter = filter }))

-- Run: which of the two is done.
pub data Action : Type 0 where
  show_nodes : GoString → Bool → Action
  show_pvs : GoString → Action
  nothing : Action

unfoldable pub run : GetOptions → Action
run o =
    if str_eq o.resource (codes "nodes") || str_eq o.resource (codes "node")
    then show_nodes o.resource_name o.filter
    else if str_eq o.resource (codes "pvs") || str_eq o.resource (codes "pv")
    then show_pvs o.resource_name
    else nothing

-- NewCmdGet: Validate, Complete and Run in turn; the first error ends the program.
abbrev completed : Option (Result GetError GetOptions) → Option (Result GetError Action)
completed none = none
completed (some (err e)) = some (err e)
completed (some (ok o)) = some (ok (run o))

unfoldable pub command :
    Result GetError Bool → Bool → List GoString → Option (Result GetError Action)
unfolding validate complete run
command flag client args = elim (validate args) [
  | err e ↦ some (err e)
  | ok u ↦ completed (complete flag client args)
]
