-- ===== src/Scheduler/Registry.antt =====
-- The lists of plug-ins that predicate.go, prioritize.go and bind.go of extender-scheduler/scheduler
-- keep, each under a mutex: registration, start and routes. The three are alike.
pub mod Distinct
use hostpathpv_plugin.Base.{
  Bool, true, false, List, [], ◌∷◌, ◌++◌, map, GoString, str_eq, is_empty, slash, if◌then◌else◌,
  Result, ok, err,
}

pub data RegistryError : Type 0 where
  empty_name already_registered : RegistryError
  init_failed : GoString → RegistryError

-- A plug-in has a name, and is started with the caches, which may fail.
pub record Plugin (K : Type 0) : Type 0 where
  pub name : GoString
  pub init : K → Result (Unit {0}) (Unit {0}) × K

module _ {K : Type 0} where
  unfoldable pub is_registered : GoString → List (Plugin K) → Bool
  is_registered name [] = false
  is_registered name (p ∷ ps) =
      let later = is_registered name ps in if str_eq p.name name then true else later

  unfoldable pub register :
      Plugin K → List (Plugin K) → Result RegistryError (Unit {0}) × List (Plugin K)
  unfolding is_registered
  register p plugins =
      if is_empty p.name
      then (err empty_name, plugins)
      else if is_registered p.name plugins
      then (err already_registered, plugins)
      else (ok tt, plugins ++ (p ∷ []))

  abbrev started :
      Plugin K
      → Result (Unit {0}) (Unit {0}) × K
      → (K → Result RegistryError (Unit {0}) × K)
      → Result RegistryError (Unit {0}) × K
  started p (ok u, k) next = next k
  started p (err e, k) next = (err (init_failed p.name), k)

  -- Init: the first that fails ends the start.
  unfoldable pub init_all : List (Plugin K) → K → Result RegistryError (Unit {0}) × K
  init_all [] k = (ok tt, k)
  init_all (p ∷ ps) k = started p (p.init k) (init_all ps)

  -- AddRoute: the paths at which the plug-ins are served.
  unfoldable pub routes : GoString → List (Plugin K) → List GoString
  routes api_prefix plugins = map (λ (p : Plugin K). api_prefix ++ (slash ∷ p.name)) plugins

  unfoldable pub register_predicate :
      Plugin K → List (Plugin K) → Result RegistryError (Unit {0}) × List (Plugin K)
  unfolding register
  register_predicate p predicate_list = register p predicate_list

  unfoldable pub register_prioritize :
      Plugin K → List (Plugin K) → Result RegistryError (Unit {0}) × List (Plugin K)
  unfolding register
  register_prioritize p prioritize_list = register p prioritize_list

  unfoldable pub init_predicates : List (Plugin K) → K → Result RegistryError (Unit {0}) × K
  unfolding init_all
  init_predicates predicate_list k = init_all predicate_list k

  unfoldable pub init_prioritizes : List (Plugin K) → K → Result RegistryError (Unit {0}) × K
  unfolding init_all
  init_prioritizes prioritize_list k = init_all prioritize_list k

  unfoldable pub predicate_routes : GoString → List (Plugin K) → List GoString
  unfolding routes
  predicate_routes api_prefix predicate_list = routes api_prefix predicate_list

  unfoldable pub prioritize_routes : GoString → List (Plugin K) → List GoString
  unfolding routes
  prioritize_routes api_prefix prioritize_list = routes api_prefix prioritize_list
