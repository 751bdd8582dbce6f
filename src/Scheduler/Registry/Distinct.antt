-- ===== src/Scheduler/Registry/Distinct.antt =====
-- No two plug-ins of a list are served at one path (extender-scheduler/scheduler).
use hostpathpv_plugin.Base.{
  ◌≡◌, refl, ap, sym, subst, ◌∙◌, true, false, List, [], ◌∷◌, ◌++◌, arith, GoString, is_empty,
  str_eq, str_eq_iff, slash, Bool-cases, inl, inr, if◌then◌else◌, Bool,
}
use hostpathpv_plugin.Scheduler.Registry.{Plugin, is_registered, register, routes}

-- Registrations one after the other, whatever they answer.
abbrev pub register_all : {K : Type 0} → List (Plugin K) → List (Plugin K) → List (Plugin K)
register_all [] plugins = plugins
register_all (p ∷ ps) plugins = register_all ps (register p plugins).1

abbrev is_in : GoString → List GoString → Bool
is_in s [] = false
is_in s (t ∷ ts) = if str_eq t s then true else is_in s ts

-- Each text stands once.
abbrev pub AreDistinct : List GoString → Type 0
AreDistinct [] = Unit
AreDistinct (s ∷ ss) = (is_in s ss ≡ false) × AreDistinct ss

is_in-append :
    (s t : GoString) (ss : List GoString)
    → is_in s (ss ++ (t ∷ [])) ≡ (if is_in s ss then true else str_eq t s)
is_in-append s t [] = ground arith
is_in-append s t (u ∷ us) = ground (arith, is_in-append s t us)

AreDistinct-append :
    (t : GoString) (ss : List GoString)
    → is_in t ss ≡ false
    → AreDistinct ss
    → AreDistinct (ss ++ (t ∷ []))
AreDistinct-append t [] fresh h = (refl, tt)
AreDistinct-append t (s ∷ ss) fresh h = (
  ground (arith, is_in-append s t ss, h.0, str_eq_iff t s, str_eq_iff s t),
  AreDistinct-append t ss (ground arith) h.1,
)

-- A prefix before two texts changes nothing of their being equal.
str_eq-append : (p s t : GoString) → str_eq (p ++ s) (p ++ t) ≡ str_eq s t
unfolding str_eq
str_eq-append [] s t = refl
str_eq-append (c ∷ p) s t = ground (arith, str_eq-append p s t)

module _ {K : Type 0} (api_prefix : GoString) where
  abbrev route : Plugin K → GoString
  route p = api_prefix ++ (slash ∷ p.name)

  same_route : (p q : Plugin K) → str_eq (route q) (route p) ≡ str_eq q.name p.name
  same_route p q =
      str_eq-append api_prefix (slash ∷ q.name) (slash ∷ p.name)
      ∙ str_eq-append (slash ∷ []) q.name p.name

  is_in-routes :
      (p : Plugin K) (ps : List (Plugin K))
      → is_in (route p) (routes api_prefix ps) ≡ is_registered p.name ps
  unfolding routes is_registered
  is_in-routes p [] = refl
  is_in-routes p (q ∷ ps) = ground (arith, same_route p q, is_in-routes p ps)

  routes-append :
      (p : Plugin K) (ps : List (Plugin K))
      → routes api_prefix (ps ++ (p ∷ [])) ≡ routes api_prefix ps ++ (route p ∷ [])
  unfolding routes
  routes-append p [] = refl
  routes-append p (q ∷ ps) = ap (λ (rs : List GoString). route q ∷ rs) (routes-append p ps)

  register-AreDistinct :
      (p : Plugin K) (ps : List (Plugin K))
      → AreDistinct (routes api_prefix ps)
      → AreDistinct (routes api_prefix (register p ps).1)
  unfolding register
  register-AreDistinct p ps h = elim (Bool-cases (is_empty p.name)) [
    | inl nameless ↦ rw nameless h
    | inr named ↦ rw named (elim (Bool-cases (is_registered p.name ps)) [
      | inl old ↦ rw old h
      | inr new ↦ rw new (
          subst AreDistinct (sym (routes-append p ps))
            (AreDistinct-append (route p) (routes api_prefix ps) (is_in-routes p ps ∙ new) h))
    ])
  ]

  -- Whichever plug-ins are registered on an empty list or on one with distinct paths, those that are
  -- refused among them: the paths that are served are distinct.
  pub register_all-AreDistinct :
      (ps plugins : List (Plugin K))
      → AreDistinct (routes api_prefix plugins)
      → AreDistinct (routes api_prefix (register_all ps plugins))
  register_all-AreDistinct [] plugins h = h
  register_all-AreDistinct (p ∷ ps) plugins h =
      register_all-AreDistinct ps (register p plugins).1 (register-AreDistinct p plugins h)
