-- ===== src/Driver/Liveness.antt =====
-- csi-plugin/liveness/liveness.go: the gauge of the probe. The probe of csi-lib-utils gives its answers.
use hostpathpv_plugin.Base.{ℕ, Bool, true, false, List, [], ◌∷◌, Result, ok, err}

-- The gauge after one probe.
unfoldable pub get_liveness {κ} : {E : Type κ} → Result E Bool → ℕ
get_liveness (err e) = 0
get_liveness (ok false) = 0
get_liveness (ok true) = 1

-- The gauge after the probes of the ticks so far; it starts at 0.
unfoldable pub record_liveness {κ} : {E : Type κ} → List (Result E Bool) → ℕ → ℕ
unfolding get_liveness
record_liveness [] gauge = gauge
record_liveness (answer ∷ answers) gauge = record_liveness answers (get_liveness answer)
