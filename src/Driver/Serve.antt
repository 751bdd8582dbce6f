-- ===== src/Driver/Serve.antt =====
-- csi-plugin/csi-common/server.go: how the gRPC server comes up, and which services it has. The file
-- system, the network and the numbers of `strconv` are the parameter `Network`; `none` is a fatal
-- error or a panic.
pub mod Services
use hostpathpv_plugin.Base.{
  ℕ, Bool, true, false, Option, none, some, List, [], ◌∷◌, ◌++◌, GoString, codes, str_eq, split_at,
  if◌then◌else◌, slash, Result, ok, err,
}
use hostpathpv_plugin.Util.Host.{HostError, not_exist, no_data, call_failed, no_backing_device}
use hostpathpv_plugin.Driver.Common.{parse_endpoint}
use hostpathpv_plugin.Driver.Defaults.{Config, RunningServers, run_driver}

pub data Service : Type 0 where
  identity_service controller_service node_service : Service

-- An interface value: nil, or a pointer of a type, which may itself be nil.
pub data Interface : Type 0 where
  nil_interface : Interface
  pointer : Bool → Interface

abbrev is_nil : Interface → Bool
is_nil nil_interface = true
is_nil (pointer present) = false

unfoldable pub registered : Service → Interface → List Service
registered s i = if is_nil i then [] else s ∷ []

-- The buckets of the histogram: `buckets` panics on numbers that make none. A number that cannot be
-- parsed comes with an error beside it.
pub record Network (W F : Type 0) : Type 0 where
  pub to_lower : GoString → GoString
  pub remove : GoString → W → Result HostError (Unit {0}) × W
  pub listen : GoString → GoString → W → Option W
  pub parse_float : GoString → F × Bool
  pub atoi : GoString → ℕ × Bool
  pub buckets : F → F → ℕ → Option (Unit {0})

module _ {W F : Type 0} (net : Network W F) where
  -- Only the error of the first number is looked at.
  abbrev histogram : List GoString → Option (Unit {0})
  histogram (start ∷ factor ∷ count ∷ []) =
      if (net.parse_float start).1
      then net.buckets (net.parse_float start).0 (net.parse_float factor).0 (net.atoi count).0
      else none
  histogram _ = none

  unfoldable pub metrics_ready : Bool → GoString → Option (Unit {0})
  metrics_ready metrics hst_options =
      if metrics then histogram (split_at b',' hst_options) else some tt

  abbrev listening : List Service → Option (Unit {0}) → Option W → Option (List Service × W)
  listening services none w = none
  listening services (some u) none = none
  listening services (some u) (some w) = some (services, w)

  abbrev removed :
      (W → Option (List Service × W)) → Result HostError (Unit {0}) × W → Option (List Service × W)
  removed next (ok u, w) = next w
  removed next (err not_exist, w) = next w
  removed next (err no_data, w) = none
  removed next (err call_failed, w) = none
  removed next (err no_backing_device, w) = none

  -- The socket of an earlier run is removed first; a scheme in other letters is no "unix" here.
  abbrev opened :
      List Service
      → Option (Unit {0})
      → Option (GoString × GoString)
      → W
      → Option (List Service × W)
  opened services ready none w = none
  opened services ready (some (proto, addr)) w =
      if str_eq proto (codes "unix")
      then removed (λ w'. listening services ready (net.listen proto (slash ∷ addr) w'))
          (net.remove (slash ∷ addr) w)
      else listening services ready (net.listen proto addr w)

  unfoldable pub serve :
      GoString → GoString → Interface → Interface → Interface → Bool → W → Option (List Service × W)
  unfolding parse_endpoint registered metrics_ready
  serve endpoint hst_options ids cs ns metrics w =
      opened
        (registered identity_service ids
          ++ registered controller_service cs
          ++ registered node_service ns)
        (metrics_ready metrics hst_options) (parse_endpoint net.to_lower endpoint) w

  -- The end of Run: the pointers of the three servers are passed as interfaces.
  abbrev started : GoString → GoString → Option RunningServers → W → Option (List Service × W)
  started endpoint hst_options none w = none
  started endpoint hst_options (some s) w =
      serve endpoint hst_options (pointer true) (pointer s.serves_controller)
        (pointer s.serves_node) false w

  unfoldable pub run_and_serve :
      GoString → GoString → GoString → Config → Bool → W → Option (List Service × W)
  unfolding serve run_driver
  run_and_serve endpoint hst_options driver_version conf store_ready w =
      started endpoint hst_options (run_driver driver_version conf store_ready) w
