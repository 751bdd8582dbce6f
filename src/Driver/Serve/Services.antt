-- ===== src/Driver/Serve/Services.antt =====
-- A driver that comes up has all services (csi-plugin/hostpath/driver.go, csi-common/server.go).
use hostpathpv_plugin.Base.{
  ◌≡◌, Bool, false, Option, none, some, List, [], ◌∷◌, arith, GoString, codes, str_eq, slash,
  Result, ok, err, Bool-cases, inl, inr,
}
use hostpathpv_plugin.Util.Host.{HostError, not_exist, no_data, call_failed, no_backing_device}
use hostpathpv_plugin.Driver.Defaults.{Config, RunningServers, run_driver}
use hostpathpv_plugin.Driver.Serve.{
  Service, identity_service, controller_service, node_service, Network, serve, listening, removed,
  opened, metrics_ready, started, run_and_serve,
}

abbrev pub all_services : List Service
all_services = identity_service ∷ controller_service ∷ node_service ∷ []

module _ {W F : Type 0} (net : Network W F) where
  abbrev Comes : List Service → Option (List Service × W) → Type 0
  Comes services out = (s : List Service) (w : W) → out ≡ some (s, w) → s ≡ services

  listening-Comes :
      (services : List Service) (ready : Option (Unit {0})) (o : Option W)
      → Comes services (listening net services ready o)
  listening-Comes services none o s w h = absurd (ground arith)
  listening-Comes services (some u) none s w h = absurd (ground arith)
  listening-Comes services (some u) (some v) s w h = ground arith

  removed-Comes :
      (services : List Service) (next : W → Option (List Service × W))
      (r : Result HostError (Unit {0}) × W)
      → ((w : W) → Comes services (next w))
      → Comes services (removed net next r)
  removed-Comes services next (ok u, w) h = h w
  removed-Comes services next (err not_exist, w) h = h w
  removed-Comes services next (err no_data, w) h = λ s v e. absurd (ground arith)
  removed-Comes services next (err call_failed, w) h = λ s v e. absurd (ground arith)
  removed-Comes services next (err no_backing_device, w) h = λ s v e. absurd (ground arith)

  opened-Comes :
      (services : List Service) (ready : Option (Unit {0})) (o : Option (GoString × GoString))
      (w : W)
      → Comes services (opened net services ready o w)
  opened-Comes services ready none w = λ s v h. absurd (ground arith)
  opened-Comes services ready (some (proto, addr)) w =
      elim (Bool-cases (str_eq proto (codes "unix"))) [
        | inl socket ↦ rw socket (
            removed-Comes services _ (net.remove (slash ∷ addr) w)
              (λ w'. listening-Comes services ready (net.listen proto (slash ∷ addr) w')))
        | inr other ↦ rw other (listening-Comes services ready (net.listen proto addr w))
      ]

  started-Comes :
      (endpoint hst_options : GoString) (o : Option RunningServers) (w : W)
      → Comes all_services (started net endpoint hst_options o w)
  unfolding serve
  started-Comes endpoint hst_options none w = λ s v h. absurd (ground arith)
  started-Comes endpoint hst_options (some r) w =
      opened-Comes all_services (metrics_ready net false hst_options) _ w

  -- Whichever servers the configuration asks for: a driver that comes up has registered the identity,
  -- the controller and the node service, also those whose server is a nil pointer.
  pub run_and_serve_all :
      (endpoint hst_options driver_version : GoString) (conf : Config) (store_ready : Bool)
      (w w' : W) (services : List Service)
      → run_and_serve net endpoint hst_options driver_version conf store_ready w
        ≡ some (services, w')
      → services ≡ all_services
  unfolding run_and_serve
  run_and_serve_all endpoint hst_options driver_version conf store_ready w w' services h =
      started-Comes endpoint hst_options (run_driver driver_version conf store_ready) w services w'
        h
