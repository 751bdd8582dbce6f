-- ===== src/Examples/Starts.antt =====
-- A driver that comes up as a node server only.
use hostpathpv_plugin.Base.{
  ◌≡◌, refl, true, false, some, [], codes, ok, index_of, has_prefix, str_eq,
}
use hostpathpv_plugin.Driver.Capability.{new_csi_driver, add_controller_service_capabilities}
use hostpathpv_plugin.Driver.Common.{parse_endpoint}
use hostpathpv_plugin.Driver.Defaults.{Config, run_driver}
use hostpathpv_plugin.Driver.Serve.{Network, serve, registered, metrics_ready, run_and_serve}
use hostpathpv_plugin.Driver.Serve.Services.{all_services, run_and_serve_all}

abbrev net : Network (Unit {0}) (Unit {0})
net = record {
  to_lower = λ s. s;
  remove = λ p w. (ok tt, w);
  listen = λ proto addr w. some w;
  parse_float = λ s. (tt, true);
  atoi = λ s. (0, true);
  buckets = λ start factor count. some tt;
}

abbrev node_only : Config
node_only = record { node_id = codes "n1"; is_node_server = true; is_controller_server = false }

run_and_serve_all_example : all_services ≡ all_services
unfolding run_and_serve run_driver new_csi_driver add_controller_service_capabilities serve
    registered metrics_ready parse_endpoint index_of has_prefix str_eq
run_and_serve_all_example =
    run_and_serve_all net (codes "unix://csi.sock") [] (codes "v1") node_only true tt tt
      all_services refl
