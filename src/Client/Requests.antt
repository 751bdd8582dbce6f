-- ===== src/Client/Requests.antt =====
-- pkg/hostpathclient/client.go: the requests that write, over the API server, which is the parameter
-- `ObjectApi`; the look-up of a volume is in Volume. JSON and base64 are parameters.
pub mod Names
pub mod Disabled
use hostpathpv_plugin.Base.{Bool, Option, none, some, GoString, Result, ok, err, Act}
use hostpathpv_plugin.Client.Volume.{PvUsageInfo, PersistentVolume}
use hostpathpv_plugin.Client.Node.{ApiNode, NodeUsageInfo, Node, to_host_path_node}
use hostpathpv_plugin.Client.Patch.{
  get_host_path_pv_usage_info_patch_bytes, get_node_host_path_usage_info_patch_bytes,
  get_node_host_path_disabled_disks_patch_bytes,
}

pub data RequestError : Type 0 where
  not_marshalled refused : RequestError

-- Get of a node, and JSON patches of volumes and nodes.
pub record ObjectApi (K : Type 0) : Type 0 where
  pub get_node : GoString → K → Result RequestError ApiNode
  pub patch_volume : GoString → GoString → Act K RequestError (Unit {0})
  pub patch_node : GoString → GoString → Act K RequestError (Unit {0})

module _ {K : Type 0} (api : ObjectApi K) (base64 decode : GoString → GoString) where
  -- The node that comes with an error is converted too; it is the empty one of the library.
  unfoldable pub get_node_by_name :
      (GoString → Option NodeUsageInfo) → ApiNode → GoString → K → Node × Option RequestError
  get_node_by_name read_usage empty name k = elim (api.get_node name k) [
    | ok node ↦ (to_host_path_node read_usage decode node, none)
    | err e ↦ (to_host_path_node read_usage decode empty, some e)
  ]

  abbrev patched :
      (GoString → Act K RequestError (Unit {0}))
      → Option GoString
      → K
      → Result RequestError (Unit {0}) × K
  patched send none k = (err not_marshalled, k)
  patched send (some buf) k = send buf k

  unfoldable pub update_host_path_pv_usage_info :
      (PvUsageInfo → Option GoString) → GoString → PersistentVolume → Act K RequestError (Unit {0})
  update_host_path_pv_usage_info to_json pv_name hpv k =
      patched (api.patch_volume pv_name)
        (get_host_path_pv_usage_info_patch_bytes base64 to_json hpv) k

  unfoldable pub update_node_host_path_pv_usage_info :
      (NodeUsageInfo → Option GoString) → GoString → NodeUsageInfo → Act K RequestError (Unit {0})
  update_node_host_path_pv_usage_info to_json node_name usage k =
      patched (api.patch_node node_name)
        (get_node_host_path_usage_info_patch_bytes base64 to_json usage) k

  -- A state that is true enables the disk.
  abbrev state_patched :
      GoString
      → GoString
      → Bool
      → Result RequestError ApiNode
      → K
      → Result RequestError (Unit {0}) × K
  state_patched node_name disk_path state (err e) k = (err e, k)
  state_patched node_name disk_path state (ok node) k =
      api.patch_node node_name
        (get_node_host_path_disabled_disks_patch_bytes base64 decode node disk_path state) k

  unfoldable pub set_host_path_disk_disable_state :
      GoString → GoString → Bool → Act K RequestError (Unit {0})
  set_host_path_disk_disable_state node_name disk_path state k =
      state_patched node_name disk_path state (api.get_node node_name k) k
