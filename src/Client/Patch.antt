-- ===== src/Client/Patch.antt =====
-- The JSON patches of pkg/hostpathclient: client.go (the encoder of paths), persistentVolume.go and
-- node.go (the texts). JSON and base64 are the parameters `to_json` and `base64`.
pub mod Pointer
use hostpathpv_plugin.Base.{
  join_with, Bool, Option, none, some, List, [], ◌∷◌, ◌++◌, map, codes, GoString, GoMap, insert,
  delete, ◌==◌, if◌then◌else◌,
}
use hostpathpv_plugin.Client.Volume.{
  PvUsageInfo, PersistentVolume, host_path_pv_usage_info_ann, host_path_pv_bind_info_ann,
}
use hostpathpv_plugin.Client.Node.{
  ApiNode, NodeUsageInfo, get_node_host_path_disabled_disks, node_disk_quota_info_ann,
  node_disk_quota_disabled_disks_ann,
}

-- rfc6901Encoder: each `~` and each `/` is replaced.
unfoldable pub rfc6901_encode : GoString → GoString
rfc6901_encode [] = []
rfc6901_encode (c ∷ s) =
    let rest = rfc6901_encode s in
    if c == b'~' then b'~' ∷ b'0' ∷ rest else if c == b'/' then b'~' ∷ b'1' ∷ rest else c ∷ rest

-- What the four functions write: one `add` of an annotation.
unfoldable pub annotation_patch : GoString → GoString → GoString
unfolding rfc6901_encode
annotation_patch key value =
    codes "[{"
    ++ codes "\"op\":\"add\""
    ++ codes ",\"path\":\"/metadata/annotations/"
    ++ rfc6901_encode key
    ++ codes "\""
    ++ codes ",\"value\": \""
    ++ value
    ++ codes "\""
    ++ codes "}]"

unfoldable pub get_host_path_pv_bind_node_patch_bytes : GoString → GoString
get_host_path_pv_bind_node_patch_bytes node_name =
    annotation_patch host_path_pv_bind_info_ann node_name

-- `enable` takes the disk out of the disabled ones. The order of the disks is that of a map.
abbrev pub changed_disks : Bool → GoString → GoMap (Unit {0}) → GoMap (Unit {0})
changed_disks enable disk disks = if enable then delete disk disks else insert disk tt disks

abbrev pub disk_names : GoMap (Unit {0}) → List GoString
disk_names disks = map (λ (e : GoString × Unit {0}). e.0) disks

module _ (base64 : GoString → GoString) where
  unfoldable pub get_host_path_pv_usage_info_patch_bytes :
      (PvUsageInfo → Option GoString) → PersistentVolume → Option GoString
  get_host_path_pv_usage_info_patch_bytes to_json hpv =
      elim (to_json (record {
        node_name = hpv.bind_node;
        path = hpv.volume_path;
        capacity = hpv.capacity;
        used = hpv.usage;
      })) [
        | none ↦ none
        | some buf ↦ some (annotation_patch host_path_pv_usage_info_ann (base64 buf))
      ]

  unfoldable pub get_node_host_path_usage_info_patch_bytes :
      (NodeUsageInfo → Option GoString) → NodeUsageInfo → Option GoString
  get_node_host_path_usage_info_patch_bytes to_json usage = elim (to_json usage) [
    | none ↦ none
    | some buf ↦ some (annotation_patch node_disk_quota_info_ann (base64 buf))
  ]

  -- The text of the annotation.
  unfoldable pub disabled_disks_value : (GoString → GoString) → ApiNode → GoString → Bool → GoString
  disabled_disks_value decode node disk_path enable = base64 (
      join_with b',' (
        disk_names
          (changed_disks enable disk_path (get_node_host_path_disabled_disks decode node))))

  unfoldable pub get_node_host_path_disabled_disks_patch_bytes :
      (GoString → GoString) → ApiNode → GoString → Bool → GoString
  unfolding disabled_disks_value get_node_host_path_disabled_disks
  get_node_host_path_disabled_disks_patch_bytes decode node disk_path enable =
      annotation_patch node_disk_quota_disabled_disks_ann
        (disabled_disks_value decode node disk_path enable)
