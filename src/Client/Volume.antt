-- ===== src/Client/Volume.antt =====
-- pkg/hostpathclient/persistentVolume.go and the look-up of a volume in client.go. The text of the
-- usage annotation, JSON in base64, is read by the parameter `read_usage`.
use hostpathpv_plugin.Base.{
  Bool, false, Option, none, some, [], ◌∷◌, ◌++◌, codes, GoString, GoMap, lookup, str_eq, is_empty,
  slash, if◌then◌else◌, ℤ, pos, ok, err,
}
use hostpathpv_plugin.Util.VolumeId.{decompose_csi_id}

abbrev pub host_path_csi_driver_name : GoString
host_path_csi_driver_name = codes "xfsquota.hostpath.csi"

abbrev pub host_path_pv_usage_info_ann : GoString
host_path_pv_usage_info_ann = codes "storage.hostpathpv.volume/allocate"

abbrev pub host_path_pv_bind_info_ann : GoString
host_path_pv_bind_info_ann = codes "storage.hostpathpv.volume/bind-node"

pub record PvUsageInfo : Type 0 where
  pub node_name : GoString
  pub path : GoString
  pub capacity : ℤ
  pub used : ℤ

-- The parts of corev1.PersistentVolume that are read; the storage capacity is its `Value()`. A claim
-- has a name and a namespace, a CSI source a driver and a volume handle.
pub record ApiVolume : Type 0 where
  pub version : GoString
  pub name : GoString
  pub namespace : GoString
  pub claim_ref : Option (GoString × GoString)
  pub csi : Option (GoString × GoString)
  pub storage : ℤ
  pub annotations : GoMap GoString

pub record PersistentVolume : Type 0 where
  pub version : GoString
  pub name : GoString
  pub namespace : GoString
  pub index : GoString
  pub vol_id : GoString
  pub is_host_path_pv : Bool
  pub bind_node : GoString
  pub ephemeral : Bool
  pub capacity : ℤ
  pub volume_path : GoString
  pub usage : ℤ

unfoldable pub persistent_volume_key : GoString → GoString → GoString
persistent_volume_key claim_name claim_namespace = claim_namespace ++ (slash ∷ claim_name)

-- m[k] of a map of strings
abbrev pub text_at : GoString → GoMap GoString → GoString
text_at k m = elim (lookup k m) [ none ↦ [] | some s ↦ s ]

unfoldable pub is_host_path_pv_of : ApiVolume → Bool
is_host_path_pv_of pv = elim pv.csi [
  | none ↦ false
  | some source ↦ str_eq source.0 host_path_csi_driver_name
]

unfoldable pub is_ephemeral : GoString → Bool
is_ephemeral handle = elim (decompose_csi_id handle) [ ok vi ↦ vi.ephemeral | err e ↦ false ]

module _ (read_usage : GoString → Option PvUsageInfo) where
  abbrev no_usage : PvUsageInfo
  no_usage = record { node_name = []; path = []; capacity = pos 0; used = pos 0 }

  -- An empty annotation reads as no usage.
  unfoldable pub get_host_path_pv_usage_info : ApiVolume → Option PvUsageInfo
  get_host_path_pv_usage_info pv =
      let text = text_at host_path_pv_usage_info_ann pv.annotations in
      if is_empty text then some no_usage else read_usage text

  abbrev with_usage : Option PvUsageInfo → PersistentVolume → PersistentVolume
  with_usage none hpv = hpv
  with_usage (some usage) hpv = record hpv { volume_path = usage.path; usage = usage.used }

  -- A volume without a claim or without a CSI source stops the program: `none`.
  abbrev converted :
      ApiVolume
      → Option (GoString × GoString)
      → Option (GoString × GoString)
      → Option PersistentVolume
  converted pv (some (claim, claim_namespace)) (some (driver, handle)) =
      let plain : PersistentVolume = record {
        version = pv.version;
        name = pv.name;
        namespace = pv.namespace;
        index = persistent_volume_key claim claim_namespace;
        vol_id = handle;
        is_host_path_pv = is_host_path_pv_of pv;
        bind_node = [];
        ephemeral = false;
        capacity = pos 0;
        volume_path = [];
        usage = pos 0;
      } in
      some (
        if is_host_path_pv_of pv
        then with_usage (get_host_path_pv_usage_info pv) (record plain {
          bind_node = text_at host_path_pv_bind_info_ann pv.annotations;
          ephemeral = is_ephemeral handle;
          capacity = pv.storage;
        })
        else plain)
  converted pv none source = none
  converted pv (some claim) none = none

  unfoldable pub to_persistent_volume : ApiVolume → Option PersistentVolume
  unfolding is_host_path_pv_of is_ephemeral get_host_path_pv_usage_info persistent_volume_key
  to_persistent_volume pv = converted pv pv.claim_ref pv.csi

  -- ToPersistentVolume: the conversion of the informer, for volumes that are bound. The outer `none`
  -- is a panic, the inner one the error for another phase.
  unfoldable pub to_bound_volume : Bool → ApiVolume → Option (Option PersistentVolume)
  unfolding to_persistent_volume
  to_bound_volume bound pv =
      if bound
      then elim (to_persistent_volume pv) [ none ↦ none | some hpv ↦ some (some hpv) ]
      else some none

  -- The volume of an identifier is looked up by the name in it. `get_pv` is the API server's answer,
  -- `none` for an error; the outer `none` is a panic.
  unfoldable pub get_host_path_pv_by_volume_id :
      (GoString → Option ApiVolume) → GoString → Option (Option PersistentVolume)
  unfolding to_persistent_volume
  get_host_path_pv_by_volume_id get_pv volume_id = elim (decompose_csi_id volume_id) [
    | err e ↦ some none
    | ok vi ↦ elim (get_pv vi.volume_name) [
      | none ↦ some none
      | some pv ↦ elim (to_persistent_volume pv) [ none ↦ none | some hpv ↦ some (some hpv) ]
    ]
  ]

-- The copy leaves the mark of a host-path volume at false.
unfoldable pub deep_copy_object : PersistentVolume → PersistentVolume
deep_copy_object p = record p { is_host_path_pv = false }
