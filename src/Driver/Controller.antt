-- ===== src/Driver/Controller.antt =====
-- csi-plugin/hostpath/controllerserver.go. The world of the handlers is the store of volumes.
pub mod Volumes
pub mod Handlers
use hostpathpv_plugin.Base.{
  ℕ, ◌*◌, Bool, true, false, Option, none, some, List, [], ◌∷◌, codes, GoString, GoMap, is_empty,
  if◌then◌else◌, ℤ, pos, Result, ok, err, Code, invalid_argument, unimplemented, internal,
}
use hostpathpv_plugin.Util.VolumeId.{CsiIdentifier, IdError, compose_csi_id, vol_id_version}
use hostpathpv_plugin.Util.Size.{round_off_bytes, mib}
use hostpathpv_plugin.Util.Request.{VolumeCapability, block, mount_with, no_access_type, Checked}
use hostpathpv_plugin.Quota.Naming.{parse_bool}
use hostpathpv_plugin.Client.Volume.{text_at}
use hostpathpv_plugin.Driver.Capability.{
  CsiDriver, create_delete_volume, expand_volume_rpc, validate_controller_service_request,
}
use hostpathpv_plugin.Driver.MetaStore.{StoreError, ConfigMaps, add_meta_info, unset_meta_info}
use hostpathpv_plugin.Driver.Locking.{Server, with_volume_lock, on_server}

-- `none` for capabilities that are nil and for a missing capacity range. The content source, which
-- is only passed on, is left out.
pub record CreateVolumeRequest : Type 0 where
  pub name : GoString
  pub volume_capabilities : Option (List VolumeCapability)
  pub required_bytes : Option ℤ
  pub parameters : GoMap GoString

pub record CsiVolume : Type 0 where
  pub volume_id : GoString
  pub capacity_bytes : ℤ
  pub volume_context : GoMap GoString

pub record ControllerExpandVolumeRequest : Type 0 where
  pub volume_id : GoString
  pub required_bytes : Option ℤ

unfoldable pub any_block : List VolumeCapability → Bool
any_block [] = false
any_block (block ∷ caps) = true
any_block (mount_with flags ∷ caps) = any_block caps
any_block (no_access_type ∷ caps) = any_block caps

abbrev served : Checked → Checked → Checked
served (ok u) next = next
served (err e) next = err e

abbrev supported_capabilities : Option (List VolumeCapability) → Checked
supported_capabilities none = err invalid_argument
supported_capabilities (some caps) = if any_block caps then err unimplemented else ok tt

unfoldable pub validate_create_volume_request : CsiDriver → CreateVolumeRequest → Checked
unfolding any_block
validate_create_volume_request d req =
    served (validate_controller_service_request create_delete_volume d) (
      if is_empty req.name
      then err invalid_argument
      else supported_capabilities req.volume_capabilities)

-- 100 MiB without a range.
abbrev requested_bytes : Option ℤ → ℤ
requested_bytes none = pos (mib * 100)
requested_bytes (some bytes) = bytes

-- The answer about volume capabilities: `none` for the response without a confirmation.
unfoldable pub validate_volume_capabilities :
    GoString → List VolumeCapability → Result Code (Option (List VolumeCapability))
unfolding any_block
validate_volume_capabilities volume_id [] = err invalid_argument
validate_volume_capabilities volume_id (c ∷ caps) =
    if is_empty volume_id
    then err invalid_argument
    else if any_block (c ∷ caps)
    then ok none
    else ok (some (c ∷ caps))

module _ {K : Type 0} (api : ConfigMaps K) (d : CsiDriver) where
  abbrev stored :
      GoString → CreateVolumeRequest → Result StoreError (Unit {0}) × K → Result Code CsiVolume × K
  stored volume_id req (ok u, k) = (
    ok (record {
      volume_id = volume_id;
      capacity_bytes = round_off_bytes (requested_bytes req.required_bytes);
      volume_context = req.parameters;
    }),
    k,
  )
  stored volume_id req (err e, k) = (err invalid_argument, k)

  abbrev identified : CreateVolumeRequest → Result IdError GoString → K → Result Code CsiVolume × K
  identified req (ok volume_id) k = stored volume_id req (add_meta_info api volume_id k)
  identified req (err e) k = (err internal, k)

  abbrev identifier : GoString → Bool → CsiIdentifier
  identifier name ephemeral = record {
    encoding_version = vol_id_version;
    ephemeral = ephemeral;
    volume_name = name;
  }

  abbrev with_ephemeral : CreateVolumeRequest → Option Bool → K → Result Code CsiVolume × K
  with_ephemeral req none k = (err invalid_argument, k)
  with_ephemeral req (some ephemeral) k =
      identified req (compose_csi_id (identifier req.name ephemeral)) k

  -- What is done under the lock on the name.
  unfoldable pub create_locked : CreateVolumeRequest → K → Result Code CsiVolume × K
  create_locked req k =
      with_ephemeral req (parse_bool (text_at (codes "ephemeral") req.parameters)) k

  abbrev when_checked {ℓ} :
      {A : Type ℓ} → Checked → Server K → Result Code A × Server K → Result Code A × Server K
  when_checked (ok u) s next = next
  when_checked (err e) s next = (err e, s)

  unfoldable pub create_volume : CreateVolumeRequest → Server K → Result Code CsiVolume × Server K
  unfolding validate_create_volume_request
  create_volume req s =
      when_checked (validate_create_volume_request d req) s
        (with_volume_lock req.name (create_locked req) s)

  abbrev removed : Result StoreError (Unit {0}) × K → Result Code (Unit {0}) × K
  removed (ok u, k) = (ok tt, k)
  removed (err e, k) = (err invalid_argument, k)

  -- DeleteVolume takes no lock.
  unfoldable pub delete_volume : GoString → Server K → Result Code (Unit {0}) × Server K
  delete_volume volume_id s =
      when_checked (validate_controller_service_request create_delete_volume d) s (
        if is_empty volume_id
        then (err invalid_argument, s)
        else on_server s (removed (unset_meta_info api volume_id s.world)))

  abbrev expand_to : GoString → Option ℤ → Server K → Result Code ℤ × Server K
  expand_to volume_id none s = (err invalid_argument, s)
  expand_to volume_id (some bytes) s =
      with_volume_lock volume_id (λ k. (ok (round_off_bytes bytes), k)) s

  -- The capacity that the response has; the response always asks for an expansion on the node.
  unfoldable pub controller_expand_volume :
      ControllerExpandVolumeRequest → Server K → Result Code ℤ × Server K
  controller_expand_volume req s =
      when_checked (validate_controller_service_request expand_volume_rpc d) s (
        if is_empty req.volume_id
        then (err invalid_argument, s)
        else expand_to req.volume_id req.required_bytes s)
