-- ===== src/Examples/Controllers.antt =====
-- The store of volumes and the controller server at work.
use hostpathpv_plugin.Base.{
  ◌≡◌, refl, true, false, some, [], ◌∷◌, arith, codes, GoString, GoMap, lookup, insert, str_eq, pos,
  ok, to_i64,
}
use hostpathpv_plugin.Util.VolumeId.{compose_csi_id, encode16, format_bool_to_uint16, hex_digit}
use hostpathpv_plugin.Util.VolumeLocks
use hostpathpv_plugin.Util.VolumeLocks.{VolumeLocks}
use hostpathpv_plugin.Util.Request.{mount_with}
use hostpathpv_plugin.Util.Size.{round_off_bytes, to_float, extra_bits, round_to_even, ceil_to}
use hostpathpv_plugin.Util.Size.Rounding.{IsRounded, round_off_bytes-IsRounded}
use hostpathpv_plugin.Quota.Naming
use hostpathpv_plugin.Client.Volume.{host_path_csi_driver_name}
use hostpathpv_plugin.Driver.Capability.{
  CsiDriver, create_delete_volume, expand_volume_rpc, validate_controller_service_request, rpc_eq,
}
use hostpathpv_plugin.Driver.MetaStore.{ConfigMaps, add_meta_info, unset_meta_info}
use hostpathpv_plugin.Driver.MetaStore.Contents.{
  KeepsUpdates, Marks, lists, add_meta_info-Marks, unset_meta_info-Marks,
}
use hostpathpv_plugin.Driver.Locking.{Server, with_volume_lock}
use hostpathpv_plugin.Driver.Locking.Released.{SameLocks}
use hostpathpv_plugin.Driver.Controller.{
  CreateVolumeRequest, CsiVolume, create_volume, create_locked, delete_volume,
  validate_create_volume_request, any_block,
}
use hostpathpv_plugin.Driver.Controller.Volumes.{IsCreated, create_volume-IsCreated}
use hostpathpv_plugin.Driver.Controller.Handlers.{
  handle_controller, creates, controller-SameLocks, delete_volume_unlists,
}

round_off_bytes-IsRounded_example : IsRounded 1153434 (round_off_bytes (pos 1153434))
round_off_bytes-IsRounded_example = round_off_bytes-IsRounded 1153434 (omega arith)

-- An API server that keeps one map.
abbrev pub maps : ConfigMaps (GoMap GoString)
maps = record { get = λ k. ok k; create = λ k. (ok tt, []); update = λ m k. (ok tt, m) }

maps-KeepsUpdates : KeepsUpdates maps
maps-KeepsUpdates = record { updated = λ m k h. refl; refused = λ m k e h. absurd (ground arith) }

abbrev pub id : GoString
id = codes "0001-0001-0006-pvc-17"

add_meta_info-Marks_example : Marks maps maps-KeepsUpdates true id [] (add_meta_info maps id [])
add_meta_info-Marks_example = add_meta_info-Marks maps maps-KeepsUpdates id []

unset_meta_info-Marks_example :
    Marks maps maps-KeepsUpdates false id ((id, []) ∷ []) (unset_meta_info maps id ((id, []) ∷ []))
unset_meta_info-Marks_example = unset_meta_info-Marks maps maps-KeepsUpdates id ((id, []) ∷ [])

abbrev driver : CsiDriver
driver = record {
  name = host_path_csi_driver_name;
  node_id = codes "n1";
  version = codes "v1";
  cap = create_delete_volume ∷ expand_volume_rpc ∷ [];
}

abbrev create_request : CreateVolumeRequest
create_request = record {
  name = codes "pvc-17";
  volume_capabilities = some (mount_with [] ∷ []);
  required_bytes = some (pos 3000000);
  parameters = (codes "ephemeral", codes "true") ∷ [];
}

abbrev controller : Server (GoMap GoString)
controller = record { volume_locks = record { locks = codes "pvc-3" ∷ [] }; world = [] }

abbrev created : CsiVolume
created = record {
  volume_id = id;
  capacity_bytes = pos 3145728;
  volume_context = create_request.parameters;
}

create_volume-IsCreated_example :
    IsCreated maps driver create_request created
      (create_volume maps driver create_request controller).1.world
unfolding create_volume validate_create_volume_request validate_controller_service_request rpc_eq
    any_block with_volume_lock VolumeLocks.try_acquire VolumeLocks.has_lock VolumeLocks.release
    str_eq create_locked Naming.parse_bool lookup compose_csi_id encode16 hex_digit
    format_bool_to_uint16 add_meta_info insert round_off_bytes to_float extra_bits round_to_even
    ceil_to to_i64
create_volume-IsCreated_example =
    create_volume-IsCreated maps driver create_request created controller maps-KeepsUpdates refl

controller-SameLocks_example :
    SameLocks controller (handle_controller maps driver (creates create_request) controller)
controller-SameLocks_example = controller-SameLocks maps driver (creates create_request) controller

abbrev holding : Server (GoMap GoString)
holding = record controller { world = (id, []) ∷ [] }

delete_volume_unlists_example : lists maps id (delete_volume maps driver id holding).1.world ≡ false
unfolding delete_volume validate_controller_service_request rpc_eq unset_meta_info
delete_volume_unlists_example = delete_volume_unlists maps driver id holding maps-KeepsUpdates refl
