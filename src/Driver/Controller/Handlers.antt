-- ===== src/Driver/Controller/Handlers.antt =====
-- Locks, removals and sizes in csi-plugin/hostpath/controllerserver.go.
use hostpathpv_plugin.Base.{
  ◌≡◌, refl, ap, ◌∙◌, Bool, false, arith, GoString, Option, none, some, is_empty, str_eq_refl,
  if◌then◌else◌, ℤ, Result, ok, err, Code, Bool-cases, inl, inr,
}
use hostpathpv_plugin.Util.Request.{Checked}
use hostpathpv_plugin.Driver.Capability.{
  CsiDriver, create_delete_volume, expand_volume_rpc, validate_controller_service_request,
}
use hostpathpv_plugin.Driver.MetaStore.{StoreError, ConfigMaps, unset_meta_info}
use hostpathpv_plugin.Driver.MetaStore.Contents.{KeepsUpdates, Marks, lists, unset_meta_info-Marks}
use hostpathpv_plugin.Driver.Locking.{Server, on_server}
use hostpathpv_plugin.Driver.Locking.Released.{SameLocks, with_volume_lock-SameLocks}
use hostpathpv_plugin.Driver.Controller.{
  CreateVolumeRequest, ControllerExpandVolumeRequest, validate_create_volume_request, create_locked,
  when_checked, create_volume, removed, delete_volume, controller_expand_volume, expand_to,
}

-- The calls of the controller service.
pub data ControllerCall : Type 0 where
  creates : CreateVolumeRequest → ControllerCall
  deletes : GoString → ControllerCall
  expands : ControllerExpandVolumeRequest → ControllerCall

module _ {K : Type 0} (api : ConfigMaps K) (d : CsiDriver) where
  unfoldable pub handle_controller : ControllerCall → Server K → Server K
  handle_controller (creates req) s = (create_volume api d req s).1
  handle_controller (deletes volume_id) s = (delete_volume api d volume_id s).1
  handle_controller (expands req) s = (controller_expand_volume api d req s).1

  checked-SameLocks :
      {A : Type 0} (x : Checked) (s : Server K) (next : Result Code A × Server K)
      → SameLocks s next.1
      → SameLocks s (when_checked api d x s next).1
  checked-SameLocks (ok u) s next h = h
  checked-SameLocks (err e) s next h = λ j. refl

  expand_to-SameLocks :
      (id : GoString) (bytes : Option ℤ) (s : Server K) → SameLocks s (expand_to api d id bytes s).1
  expand_to-SameLocks id none s = λ j. refl
  expand_to-SameLocks id (some bytes) s = with_volume_lock-SameLocks id _ s

  -- Whatever the controller answers to a creation, a removal or an expansion, the same volumes are
  -- locked after the call as before it.
  pub controller-SameLocks :
      (c : ControllerCall) (s : Server K) → SameLocks s (handle_controller c s)
  unfolding handle_controller create_volume delete_volume controller_expand_volume
  controller-SameLocks (creates req) s =
      checked-SameLocks (validate_create_volume_request d req) s _
        (with_volume_lock-SameLocks req.name (create_locked api d req) s)
  controller-SameLocks (deletes id) s =
      checked-SameLocks (validate_controller_service_request create_delete_volume d) s _
        (elim (Bool-cases (is_empty id)) [
          | inl empty ↦ rw empty (λ j. refl)
          | inr named ↦ rw named (λ j. refl)
        ])
  controller-SameLocks (expands req) s =
      checked-SameLocks (validate_controller_service_request expand_volume_rpc d) s _
        (elim (Bool-cases (is_empty req.volume_id)) [
          | inl empty ↦ rw empty (λ j. refl)
          | inr named ↦ rw named (expand_to-SameLocks req.volume_id req.required_bytes s)
        ])

  -- The store after an answer to a removal.
  abbrev Unlists : GoString → Result Code (Unit {0}) × Server K → Type 0
  Unlists id p = p.0 ≡ ok tt → lists api id p.1.world ≡ false

  checked-Unlists :
      (id : GoString) (x : Checked) (s : Server K) (p : Result Code (Unit {0}) × Server K)
      → Unlists id p
      → Unlists id (when_checked api d x s p)
  checked-Unlists id (ok u) s p h = h
  checked-Unlists id (err e) s p h = λ k. absurd (ground arith)

  removed-Unlists :
      (laws : KeepsUpdates api) (id : GoString) (s : Server K)
      (p : Result StoreError (Unit {0}) × K)
      → Marks api laws false id s.world p
      → Unlists id (on_server s (removed api d p))
  removed-Unlists laws id s (ok u, k) marks =
      λ h. marks id ∙ ap (λ (b : Bool). if b then false else lists api id s.world) (str_eq_refl id)
  removed-Unlists laws id s (err e, k) marks = λ h. absurd (ground arith)

  -- If the API server keeps updates: after DeleteVolume succeeds, the store does not list the
  -- volume.
  pub delete_volume_unlists :
      (id : GoString) (s : Server K)
      → KeepsUpdates api
      → (delete_volume api d id s).0 ≡ ok tt
      → lists api id (delete_volume api d id s).1.world ≡ false
  unfolding delete_volume
  delete_volume_unlists id s laws =
      checked-Unlists id (validate_controller_service_request create_delete_volume d) s _
        (elim (Bool-cases (is_empty id)) [
          | inl empty ↦ rw empty (λ h. absurd (ground arith))
          | inr named ↦ rw named (
              removed-Unlists laws id s (unset_meta_info api id s.world)
                (unset_meta_info-Marks api laws id s.world))
        ])
