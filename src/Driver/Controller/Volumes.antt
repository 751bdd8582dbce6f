-- ===== src/Driver/Controller/Volumes.antt =====
-- What a successful answer of csi-plugin/hostpath/controllerserver.go promises.
use hostpathpv_plugin.Base.{
  ◌≡◌, refl, ap, ◌∙◌, Bool, true, arith, codes, GoString, Option, none, some, str_eq_refl,
  if◌then◌else◌, Result, ok, err, Code, Bool-cases, inl, inr, ok-injective, subst,
}
use hostpathpv_plugin.Util.VolumeId.{IdError, compose_csi_id, decompose_csi_id}
use hostpathpv_plugin.Util.VolumeId.RoundTrip.{decompose-compose, compose_fits}
use hostpathpv_plugin.Util.VolumeLocks
use hostpathpv_plugin.Util.VolumeLocks.{VolumeLocks}
use hostpathpv_plugin.Util.Request.{Checked}
use hostpathpv_plugin.Util.Size.{round_off_bytes}
use hostpathpv_plugin.Quota.Naming.{parse_bool}
use hostpathpv_plugin.Client.Volume.{text_at}
use hostpathpv_plugin.Driver.Capability.{CsiDriver}
use hostpathpv_plugin.Driver.MetaStore.{StoreError, ConfigMaps, add_meta_info}
use hostpathpv_plugin.Driver.MetaStore.Contents.{KeepsUpdates, Marks, lists, add_meta_info-Marks}
use hostpathpv_plugin.Driver.Locking.{Server, with_volume_lock, after_body}
use hostpathpv_plugin.Driver.Controller.{
  CreateVolumeRequest, CsiVolume, validate_create_volume_request, requested_bytes, stored,
  identified, identifier, with_ephemeral, create_locked, when_checked, create_volume,
}

module _ {K : Type 0} (api : ConfigMaps K) (d : CsiDriver) where
  abbrev Answer : Type 0
  Answer = Result Code CsiVolume × K

  -- What a created volume is: its identifier reads back as the request's name and flag, its capacity
  -- is the rounded one, and the store lists it.
  pub record IsCreated (req : CreateVolumeRequest) (v : CsiVolume) (k : K) : Type 0 where
    pub flag : Bool
    pub read_flag : parse_bool (text_at (codes "ephemeral") req.parameters) ≡ some flag
    pub named : decompose_csi_id v.volume_id ≡ ok (identifier api d req.name flag)
    pub sized : v.capacity_bytes ≡ round_off_bytes (requested_bytes req.required_bytes)
    pub listed : lists api v.volume_id k ≡ true

  abbrev Creates : CreateVolumeRequest → Answer → Type 0
  Creates req (ok v, k) = IsCreated req v k
  Creates req (err e, k) = Unit

  module _ (laws : KeepsUpdates api) (req : CreateVolumeRequest) (flag : Bool)
      (parsed : parse_bool (text_at (codes "ephemeral") req.parameters) ≡ some flag) where
    stored-Creates :
        (id : GoString) (k : K) (p : Result StoreError (Unit {0}) × K)
        → decompose_csi_id id ≡ ok (identifier api d req.name flag)
        → Marks api laws true id k p
        → Creates req (stored api d id req p)
    stored-Creates id k (ok u, k') e marks = record {
      flag = flag;
      read_flag = parsed;
      named = e;
      sized = refl;
      listed = marks id ∙ ap (λ (b : Bool). if b then true else lists api id k) (str_eq_refl id);
    }
    stored-Creates id k (err f, k') e marks = tt

    identified-Creates :
        (x : Result IdError GoString) (k : K)
        → compose_csi_id (identifier api d req.name flag) ≡ x
        → Creates req (identified api d req x k)
    identified-Creates (ok id) k e =
        let fits = compose_fits (identifier api d req.name flag) id e in
        let back = decompose-compose (identifier api d req.name flag) (omega arith) fits in
        stored-Creates id k (add_meta_info api id k) (rw e at back)
          (add_meta_info-Marks api laws id k)
    identified-Creates (err f) k e = tt

  create_locked-Creates :
      KeepsUpdates api
      → (req : CreateVolumeRequest) (k : K) → Creates req (create_locked api d req k)
  unfolding create_locked
  create_locked-Creates laws req k =
      from (parse_bool (text_at (codes "ephemeral") req.parameters)) refl
    where
      from :
          (x : Option Bool)
          → parse_bool (text_at (codes "ephemeral") req.parameters) ≡ x
          → Creates req (with_ephemeral api d req x k)
      from none e = tt
      from (some flag) e =
          identified-Creates laws req flag e (compose_csi_id (identifier api d req.name flag)) k
            refl

  abbrev CreatesOn : CreateVolumeRequest → Result Code CsiVolume × Server K → Type 0
  CreatesOn req (ok v, s) = IsCreated req v s.world
  CreatesOn req (err e, s) = Unit

  locked-CreatesOn :
      (req : CreateVolumeRequest) (s : Server K) (p : Answer)
      → Creates req p
      → CreatesOn req (after_body req.name (VolumeLocks.try_acquire req.name s.volume_locks).1 p)
  locked-CreatesOn req s (ok v, k) h = h
  locked-CreatesOn req s (err e, k) h = tt

  checked-CreatesOn :
      (req : CreateVolumeRequest) (x : Checked) (s : Server K)
      (p : Result Code CsiVolume × Server K)
      → CreatesOn req p
      → CreatesOn req (when_checked api d x s p)
  checked-CreatesOn req (ok u) s p h = h
  checked-CreatesOn req (err e) s p h = tt

  create_volume-CreatesOn :
      KeepsUpdates api
      → (req : CreateVolumeRequest) (s : Server K) → CreatesOn req (create_volume api d req s)
  unfolding create_volume with_volume_lock
  create_volume-CreatesOn laws req s =
      checked-CreatesOn req (validate_create_volume_request d req) s _
        (elim (Bool-cases (VolumeLocks.try_acquire req.name s.volume_locks).0) [
          | inl won ↦ rw won (locked-CreatesOn req s _ (create_locked-Creates laws req s.world))
          | inr lost ↦ rw lost tt
        ])

  answer-IsCreated :
      (req : CreateVolumeRequest) (v : CsiVolume) (p : Result Code CsiVolume × Server K)
      → CreatesOn req p
      → p.0 ≡ ok v
      → IsCreated req v p.1.world
  answer-IsCreated req v (ok w, s) h e = subst (λ x. IsCreated req x s.world) (ok-injective e) h
  answer-IsCreated req v (err f, s) h e = absurd (ground arith)

  -- If the API server keeps updates: a volume that CreateVolume returns has an identifier that
  -- reads back as the name and the ephemeral flag of the request, has the requested capacity,
  -- rounded off, and is listed in the store.
  pub create_volume-IsCreated :
      (req : CreateVolumeRequest) (v : CsiVolume) (s : Server K)
      → KeepsUpdates api
      → (create_volume api d req s).0 ≡ ok v
      → IsCreated req v (create_volume api d req s).1.world
  create_volume-IsCreated req v s laws =
      answer-IsCreated req v (create_volume api d req s) (create_volume-CreatesOn laws req s)
