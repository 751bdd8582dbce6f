-- ===== src/Driver/MetaStore/Contents.antt =====
-- What the store of csi-plugin/hostpath/metestore.go holds after its operations.
use hostpathpv_plugin.Base.{
  ◌≡◌, refl, Bool, true, false, arith, GoString, GoMap, insert, delete, has, lookup-insert,
  lookup-delete, str_eq, if◌then◌else◌, Result, ok, err, sym, ap, ◌∙◌, [],
}
use hostpathpv_plugin.Driver.MetaStore.{
  StoreError, ConfigMaps, list_meta_infos, add_meta_info, unset_meta_info,
}

-- An update that succeeds is what is read next; one that fails leaves the data as they were.
pub record KeepsUpdates {K : Type 0} (api : ConfigMaps K) : Type 0 where
  pub updated :
      (m : GoMap GoString) (k : K) → (api.update m k).0 ≡ ok tt → api.get (api.update m k).1 ≡ ok m
  pub refused :
      (m : GoMap GoString) (k : K) (e : StoreError)
      → (api.update m k).0 ≡ err e
      → api.get (api.update m k).1 ≡ api.get k

abbrev listed : Result StoreError (GoMap GoString) → GoString → Bool
listed (ok m) id = has id m
listed (err e) id = false

-- Whether the store lists a volume; a store that cannot be read lists none.
abbrev pub lists : {K : Type 0} → ConfigMaps K → GoString → K → Bool
lists api id k = listed (list_meta_infos api k) id

module _ {K : Type 0} (api : ConfigMaps K) (laws : KeepsUpdates api) where
  -- What an operation on a volume leaves in the store: `mark` for the volume if it succeeds, the
  -- other volumes as they were, and everything as it was if it fails.
  abbrev pub Marks : Bool → GoString → K → Result StoreError (Unit {0}) × K → Type 0
  Marks mark id k (ok u, k') =
      (j : GoString) → lists api j k' ≡ (if str_eq id j then mark else lists api j k)
  Marks mark id k (err e, k') = (j : GoString) → lists api j k' ≡ lists api j k

  update_marks :
      (mark : Bool) (id : GoString) (m n : GoMap GoString) (k : K)
      (x : Result StoreError (Unit {0}))
      → api.get k ≡ ok m
      → (api.update n k).0 ≡ x
      → ((j : GoString) → has j n ≡ (if str_eq id j then mark else has j m))
      → Marks mark id k (x, (api.update n k).1)
  unfolding list_meta_infos
  update_marks mark id m n k (ok u) e h same = λ j.
      let before : lists api j k ≡ has j m = ap (λ r. listed r j) e in
      let after : lists api j (api.update n k).1 ≡ has j n =
        ap (λ r. listed r j) (laws.updated n k h) in
      after ∙ same j ∙ ap (λ (b : Bool). if str_eq id j then mark else b) (sym before)
  update_marks mark id m n k (err f) e h same = λ j. ap (λ r. listed r j) (laws.refused n k f h)

  -- If the API server keeps updates: after an addition that succeeds the store lists the volume
  -- and lists the others as before; after one that fails it lists what it did.
  pub add_meta_info-Marks : (id : GoString) (k : K) → Marks true id k (add_meta_info api id k)
  unfolding add_meta_info
  add_meta_info-Marks id k = from (api.get k) refl
    where
      from :
          (x : Result StoreError (GoMap GoString))
          → api.get k ≡ x
          → Marks true id k (add_meta_info api id k)
      from (err e) h = rw (h, add_meta_info) (λ j. refl)
      from (ok m) h =
          rw (h, add_meta_info)
            (update_marks true id m (insert id [] m) k (api.update (insert id [] m) k).0 h refl
              (λ j. ground (arith, lookup-insert id j [] m)))

  -- If the API server keeps updates: after a removal that succeeds the store does not list the
  -- volume and lists the others as before; after one that fails it lists what it did.
  pub unset_meta_info-Marks : (id : GoString) (k : K) → Marks false id k (unset_meta_info api id k)
  unfolding unset_meta_info
  unset_meta_info-Marks id k = from (api.get k) refl
    where
      from :
          (x : Result StoreError (GoMap GoString))
          → api.get k ≡ x
          → Marks false id k (unset_meta_info api id k)
      from (err e) h = rw (h, unset_meta_info) (λ j. refl)
      from (ok m) h =
          rw (h, unset_meta_info)
            (update_marks false id m (delete id m) k (api.update (delete id m) k).0 h refl
              (λ j. ground (arith, lookup-delete id j m)))
