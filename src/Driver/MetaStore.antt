-- ===== src/Driver/MetaStore.antt =====
-- csi-plugin/hostpath/metestore.go: the volumes in a config map. The API server, for the one config
-- map of the store, is the parameter `ConfigMaps`.
pub mod Contents
use hostpathpv_plugin.Base.{Bool, [], GoString, GoMap, insert, delete, Result, ok, err, Act}

pub data StoreError : Type 0 where
  not_found request_failed : StoreError

-- Get, Create and Update of the config map; `get` and `update` speak of its data.
pub record ConfigMaps (K : Type 0) : Type 0 where
  pub get : K → Result StoreError (GoMap GoString)
  pub create : Act K StoreError (Unit {0})
  pub update : GoMap GoString → Act K StoreError (Unit {0})

module _ {K : Type 0} (api : ConfigMaps K) where
  abbrev created : Result StoreError (GoMap GoString) → K → Result StoreError (Unit {0}) × K
  created (ok data_map) k = (ok tt, k)
  created (err not_found) k = api.create k
  created (err request_failed) k = (err request_failed, k)

  -- Init: the map is created if it is not there.
  unfoldable pub init_meta_store : Act K StoreError (Unit {0})
  init_meta_store k = created (api.get k) k

  unfoldable pub list_meta_infos : K → Result StoreError (GoMap GoString)
  list_meta_infos k = api.get k

  -- A data map that is nil counts as empty.
  unfoldable pub add_meta_info : GoString → Act K StoreError (Unit {0})
  add_meta_info volume_id k = elim (api.get k) [
    | ok data_map ↦ api.update (insert volume_id [] data_map) k
    | err e ↦ (err e, k)
  ]

  unfoldable pub unset_meta_info : GoString → Act K StoreError (Unit {0})
  unset_meta_info volume_id k = elim (api.get k) [
    | ok data_map ↦ api.update (delete volume_id data_map) k
    | err e ↦ (err e, k)
  ]
