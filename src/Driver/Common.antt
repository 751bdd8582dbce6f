-- ===== src/Driver/Common.antt =====
-- csi-plugin/csi-common/utils.go: endpoints, and what is wrapped around every call. `to_lower` is
-- strings.ToLower. A call that panics gives `none`; what is logged is left out.
use hostpathpv_plugin.Base.{
  ℕ, ◌+◌, ◌%◌, ◌||◌, Option, none, some, [], ◌∷◌, GoString, codes, drop, take, has_prefix, index_of,
  is_empty, if◌then◌else◌, word, Result, err, Code, internal,
}
use hostpathpv_plugin.Util.Log.{Context}

abbrev separator : GoString
separator = codes "://"

abbrev scheme_and_rest : GoString → Option ℕ → Option (GoString × GoString)
scheme_and_rest ep none = none
scheme_and_rest ep (some i) =
    let rest = drop (i + 3) ep in if is_empty rest then none else some (take i ep, rest)

-- parseEndpoint: the scheme as it is written, and what follows it; `none` for the error.
unfoldable pub parse_endpoint : (GoString → GoString) → GoString → Option (GoString × GoString)
parse_endpoint to_lower ep =
    if has_prefix (to_lower ep) (codes "unix://") || has_prefix (to_lower ep) (codes "tcp://")
    then scheme_and_rest ep (index_of ep separator)
    else none

-- The requests that name what they are about, and the others.
pub data CsiRequest : Type 0 where
  create_volume_request delete_volume_request create_snapshot_request : GoString → CsiRequest
  delete_snapshot_request controller_expand_volume_request : GoString → CsiRequest
  node_stage_volume_request node_unstage_volume_request : GoString → CsiRequest
  node_publish_volume_request node_unpublish_volume_request : GoString → CsiRequest
  node_expand_volume_request : GoString → CsiRequest
  other_request : CsiRequest

unfoldable pub get_req_id : CsiRequest → GoString
get_req_id (create_volume_request name) = name
get_req_id (delete_volume_request volume_id) = volume_id
get_req_id (create_snapshot_request name) = name
get_req_id (delete_snapshot_request snapshot_id) = snapshot_id
get_req_id (controller_expand_volume_request volume_id) = volume_id
get_req_id (node_stage_volume_request volume_id) = volume_id
get_req_id (node_unstage_volume_request volume_id) = volume_id
get_req_id (node_publish_volume_request volume_id) = volume_id
get_req_id (node_unpublish_volume_request volume_id) = volume_id
get_req_id (node_expand_volume_request volume_id) = volume_id
get_req_id other_request = []

abbrev with_req_id : GoString → Context → Context
with_req_id [] ctx = ctx
with_req_id (c ∷ s) ctx = record ctx { req_id = some (c ∷ s) }

-- The counter of calls goes up by one, and is then read.
unfoldable pub context_id_injector {ℓ} :
    {R : Type ℓ} → (Context → CsiRequest → R) → Context → CsiRequest → ℕ → R × ℕ
unfolding get_req_id
context_id_injector handler ctx req id =
    let id' = (id + 1) % word in
    (handler (with_req_id (get_req_id req) (record ctx { ctx_key = some id' })) req, id')

-- A panic becomes an answer.
unfoldable pub panic_handler {ℓ} :
    {R : Type ℓ} → (CsiRequest → Option (Result Code R)) → CsiRequest → Result Code R
panic_handler handler req = elim (handler req) [ none ↦ err internal | some answer ↦ answer ]
