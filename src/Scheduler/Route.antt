-- ===== src/Scheduler/Route.antt =====
-- The HTTP handlers of predicate.go, prioritize.go and bind.go of extender-scheduler/scheduler. JSON is
-- the parameters `decode`, which gives what it has read beside its error, and `marshal`. A panic,
-- which the server of net/http catches, is `none`.
use hostpathpv_plugin.Base.{
  ℕ, Option, none, some, List, ◌++◌, codes, GoString, is_empty, if◌then◌else◌, Result, ok, err,
}
use hostpathpv_plugin.Client.Node.{ApiNode}

pub data Response : Type 0 where
  plain : ℕ → GoString → Response
  json : ℕ → GoString → Response

abbrev marshalled : ℕ → Result GoString GoString → Response
marshalled status (ok text) = json status text
marshalled status (err e) = json 500 (codes "{'error':'" ++ (e ++ codes "'}"))

abbrev no_body : Response
no_body = plain 400 (codes "Please send a request body")

module _ {Args K R : Type 0} (decode : GoString → Args × Option GoString)
    (marshal : R → Result GoString GoString) where
  -- `error_of` is the error in a result, and `failed` a result that has only an error.
  module _ (handle : Args → K → R × K) (error_of : R → GoString) (failed : GoString → R) where
    abbrev answered : R × K → Response × K
    answered (r, k) = (marshalled (if is_empty (error_of r) then 200 else 500) (marshal r), k)

    abbrev bind_decoded : Args × Option GoString → K → Response × K
    bind_decoded (args, none) k = answered (handle args k)
    bind_decoded (args, some e) k = (marshalled 500 (marshal (failed e)), k)

    unfoldable pub binds_route : Option GoString → K → Response × K
    binds_route none k = (no_body, k)
    binds_route (some body) k = bind_decoded (decode body) k

    abbrev filter_answered : R × K → Response × K
    filter_answered (r, k) = (marshalled 200 (marshal r), k)

    abbrev filter_decoded : Args × Option GoString → K → Response × K
    filter_decoded (args, none) k = filter_answered (handle args k)
    filter_decoded (args, some e) k = (marshalled 200 (marshal (failed e)), k)

    unfoldable pub predicate_route : Option GoString → K → Response × K
    predicate_route none k = (no_body, k)
    predicate_route (some body) k = filter_decoded (decode body) k

module _ {Args R : Type 0} (decode : GoString → Args × Option GoString)
    (marshal : R → Result GoString GoString) where
  -- The handler is called also where the request could not be decoded; an error of it is answered with
  -- an empty list.
  module _ (handle : Args → Option (Result GoString R)) (empty : R) where
    abbrev scores_answered : Option (Result GoString R) → Option Response
    scores_answered none = none
    scores_answered (some (ok r)) = some (marshalled 200 (marshal r))
    scores_answered (some (err e)) = some (marshalled 200 (marshal empty))

    unfoldable pub priorities_route : Option GoString → Option Response
    priorities_route none = some no_body
    priorities_route (some body) = scores_answered (handle (decode body).0)

-- Prioritize.Handler: a request without nodes is a nil pointer.
unfoldable pub prioritize_handler {ℓ} :
    {L : Type ℓ} → (List ApiNode → L) → Option (List ApiNode) → Option L
prioritize_handler score none = none
prioritize_handler score (some nodes) = some (score nodes)

-- Bind.Handler: the pod, its namespace and the node of the request.
unfoldable pub bind_handler {ℓ} :
    {R : Type ℓ} → (GoString → GoString → GoString → R) → GoString × GoString × GoString → R
bind_handler bind (pod_name, pod_namespace, node) = bind pod_name pod_namespace node
