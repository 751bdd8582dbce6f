-- ===== src/Client/Informer.antt =====
-- pkg/hostpathclient/informer.go: how the changes that the API server sends enter a store. The store
-- is a cache.Indexer of client-go, the parameter `Indexer`.
pub mod Replay
use hostpathpv_plugin.Base.{Option, none, some, List, [], ◌∷◌, ◌++◌, GoString, Result, ok, err, Act}

-- What is deleted: an object, or the key of one whose last state was missed (DeletedFinalStateUnknown).
pub data Deleted (O : Type 0) : Type 0 where
  known : O → Deleted O
  final_state_unknown : GoString → Deleted O

pub data Delta (A : Type 0) : Type 0 where
  sync added updated : A → Delta A
  replaced : A → Delta A
  deleted : Deleted A → Delta A

pub data CacheError : Type 0 where
  unexpected refused : CacheError

-- `get` is `none` where the store has no object under the key of the given one.
pub record Indexer (S O : Type 0) : Type 0 where
  pub get : O → S → Result CacheError (Option O)
  pub add : O → Act S CacheError (Unit {0})
  pub update : O → Act S CacheError (Unit {0})
  pub delete : Deleted O → Act S CacheError (Unit {0})

-- The calls of the handler, which only logs them.
pub data Event (O : Type 0) : Type 0 where
  on_add : O → Event O
  on_update : O → O → Event O
  on_delete : Deleted O → Event O

module _ {S O A : Type 0} (indexer : Indexer S O) (convert : A → Result CacheError O) where
  abbrev pub State : Type 0
  State = S × List (Event O)

  abbrev pub Done : Type 0
  Done = Result CacheError (Unit {0}) × State

  abbrev pub told : Event O → List (Event O) → Result CacheError (Unit {0}) × S → Done
  told event log (ok u, s) = (ok tt, (s, log ++ (event ∷ [])))
  told event log (err e, s) = (err e, (s, log))

  -- An error of Get counts as a missing object.
  abbrev pub put : O → Result CacheError (Option O) → State → Done
  put obj (ok (some old)) (s, log) = told (on_update old obj) log (indexer.update obj s)
  put obj (ok none) (s, log) = told (on_add obj) log (indexer.add obj s)
  put obj (err e) (s, log) = told (on_add obj) log (indexer.add obj s)

  abbrev pub enter : Result CacheError O → State → Done
  enter (ok obj) (s, log) = put obj (indexer.get obj s) (s, log)
  enter (err e) st = (err e, st)

  abbrev pub take_out : Deleted O → State → Done
  take_out d (s, log) = told (on_delete d) log (indexer.delete d s)

  abbrev pub remove_known : Result CacheError O → State → Done
  remove_known (ok obj) st = take_out (known obj) st
  remove_known (err e) st = (err e, st)

  -- One turn of the loop; a replacement is none of the cases.
  unfoldable pub process_delta : Delta A → State → Done
  process_delta (sync a) st = enter (convert a) st
  process_delta (added a) st = enter (convert a) st
  process_delta (updated a) st = enter (convert a) st
  process_delta (replaced a) st = (ok tt, st)
  process_delta (deleted (known a)) st = remove_known (convert a) st
  process_delta (deleted (final_state_unknown key)) st = take_out (final_state_unknown key) st

  abbrev pub go_on : Done → (State → Done) → Done
  go_on (ok u, st) rest = rest st
  go_on (err e, st) rest = (err e, st)

  -- DefaultProcessor: the first error ends the loop.
  unfoldable pub process : List (Delta A) → State → Done
  unfolding process_delta
  process [] st = (ok tt, st)
  process (d ∷ ds) st = go_on (process_delta d st) (process ds)
