-- ===== src/Examples/Caches.antt =====
-- The cache of pods at work.
use hostpathpv_plugin.Base.{
  ◌≡◌, refl, Option, none, some, List, [], ◌∷◌, ◌++◌, codes, GoString, GoMap, lookup, insert,
  delete, lookup-insert, lookup-delete, str_eq, if◌then◌else◌, slash, Result, ok, err,
}
use hostpathpv_plugin.Client.Pod.{ApiPod, Pod, to_pod}
use hostpathpv_plugin.Client.Informer.{
  Deleted, known, final_state_unknown, Delta, added, updated, deleted, CacheError, unexpected,
  Indexer, process,
}
use hostpathpv_plugin.Client.Informer.Replay.{
  IndexerLaws, deleted_key, words, readable, Replayed, process-Replayed,
}

-- A store that is a map.
abbrev key_of : Pod → GoString
key_of p = p.namespace ++ (slash ∷ p.name)

abbrev store : Indexer (GoMap Pod) Pod
store = record {
  get = λ p s. ok (lookup (key_of p) s);
  add = λ p s. (ok tt, insert (key_of p) p s);
  update = λ p s. (ok tt, insert (key_of p) p s);
  delete = λ d s. (ok tt, delete (elim d [ known p ↦ key_of p | final_state_unknown k ↦ k ]) s);
}

abbrev convert : Option ApiPod → Result CacheError Pod
convert none = err unexpected
convert (some p) = ok (to_pod p)

store-IndexerLaws : IndexerLaws store convert key_of (λ k s. lookup k s)
store-IndexerLaws = record {
  add_ok = λ o s. refl;
  add_view = λ o s j. lookup-insert (key_of o) j o s;
  update_ok = λ o s. refl;
  update_view = λ o s j. lookup-insert (key_of o) j o s;
  delete_ok = λ d s. refl;
  delete_view = λ d s j. removed d s j;
}
  where
    removed :
        (d : Deleted Pod) (s : GoMap Pod) (j : GoString)
        → lookup j (store.delete d s).1
          ≡ (if str_eq (deleted_key store convert key_of d) j then none else lookup j s)
    removed (known p) s j = lookup-delete (key_of p) j s
    removed (final_state_unknown k) s j = lookup-delete k j s

abbrev api_pod : GoString → ApiPod
api_pod version = record {
  uid = codes "7";
  version = version;
  name = codes "web";
  namespace = codes "default";
  volumes = some (codes "data") ∷ none ∷ [];
}

abbrev deltas : List (Delta (Option ApiPod))
deltas =
    added (some (api_pod (codes "1")))
    ∷ updated (some (api_pod (codes "2")))
    ∷ updated none
    ∷ deleted (final_state_unknown (codes "default/web"))
    ∷ []

process-Replayed_example :
    Replayed store convert key_of
      (λ k s. lookup k s)
      store-IndexerLaws
      (words store convert key_of deltas)
      (readable store convert key_of deltas)
      []
      (process store convert deltas ([], []))
process-Replayed_example =
    process-Replayed store convert key_of (λ k s. lookup k s) store-IndexerLaws deltas ([], []) refl
