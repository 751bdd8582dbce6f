-- ===== src/Client/Informer/Replay.antt =====
-- The store after the deltas (pkg/hostpathclient/informer.go), against the last word on each key.
use hostpathpv_plugin.Base.{
  ◌≡◌, refl, ap, ◌∙◌, Bool, true, false, Option, none, some, List, [], ◌∷◌, arith, GoString, str_eq,
  if◌then◌else◌, Result, ok, err,
}
use hostpathpv_plugin.Client.Informer.{
  Deleted, known, final_state_unknown, Delta, sync, added, updated, replaced, deleted, CacheError,
  Indexer, Event, State, Done, told, put, enter, take_out, remove_known, process_delta, process,
  go_on,
}

module _ {S O A : Type 0} (indexer : Indexer S O) (convert : A → Result CacheError O)
    (key_of : O → GoString) where
  abbrev pub deleted_key : Deleted O → GoString
  deleted_key (known obj) = key_of obj
  deleted_key (final_state_unknown key) = key

  -- What client-go documents of a store: `view` is GetByKey, and the key of every object is found.
  pub record IndexerLaws (view : GoString → S → Option O) : Type 0 where
    pub add_ok : (o : O) (s : S) → (indexer.add o s).0 ≡ ok tt
    pub add_view :
        (o : O) (s : S) (j : GoString)
        → view j (indexer.add o s).1 ≡ (if str_eq (key_of o) j then some o else view j s)
    pub update_ok : (o : O) (s : S) → (indexer.update o s).0 ≡ ok tt
    pub update_view :
        (o : O) (s : S) (j : GoString)
        → view j (indexer.update o s).1 ≡ (if str_eq (key_of o) j then some o else view j s)
    pub delete_ok : (d : Deleted O) (s : S) → (indexer.delete d s).0 ≡ ok tt
    pub delete_view :
        (d : Deleted O) (s : S) (j : GoString)
        → view j (indexer.delete d s).1 ≡ (if str_eq (deleted_key d) j then none else view j s)

  -- What a delta says: the object under a key, or that there is none; an error if it cannot be read.
  abbrev Word : Type 0
  Word = GoString × Option O

  abbrev named : Result CacheError O → Result CacheError Word
  named (ok obj) = ok (key_of obj, some obj)
  named (err e) = err e

  abbrev gone : Result CacheError O → Result CacheError Word
  gone (ok obj) = ok (key_of obj, none)
  gone (err e) = err e

  abbrev says : Delta A → Result CacheError Word
  says (sync a) = named (convert a)
  says (added a) = named (convert a)
  says (updated a) = named (convert a)
  says (replaced a) = named (convert a)
  says (deleted (known a)) = gone (convert a)
  says (deleted (final_state_unknown key)) = ok (key, none)

  abbrev heard : Result CacheError Word → List Word → List Word
  heard (ok w) ws = w ∷ ws
  heard (err e) ws = []

  -- The words of the deltas up to the first that cannot be read.
  abbrev pub words : List (Delta A) → List Word
  words [] = []
  words (d ∷ ds) = heard (says d) (words ds)

  abbrev is_ok {ℓ} : {B : Type ℓ} → Result CacheError B → Bool
  is_ok (ok b) = true
  is_ok (err e) = false

  -- Every delta can be read.
  abbrev pub readable : List (Delta A) → Bool
  readable [] = true
  readable (d ∷ ds) = if is_ok (says d) then readable ds else false

  -- A queue that is built without EmitDeltaTypeReplaced sends a Sync in place of a Replaced.
  abbrev pub none_replaced : List (Delta A) → Bool
  none_replaced [] = true
  none_replaced (replaced a ∷ ds) = false
  none_replaced (sync a ∷ ds) = none_replaced ds
  none_replaced (added a ∷ ds) = none_replaced ds
  none_replaced (updated a ∷ ds) = none_replaced ds
  none_replaced (deleted d ∷ ds) = none_replaced ds

  -- The last word on a key, or else what was there.
  abbrev pub last_word : GoString → List Word → Option O → Option O
  last_word j [] before = before
  last_word j ((k, w) ∷ ws) before = last_word j ws (if str_eq k j then w else before)

  module _ (view : GoString → S → Option O) (laws : IndexerLaws view) where
    abbrev Effect : Result CacheError Word → State indexer convert → Done indexer convert → Type 0
    Effect (ok (k, w)) st (r, st') =
        (r ≡ ok tt) × ((j : GoString) → view j st'.0 ≡ (if str_eq k j then w else view j st.0))
    Effect (err e) st (r, st') = (r ≡ err e) × (st'.0 ≡ st.0)

    told-Effect :
        (w : Word) (event : Event O) (s : S) (log : List (Event O))
        (out : Result CacheError (Unit {0}) × S)
        → out.0 ≡ ok tt
        → ((j : GoString) → view j out.1 ≡ (if str_eq w.0 j then w.1 else view j s))
        → Effect (ok w) (s, log) (told indexer convert event log out)
    told-Effect w event s log (ok u, s') h v = (refl, v)
    told-Effect w event s log (err e, s') h v = absurd (ground arith)

    put-Effect :
        (obj : O) (found : Result CacheError (Option O)) (s : S) (log : List (Event O))
        → Effect (ok (key_of obj, some obj)) (s, log) (put indexer convert obj found (s, log))
    put-Effect obj (ok (some old)) s log =
        told-Effect _ _ s log (indexer.update obj s) (laws.update_ok obj s) (laws.update_view obj s)
    put-Effect obj (ok none) s log =
        told-Effect _ _ s log (indexer.add obj s) (laws.add_ok obj s) (laws.add_view obj s)
    put-Effect obj (err e) s log =
        told-Effect _ _ s log (indexer.add obj s) (laws.add_ok obj s) (laws.add_view obj s)

    enter-Effect :
        (read : Result CacheError O) (s : S) (log : List (Event O))
        → Effect (named read) (s, log) (enter indexer convert read (s, log))
    enter-Effect (ok obj) s log = put-Effect obj (indexer.get obj s) s log
    enter-Effect (err e) s log = (refl, refl)

    remove-Effect :
        (d : Deleted O) (s : S) (log : List (Event O))
        → Effect (ok (deleted_key d, none)) (s, log) (take_out indexer convert d (s, log))
    remove-Effect d s log =
        told-Effect _ _ s log (indexer.delete d s) (laws.delete_ok d s) (laws.delete_view d s)

    remove_known-Effect :
        (read : Result CacheError O) (s : S) (log : List (Event O))
        → Effect (gone read) (s, log) (remove_known indexer convert read (s, log))
    remove_known-Effect (ok obj) s log = remove-Effect (known obj) s log
    remove_known-Effect (err e) s log = (refl, refl)

    process_delta-Effect :
        (d : Delta A) (s : S) (log : List (Event O))
        → none_replaced (d ∷ []) ≡ true
        → Effect (says d) (s, log) (process_delta indexer convert d (s, log))
    unfolding process_delta
    process_delta-Effect (sync a) s log h = enter-Effect (convert a) s log
    process_delta-Effect (added a) s log h = enter-Effect (convert a) s log
    process_delta-Effect (updated a) s log h = enter-Effect (convert a) s log
    process_delta-Effect (replaced a) s log h = absurd (ground arith)
    process_delta-Effect (deleted (known a)) s log h = remove_known-Effect (convert a) s log
    process_delta-Effect (deleted (final_state_unknown key)) s log h =
        remove-Effect (final_state_unknown key) s log

    none_replaced-cons :
        (d : Delta A) (ds : List (Delta A))
        → none_replaced (d ∷ ds) ≡ true
        → (none_replaced (d ∷ []) ≡ true) × (none_replaced ds ≡ true)
    none_replaced-cons (sync a) ds h = (refl, h)
    none_replaced-cons (added a) ds h = (refl, h)
    none_replaced-cons (updated a) ds h = (refl, h)
    none_replaced-cons (replaced a) ds h = absurd (ground arith)
    none_replaced-cons (deleted d) ds h = (refl, h)

    abbrev pub Replayed : List Word → Bool → S → Done indexer convert → Type 0
    Replayed ws good s out =
        (is_ok out.0 ≡ good) × ((j : GoString) → view j out.1.0 ≡ last_word j ws (view j s))

    go_on-Replayed :
        (said : Result CacheError Word) (s : S) (log : List (Event O))
        (first : Done indexer convert) (rest : State indexer convert → Done indexer convert)
        (ws : List Word) (good : Bool)
        → Effect said (s, log) first
        → ((st : State indexer convert) → Replayed ws good st.0 (rest st))
        → Replayed
            (heard said ws)
            (if is_ok said then good else false)
            s
            (go_on indexer convert first rest)
    go_on-Replayed (ok (k, w)) s log (ok u, st) rest ws good effect later =
        ((later st).0, λ j. (later st).1 j ∙ ap (last_word j ws) (effect.1 j))
    go_on-Replayed (err e) s log (err f, st) rest ws good effect later =
        (refl, λ j. ap (λ (t : S). view j t) effect.1)
    go_on-Replayed (ok w) s log (err e, st) rest ws good effect later = absurd (ground arith)
    go_on-Replayed (err e) s log (ok u, st) rest ws good effect later = absurd (ground arith)

    -- If the store keeps the laws of client-go and no delta is a Replaced one: after a series of
    -- deltas, the store has under each key what the last delta on the key says, up to the first delta
    -- that cannot be converted, and what it had before where none of these is on the key; the
    -- processor reports success just when every delta can be converted.
    pub process-Replayed :
        (ds : List (Delta A)) (st : State indexer convert)
        → none_replaced ds ≡ true
        → Replayed (words ds) (readable ds) st.0 (process indexer convert ds st)
    unfolding process
    process-Replayed [] st h = (refl, λ j. refl)
    process-Replayed (d ∷ ds) (s, log) h =
        let (one, rest) = none_replaced-cons d ds h in
        go_on-Replayed (says d) s log (process_delta indexer convert d (s, log))
          (process indexer convert ds) (words ds) (readable ds) (process_delta-Effect d s log one)
          (λ st. process-Replayed ds st rest)
