-- ===== src/Util/VolumeLocks/Exclusion.antt =====
-- No two operations hold one volume (`VolumeLocks` of pkg/util/idlocker.go).
use hostpathpv_plugin.Base.{
  ℕ, ◌≡◌, Bool, true, false, List, [], ◌∷◌, arith, GoString, str_eq, str_eq_iff, if◌then◌else◌, not,
  Option, some, none, ◌==◌, Bool-cases, inl, inr,
}
use hostpathpv_plugin.Util.VolumeLocks.{
  VolumeLocks, has_lock, remove_lock, new_volume_locks, try_acquire, release,
}

has_lock-remove_lock :
    (k j : GoString) (l : List GoString)
    → has_lock j (remove_lock k l) ≡ (if str_eq k j then false else has_lock j l)
unfolding has_lock remove_lock
has_lock-remove_lock k j [] = ground arith
has_lock-remove_lock k j (i ∷ l) =
    ground (arith, has_lock-remove_lock k j l, str_eq_iff i k, str_eq_iff i j, str_eq_iff k j)

-- `vl` says whether an operation on a volume is going on.
abbrev pub holds : VolumeLocks → GoString → Bool
holds vl id = has_lock id vl.locks

-- An acquisition succeeds exactly when nobody holds the volume; after it the volume is held, and
-- the other volumes are as they were.
pub try_acquire_lem :
    (id j : GoString) (vl : VolumeLocks)
    → ((try_acquire id vl).0 ≡ not (holds vl id))
      × (holds (try_acquire id vl).1 j ≡ (if str_eq id j then true else holds vl j))
unfolding try_acquire has_lock
try_acquire_lem id j vl = ground (arith, str_eq_iff id j)

-- A release frees the volume and leaves the others as they were.
pub release_lem :
    (id j : GoString) (vl : VolumeLocks)
    → holds (release id vl) j ≡ (if str_eq id j then false else holds vl j)
unfolding release
release_lem id j vl = has_lock-remove_lock id j vl.locks

-- The handlers of the servers around one table: `inside t` is the volume that the handler of
-- request `t` works on, between its TryAcquire and its deferred Release.
pub record Servers : Type 0 where
  pub table : VolumeLocks
  pub inside : ℕ → Option GoString

abbrev pub update : (ℕ → Option GoString) → ℕ → Option GoString → ℕ → Option GoString
update f t v u = if u == t then v else f u

pub data Step : Servers → Servers → Type 0 where
  enter :
      (s : Servers) (t : ℕ) (id : GoString)
      → s.inside t ≡ none
      → (try_acquire id s.table).0 ≡ true
      → Step s (record { table = (try_acquire id s.table).1; inside = update s.inside t (some id) })
  refuse :
      (s : Servers) (id : GoString)
      → (try_acquire id s.table).0 ≡ false
      → Step s (record { table = (try_acquire id s.table).1; inside = s.inside })
  leave :
      (s : Servers) (t : ℕ) (id : GoString)
      → s.inside t ≡ some id
      → Step s (record { table = release id s.table; inside = update s.inside t none })

pub data Reach (s : Servers) : Servers → Type 0 where
  here : Reach s s
  next : {t u : Servers} → Reach s t → Step t u → Reach s u

abbrev pub idle_servers : Servers
idle_servers = record { table = new_volume_locks; inside = λ t. none }

-- Each volume has at most one handler inside, and is locked exactly while it has one.
pub record IsExclusive (s : Servers) : Type 0 where
  pub alone : (t u : ℕ) (id : GoString) → s.inside t ≡ some id → s.inside u ≡ some id → t ≡ u
  pub locked : (t : ℕ) (id : GoString) → s.inside t ≡ some id → holds s.table id ≡ true
  pub owned : (id : GoString) → holds s.table id ≡ true → (t : ℕ) × (s.inside t ≡ some id)

owner_after_enter :
    (s : Servers) (t : ℕ) (id j : GoString)
    → IsExclusive s
    → s.inside t ≡ none
    → holds (try_acquire id s.table).1 j ≡ true
    → (u : ℕ) × (update s.inside t (some id) u ≡ some j)
owner_after_enter s t id j v free h = elim (Bool-cases (str_eq id j)) [
  | inl same ↦ (t, ground (arith, str_eq_iff id j))
  | inr other ↦
      let (u, e) = v.owned j (ground (arith, try_acquire_lem id j s.table)) in (u, ground arith)
]

owner_after_leave :
    (s : Servers) (t : ℕ) (id j : GoString)
    → IsExclusive s
    → s.inside t ≡ some id
    → holds (release id s.table) j ≡ true
    → (u : ℕ) × (update s.inside t none u ≡ some j)
owner_after_leave s t id j v mine h =
    let (u, e) = v.owned j (ground (arith, release_lem id j s.table)) in
    (u, ground (arith, release_lem id j s.table, str_eq_iff id j))

-- Every step keeps the handlers apart.
pub Step-IsExclusive : {s u : Servers} → Step s u → IsExclusive s → IsExclusive u
Step-IsExclusive (enter s t id free won) v = record {
  alone = λ a b j ha hb. ground (
    arith,
    v.alone a b j,
    v.locked a j,
    v.locked b j,
    try_acquire_lem id j s.table,
    str_eq_iff id j,
  );
  locked = λ a j h. ground (arith, v.locked a j, try_acquire_lem id j s.table, str_eq_iff id j);
  owned = λ j h. owner_after_enter s t id j v free h;
}
Step-IsExclusive (refuse s id lost) v = record {
  alone = v.alone;
  locked = λ a j h. ground (arith, v.locked a j, try_acquire_lem id j s.table, str_eq_iff id j);
  owned = λ j h. v.owned j (ground (arith, try_acquire_lem id j s.table, str_eq_iff id j));
}
Step-IsExclusive (leave s t id mine) v = record {
  alone = λ a b j ha hb. ground (arith, v.alone a b j);
  locked = λ a j h.
      ground (arith, v.locked a j, v.alone a t j, release_lem id j s.table, str_eq_iff id j);
  owned = λ j h. owner_after_leave s t id j v mine h;
}

IsExclusive-idle : IsExclusive idle_servers
unfolding new_volume_locks has_lock
IsExclusive-idle = record {
  alone = λ t u id h k. cc;
  locked = λ t id h. cc;
  owned = λ id h. absurd (ground arith);
}

-- Handlers that enter by TryAcquire, or are refused by it, and leave by Release, in any order from
-- an idle start: no two are inside for one volume, and a volume is locked exactly while a handler
-- is inside for it.
pub Reach-IsExclusive : {s : Servers} → Reach idle_servers s → IsExclusive s
Reach-IsExclusive here = IsExclusive-idle
Reach-IsExclusive (next r st) = Step-IsExclusive st (Reach-IsExclusive r)
