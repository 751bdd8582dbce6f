-- ===== src/Util/OperationLock/Progress.antt =====
-- The operations that go on, beside the tables of `OperationLock` (pkg/util/idlocker.go).
pub mod Counts
pub mod Compatible
use hostpathpv_plugin.Base.{
  ℕ, ◌+◌, ◌-◌, ◌<◌, ◌≡◌, Bool, true, GoString, str_eq, if◌then◌else◌, ◌==◌, ok, err,
}
use hostpathpv_plugin.Util.OperationLock.{
  Operation, create_op, delete_op, clone_op, restore_op, expand_op, LockError, OperationLock,
  new_operation_lock, try_acquire, release,
}

-- How many operations of each kind go on with each volume.
pub record Ongoing : Type 0 where
  pub creating : GoString → ℕ
  pub deleting : GoString → ℕ
  pub cloning : GoString → ℕ
  pub restoring : GoString → ℕ
  pub expanding : GoString → ℕ

abbrev pub nothing_ongoing : Ongoing
nothing_ongoing = record {
  creating = λ id. 0;
  deleting = λ id. 0;
  cloning = λ id. 0;
  restoring = λ id. 0;
  expanding = λ id. 0;
}

abbrev pub begun : GoString → (GoString → ℕ) → GoString → ℕ
begun id f j = if str_eq id j then f j + 1 else f j

abbrev pub ended : GoString → (GoString → ℕ) → GoString → ℕ
ended id f j = if str_eq id j then f j - 1 else f j

abbrev pub begin : Operation → GoString → Ongoing → Ongoing
begin create_op id o = record o { creating = begun id o.creating }
begin delete_op id o = record o { deleting = begun id o.deleting }
begin clone_op id o = record o { cloning = begun id o.cloning }
begin restore_op id o = record o { restoring = begun id o.restoring }
begin expand_op id o = record o { expanding = begun id o.expanding }

abbrev pub finish : Operation → GoString → Ongoing → Ongoing
finish create_op id o = record o { creating = ended id o.creating }
finish delete_op id o = record o { deleting = ended id o.deleting }
finish clone_op id o = record o { cloning = ended id o.cloning }
finish restore_op id o = record o { restoring = ended id o.restoring }
finish expand_op id o = record o { expanding = ended id o.expanding }

abbrev pub count : Operation → GoString → Ongoing → ℕ
count create_op id o = o.creating id
count delete_op id o = o.deleting id
count clone_op id o = o.cloning id
count restore_op id o = o.restoring id
count expand_op id o = o.expanding id

-- The table counts neither deletions nor expansions: a second one must wait for the first.
abbrev pub may_try : Operation → GoString → Ongoing → Bool
may_try create_op id o = true
may_try delete_op id o = o.deleting id == 0
may_try clone_op id o = true
may_try restore_op id o = true
may_try expand_op id o = o.expanding id == 0

pub record Callers : Type 0 where
  pub lock : OperationLock
  pub ongoing : Ongoing

abbrev pub no_callers : Callers
no_callers = record { lock = new_operation_lock; ongoing = nothing_ongoing }

pub data Step : Callers → Callers → Type 0 where
  granted :
      (s : Callers) (op : Operation) (id : GoString)
      → may_try op id s.ongoing ≡ true
      → (try_acquire op id s.lock).0 ≡ ok tt
      → Step s (record { lock = (try_acquire op id s.lock).1; ongoing = begin op id s.ongoing })
  refused :
      (s : Callers) (op : Operation) (id : GoString) (e : LockError)
      → (try_acquire op id s.lock).0 ≡ err e
      → Step s (record { lock = (try_acquire op id s.lock).1; ongoing = s.ongoing })
  released :
      (s : Callers) (op : Operation) (id : GoString)
      → 0 < count op id s.ongoing
      → Step s (record { lock = release op id s.lock; ongoing = finish op id s.ongoing })

pub data Reach (s : Callers) : Callers → Type 0 where
  here : Reach s s
  next : {t u : Callers} → Reach s t → Step t u → Reach s u
