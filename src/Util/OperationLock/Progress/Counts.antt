-- ===== src/Util/OperationLock/Progress/Counts.antt =====
-- The tables of `OperationLock` count the operations that go on (pkg/util/idlocker.go).
use hostpathpv_plugin.Base.{
  ℕ, ◌+◌, ◌-◌, ◌<◌, ◌≡◌, refl, ap, true, false, Option, none, some, arith, GoString, GoMap, lookup,
  insert, lookup-insert, lookup-delete, str_eq_iff, if◌then◌else◌, ◌==◌, ok, err, has,
}
use hostpathpv_plugin.Util.OperationLock.{
  Operation, create_op, delete_op, clone_op, restore_op, expand_op, LockError, OperationLock,
  new_operation_lock, table, set_table, try_acquire, release, decrement, counter,
}
use hostpathpv_plugin.Util.OperationLock.Progress.{
  Ongoing, begun, ended, begin, finish, count, may_try, Callers, no_callers, granted, refused,
  released, Reach, here, next,
}

abbrev tally : ℕ → Option ℕ
tally n = if n == 0 then none else some n

-- A table has the counts of one kind: no entry for 0.
abbrev pub Tallies : GoMap ℕ → (GoString → ℕ) → Type 0
Tallies m f = (j : GoString) → lookup j m ≡ tally (f j)

counter-Tallies :
    (id : GoString) (m : GoMap ℕ) (f : GoString → ℕ) → Tallies m f → counter id m ≡ f id
counter-Tallies id m f v = ground (arith, v id)

pub has-Tallies :
    (id : GoString) (m : GoMap ℕ) (f : GoString → ℕ)
    → Tallies m f
    → has id m ≡ (if f id == 0 then false else true)
has-Tallies id m f v = ground (arith, v id)

insert-Tallies :
    (id : GoString) (n : ℕ) (m : GoMap ℕ) (f : GoString → ℕ)
    → n ≡ f id + 1
    → Tallies m f
    → Tallies (insert id n m) (begun id f)
insert-Tallies id n m f e v j = ground (arith, lookup-insert id j n m, str_eq_iff id j, v j)

decrement-Tallies :
    (id : GoString) (m : GoMap ℕ) (f : GoString → ℕ)
    → 0 < f id
    → Tallies m f
    → Tallies (decrement id (lookup id m) m) (ended id f)
decrement-Tallies id m f h v j =
    ground
      (arith, v id, v j, lookup-insert id j (f id - 1) m, lookup-delete id j m, str_eq_iff id j)

-- The tables have the counts of the operations that go on.
pub record IsExact (ol : OperationLock) (o : Ongoing) : Type 0 where
  pub creates : Tallies ol.creates o.creating
  pub deletes : Tallies ol.deletes o.deleting
  pub clones : Tallies ol.clones o.cloning
  pub restores : Tallies ol.restores o.restoring
  pub expands : Tallies ol.expands o.expanding

-- A granted call writes the kind's table alone.
abbrev new_count : Operation → GoString → OperationLock → ℕ
new_count create_op id ol = counter id ol.creates + 1
new_count delete_op id ol = 1
new_count clone_op id ol = counter id ol.clones + 1
new_count restore_op id ol = counter id ol.restores + 1
new_count expand_op id ol = 1

granted_writes :
    (op : Operation) (id : GoString) (ol : OperationLock)
    → (try_acquire op id ol).0 ≡ ok tt
    → (try_acquire op id ol).1 ≡ set_table op (insert id (new_count op id ol) (table op ol)) ol
unfolding try_acquire table set_table
granted_writes create_op id ol h = ground arith
granted_writes delete_op id ol h = ground arith
granted_writes clone_op id ol h = ground arith
granted_writes restore_op id ol h = ground arith
granted_writes expand_op id ol h = ground arith

refused_keeps :
    (op : Operation) (id : GoString) (ol : OperationLock) (e : LockError)
    → (try_acquire op id ol).0 ≡ err e
    → (try_acquire op id ol).1 ≡ ol
unfolding try_acquire
refused_keeps create_op id ol e h = ground arith
refused_keeps delete_op id ol e h = ground arith
refused_keeps clone_op id ol e h = ground arith
refused_keeps restore_op id ol e h = ground arith
refused_keeps expand_op id ol e h = ground arith

counted_more :
    (id : GoString) (m : GoMap ℕ) (f : GoString → ℕ)
    → Tallies m f
    → Tallies (insert id (counter id m + 1) m) (begun id f)
counted_more id m f v =
    insert-Tallies id (counter id m + 1) m f (ap (λ n. n + 1) (counter-Tallies id m f v)) v

first_one :
    (id : GoString) (m : GoMap ℕ) (f : GoString → ℕ)
    → (f id == 0) ≡ true
    → Tallies m f
    → Tallies (insert id 1 m) (begun id f)
first_one id m f h v = insert-Tallies id 1 m f (ground arith) v

begin-IsExact :
    (op : Operation) (id : GoString) (ol : OperationLock) (o : Ongoing)
    → may_try op id o ≡ true
    → IsExact ol o
    → IsExact (set_table op (insert id (new_count op id ol) (table op ol)) ol) (begin op id o)
unfolding table set_table
begin-IsExact create_op id ol o h v = record {
  creates = counted_more id ol.creates o.creating v.creates;
  deletes = v.deletes;
  clones = v.clones;
  restores = v.restores;
  expands = v.expands;
}
begin-IsExact delete_op id ol o h v = record {
  deletes = first_one id ol.deletes o.deleting h v.deletes;
  creates = v.creates;
  clones = v.clones;
  restores = v.restores;
  expands = v.expands;
}
begin-IsExact clone_op id ol o h v = record {
  clones = counted_more id ol.clones o.cloning v.clones;
  creates = v.creates;
  deletes = v.deletes;
  restores = v.restores;
  expands = v.expands;
}
begin-IsExact restore_op id ol o h v = record {
  restores = counted_more id ol.restores o.restoring v.restores;
  creates = v.creates;
  deletes = v.deletes;
  clones = v.clones;
  expands = v.expands;
}
begin-IsExact expand_op id ol o h v = record {
  expands = first_one id ol.expands o.expanding h v.expands;
  creates = v.creates;
  deletes = v.deletes;
  clones = v.clones;
  restores = v.restores;
}

finish-IsExact :
    (op : Operation) (id : GoString) (ol : OperationLock) (o : Ongoing)
    → 0 < count op id o
    → IsExact ol o
    → IsExact (release op id ol) (finish op id o)
unfolding release table set_table
finish-IsExact create_op id ol o h v = record {
  creates = decrement-Tallies id ol.creates o.creating h v.creates;
  deletes = v.deletes;
  clones = v.clones;
  restores = v.restores;
  expands = v.expands;
}
finish-IsExact delete_op id ol o h v = record {
  deletes = decrement-Tallies id ol.deletes o.deleting h v.deletes;
  creates = v.creates;
  clones = v.clones;
  restores = v.restores;
  expands = v.expands;
}
finish-IsExact clone_op id ol o h v = record {
  clones = decrement-Tallies id ol.clones o.cloning h v.clones;
  creates = v.creates;
  deletes = v.deletes;
  restores = v.restores;
  expands = v.expands;
}
finish-IsExact restore_op id ol o h v = record {
  restores = decrement-Tallies id ol.restores o.restoring h v.restores;
  creates = v.creates;
  deletes = v.deletes;
  clones = v.clones;
  expands = v.expands;
}
finish-IsExact expand_op id ol o h v = record {
  expands = decrement-Tallies id ol.expands o.expanding h v.expands;
  creates = v.creates;
  deletes = v.deletes;
  clones = v.clones;
  restores = v.restores;
}

pub Reach-IsExact : {s : Callers} → Reach no_callers s → IsExact s.lock s.ongoing
unfolding new_operation_lock lookup
Reach-IsExact here = record {
  creates = λ j. refl;
  deletes = λ j. refl;
  clones = λ j. refl;
  restores = λ j. refl;
  expands = λ j. refl;
}
Reach-IsExact (next r (granted s op id h g)) =
    rw (granted_writes op id s.lock g) (begin-IsExact op id s.lock s.ongoing h (Reach-IsExact r))
Reach-IsExact (next r (refused s op id e g)) = rw (refused_keeps op id s.lock e g) (Reach-IsExact r)
Reach-IsExact (next r (released s op id h)) =
    finish-IsExact op id s.lock s.ongoing h (Reach-IsExact r)
