-- ===== src/Util/OperationLock.antt =====
-- `OperationLock` of pkg/util/idlocker.go: counters of the operations that go on, by kind and
-- volume. A counter is an `int` in Go; the ones here are at least 1, so `val - 1` never passes 0.
pub mod Conflicts
pub mod Named
pub mod Progress
use hostpathpv_plugin.Base.{
  ℕ, ◌+◌, ◌-◌, Bool, Option, none, some, [], GoString, GoMap, lookup, insert, delete, has, ◌==◌,
  if◌then◌else◌, Result, ok, err,
}

pub data Operation : Type 0 where
  create_op delete_op clone_op restore_op expand_op : Operation

-- `busy op` is the error "an operation of kind op with given id already exists".
pub data LockError : Type 0 where
  busy : Operation → LockError

pub record OperationLock : Type 0 where
  pub creates : GoMap ℕ
  pub deletes : GoMap ℕ
  pub clones : GoMap ℕ
  pub restores : GoMap ℕ
  pub expands : GoMap ℕ

unfoldable pub new_operation_lock : OperationLock
new_operation_lock = record { creates = []; deletes = []; clones = []; restores = []; expands = [] }

-- ol.locks[op]
unfoldable pub table : Operation → OperationLock → GoMap ℕ
table create_op ol = ol.creates
table delete_op ol = ol.deletes
table clone_op ol = ol.clones
table restore_op ol = ol.restores
table expand_op ol = ol.expands

unfoldable pub set_table : Operation → GoMap ℕ → OperationLock → OperationLock
set_table create_op m ol = record ol { creates = m }
set_table delete_op m ol = record ol { deletes = m }
set_table clone_op m ol = record ol { clones = m }
set_table restore_op m ol = record ol { restores = m }
set_table expand_op m ol = record ol { expands = m }

-- A missing counter reads as 0.
abbrev counter : GoString → GoMap ℕ → ℕ
counter id m = elim (lookup id m) [ none ↦ 0 | some n ↦ n ]

-- The result and the table: a refused call changes nothing.
unfoldable pub try_acquire :
    Operation → GoString → OperationLock → Result LockError (Unit {0}) × OperationLock
try_acquire create_op id ol =
    if has id ol.deletes
    then (err (busy delete_op), ol)
    else (ok tt, record ol { creates = insert id (counter id ol.creates + 1) ol.creates })
try_acquire clone_op id ol =
    if has id ol.deletes
    then (err (busy delete_op), ol)
    else if has id ol.expands
    then (err (busy expand_op), ol)
    else (ok tt, record ol { clones = insert id (counter id ol.clones + 1) ol.clones })
try_acquire delete_op id ol =
    if has id ol.expands
    then (err (busy expand_op), ol)
    else if has id ol.clones
    then (err (busy clone_op), ol)
    else if has id ol.creates
    then (err (busy create_op), ol)
    else if has id ol.restores
    then (err (busy restore_op), ol)
    else (ok tt, record ol { deletes = insert id 1 ol.deletes })
try_acquire restore_op id ol =
    if has id ol.deletes
    then (err (busy delete_op), ol)
    else (ok tt, record ol { restores = insert id (counter id ol.restores + 1) ol.restores })
try_acquire expand_op id ol =
    if has id ol.deletes
    then (err (busy delete_op), ol)
    else if has id ol.clones
    then (err (busy clone_op), ol)
    else if has id ol.creates
    then (err (busy create_op), ol)
    else (ok tt, record ol { expands = insert id 1 ol.expands })

abbrev decrement : GoString → Option ℕ → GoMap ℕ → GoMap ℕ
decrement id none m = m
decrement id (some val) m = if (val - 1) == 0 then delete id m else insert id (val - 1) m

unfoldable pub release : Operation → GoString → OperationLock → OperationLock
unfolding table set_table
release op id ol = set_table op (decrement id (lookup id (table op ol)) (table op ol)) ol
