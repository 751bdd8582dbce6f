-- ===== src/Util/OperationLock/Conflicts.antt =====
-- Which operations exclude one another (`OperationLock` of pkg/util/idlocker.go).
use hostpathpv_plugin.Base.{
  ℕ, ◌+◌, ◌-◌, ◌≡◌, true, false, some, arith, GoString, GoMap, lookup, insert, has, lookup-insert,
  lookup-delete, str_eq, str_eq_iff, if◌then◌else◌, ok, err, ◌≢◌,
}
use hostpathpv_plugin.Util.OperationLock.{
  Operation, create_op, delete_op, clone_op, restore_op, expand_op, OperationLock,
  new_operation_lock, table, set_table, try_acquire, release, busy, decrement, counter,
}

-- A volume in the table of deletions is in no other table, and none is in the tables of clones and
-- of expansions.
pub record IsSeparate (ol : OperationLock) (id : GoString) : Type 0 where
  pub delete_create : has id ol.deletes ≡ true → has id ol.creates ≡ false
  pub delete_clone : has id ol.deletes ≡ true → has id ol.clones ≡ false
  pub delete_restore : has id ol.deletes ≡ true → has id ol.restores ≡ false
  pub delete_expand : has id ol.deletes ≡ true → has id ol.expands ≡ false
  pub clone_expand : has id ol.clones ≡ true → has id ol.expands ≡ false

has-insert :
    (k j : GoString) (n : ℕ) (m : GoMap ℕ)
    → has j (insert k n m) ≡ (if str_eq k j then true else has j m)
has-insert k j n m = ground (arith, lookup-insert k j n m)

has-decrement :
    (k j : GoString) (m : GoMap ℕ) → has j (decrement k (lookup k m) m) ≡ true → has j m ≡ true
has-decrement k j m h =
    ground (arith, lookup-insert k j (counter k m - 1) m, lookup-delete k j m, str_eq_iff k j)

-- An acquisition of any kind, granted or refused, keeps the tables separate.
pub try_acquire-IsSeparate :
    (op : Operation) (id j : GoString) (ol : OperationLock)
    → IsSeparate ol j
    → IsSeparate (try_acquire op id ol).1 j
unfolding try_acquire
try_acquire-IsSeparate create_op id j ol v =
    ground (arith, str_eq_iff id j, has-insert id j (counter id ol.creates + 1) ol.creates)
try_acquire-IsSeparate clone_op id j ol v =
    ground (arith, str_eq_iff id j, has-insert id j (counter id ol.clones + 1) ol.clones)
try_acquire-IsSeparate delete_op id j ol v =
    ground (arith, str_eq_iff id j, has-insert id j 1 ol.deletes)
try_acquire-IsSeparate restore_op id j ol v =
    ground (arith, str_eq_iff id j, has-insert id j (counter id ol.restores + 1) ol.restores)
try_acquire-IsSeparate expand_op id j ol v =
    ground (arith, str_eq_iff id j, has-insert id j 1 ol.expands)

pub release-IsSeparate :
    (op : Operation) (id j : GoString) (ol : OperationLock)
    → IsSeparate ol j
    → IsSeparate (release op id ol) j
unfolding release
release-IsSeparate create_op id j ol v = ground (arith, has-decrement id j ol.creates)
release-IsSeparate clone_op id j ol v = ground (arith, has-decrement id j ol.clones)
release-IsSeparate delete_op id j ol v = ground (arith, has-decrement id j ol.deletes)
release-IsSeparate restore_op id j ol v = ground (arith, has-decrement id j ol.restores)
release-IsSeparate expand_op id j ol v = ground (arith, has-decrement id j ol.expands)

pub IsSeparate-new : (id : GoString) → IsSeparate new_operation_lock id
unfolding new_operation_lock lookup
IsSeparate-new id = ground arith

-- The kinds of operation that may go on several times with one volume.
pub data IsCounted : Operation → Type 0 where
  creating : IsCounted create_op
  cloning : IsCounted clone_op
  restoring : IsCounted restore_op

lookup-decrement-insert :
    (id j : GoString) (m : GoMap ℕ)
    → lookup id m ≢ some 0
    → lookup j
        (decrement id (lookup id (insert id (counter id m + 1) m)) (insert id (counter id m + 1) m))
      ≡ lookup j m
lookup-decrement-insert id j m h =
    let n = counter id m + 1 in
    ground (
      arith,
      lookup-insert id id n m,
      lookup-insert id j n m,
      lookup-insert id j (n - 1) (insert id n m),
      lookup-delete id j (insert id n m),
      str_eq_iff id j,
      str_eq_iff id id,
    )

-- A creation, a clone or a restoration that was granted and is released leaves every counter of
-- its kind as it was, if the volume's counter does not stand at 0.
pub release-try_acquire :
    (op : Operation) (id j : GoString) (ol : OperationLock)
    → IsCounted op
    → lookup id (table op ol) ≢ some 0
    → (try_acquire op id ol).0 ≡ ok tt
    → lookup j (table op (release op id (try_acquire op id ol).1)) ≡ lookup j (table op ol)
unfolding try_acquire release table set_table
release-try_acquire create_op id j ol creating h granted =
    ground (arith, lookup-decrement-insert id j ol.creates)
release-try_acquire clone_op id j ol cloning h granted =
    ground (arith, lookup-decrement-insert id j ol.clones)
release-try_acquire restore_op id j ol restoring h granted =
    ground (arith, lookup-decrement-insert id j ol.restores)
release-try_acquire delete_op id j ol counted h granted = elim counted [ ]
release-try_acquire expand_op id j ol counted h granted = elim counted [ ]

-- While a volume is being expanded, and neither deleted nor cloned, a creation is granted; an
-- expansion after that creation is refused, as the volume is being created.
create_beside_expand :
    (id : GoString) (ol : OperationLock)
    → has id ol.deletes ≡ false
    → has id ol.clones ≡ false
    → has id ol.expands ≡ true
    → ((try_acquire create_op id ol).0 ≡ ok tt)
      × ((try_acquire expand_op id (try_acquire create_op id ol).1).0 ≡ err (busy create_op))
unfolding try_acquire
create_beside_expand id ol h k e = (
  ground arith,
  ground (arith, has-insert id id (counter id ol.creates + 1) ol.creates, str_eq_iff id id),
)
