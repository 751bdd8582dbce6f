-- ===== src/Util/OperationLock/Named.antt =====
-- The methods of util/idlocker.go that take and give back the lock of one operation.
use hostpathpv_plugin.Base.{GoString, Result}
use hostpathpv_plugin.Util.OperationLock.{
  OperationLock, LockError, try_acquire, release, create_op, clone_op, delete_op, restore_op,
  expand_op,
}

abbrev Acquired : Type 0
Acquired = Result LockError (Unit {0}) × OperationLock

unfoldable pub get_snapshot_create_lock : GoString → OperationLock → Acquired
get_snapshot_create_lock volume_id ol = try_acquire create_op volume_id ol

unfoldable pub get_clone_lock : GoString → OperationLock → Acquired
get_clone_lock volume_id ol = try_acquire clone_op volume_id ol

unfoldable pub get_delete_lock : GoString → OperationLock → Acquired
get_delete_lock volume_id ol = try_acquire delete_op volume_id ol

unfoldable pub get_restore_lock : GoString → OperationLock → Acquired
get_restore_lock volume_id ol = try_acquire restore_op volume_id ol

unfoldable pub get_expand_lock : GoString → OperationLock → Acquired
get_expand_lock volume_id ol = try_acquire expand_op volume_id ol

unfoldable pub release_snapshot_create_lock : GoString → OperationLock → OperationLock
release_snapshot_create_lock volume_id ol = release create_op volume_id ol

unfoldable pub release_clone_lock : GoString → OperationLock → OperationLock
release_clone_lock volume_id ol = release clone_op volume_id ol

unfoldable pub release_delete_lock : GoString → OperationLock → OperationLock
release_delete_lock volume_id ol = release delete_op volume_id ol

unfoldable pub release_restore_lock : GoString → OperationLock → OperationLock
release_restore_lock volume_id ol = release restore_op volume_id ol

unfoldable pub release_expand_lock : GoString → OperationLock → OperationLock
release_expand_lock volume_id ol = release expand_op volume_id ol
