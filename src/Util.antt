-- ===== src/Util.antt =====
-- pkg/util: the volume identifiers, the lock tables and the sizes that the servers share.
pub mod VolumeId
pub mod VolumeLocks
pub mod OperationLock
pub mod Host
pub mod Size
pub mod Float
pub mod Request
pub mod Log
