-- ===== src/Driver.antt =====
-- pkg/csi-plugin/hostpath: the CSI servers, their store of volumes, and the locks around handlers.
pub mod Capability
pub mod MetaStore
pub mod Locking
pub mod Controller
pub mod Node
pub mod SyncWorker
pub mod NodeProcess
pub mod Common
pub mod Defaults
pub mod Serve
pub mod Liveness
