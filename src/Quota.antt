-- ===== src/Quota.antt =====
-- pkg/csi-plugin/hostpath/quota-manager: volumes as directories with a project quota on XFS disks.
pub mod Types
pub mod ProjectId
pub mod Kernel
pub mod Provider
pub mod Naming
pub mod Manager
