-- ===== src/Examples.antt =====
-- A small machine with one XFS disk, and the theorems of this library applied to it.
pub mod Machine
pub mod Quotas
pub mod Managers
pub mod Locks
pub mod Controllers
pub mod Servers
pub mod Workers
pub mod Nodes
pub mod Caches
pub mod Scheduling
pub mod Tables
pub mod Processes
pub mod Starts
