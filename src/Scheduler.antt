-- ===== src/Scheduler.antt =====
-- pkg/extender-scheduler: the filter of nodes, and the binding of pods.
pub mod Predicate
pub mod Bind
pub mod Scores
pub mod Registry
pub mod Route
