-- ===== src/Kubectl.antt =====
-- pkg/kubectl-plugin: the tables that `kubectl hostpathpv get` prints.
pub mod Display
pub mod Format
pub mod Get
