-- ===== src/Client.antt =====
-- pkg/hostpathclient: the objects of Kubernetes, the caches of them and the requests that change them.
pub mod Volume
pub mod Node
pub mod Pod
pub mod Patch
pub mod Informer
pub mod Control
pub mod Requests
