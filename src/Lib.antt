-- ===== src/Lib.antt =====
-- Verification of hostpathpv-plugin, a Kubernetes CSI driver for volumes that are directories with
-- an XFS project quota on a node's disks.
--
-- The parts and their models. On each node the quota manager (pkg/csi-plugin/hostpath/quota-manager)
-- keeps the disks and the volumes and calls the quota provider (quotaProvider below it), which gives
-- each directory a project number and sets its limits in the kernel. The CSI servers
-- (pkg/csi-plugin/hostpath) create, publish, expand and delete volumes under locks: the controller
-- keeps the volumes in a config map, the node server calls the quota manager. A worker on each node
-- releases the volumes that the config map does not list, and reports sizes to the API server. The
-- scheduler's extender (pkg/extender-scheduler) keeps caches of pods, nodes and volumes; its filter
-- and its scores read those reports, and its binding binds a pod and its volumes to a node. The
-- plug-in of kubectl (pkg/kubectl-plugin) shows the reports.
--
-- * Util models pkg/util: VolumeId is volid.go, VolumeLocks and OperationLock with
--   OperationLock.Named are idlocker.go (OperationLock.Progress keeps the operations that go on beside
--   its tables), Host and Size are the helpers of util.go, Request is validate.go, Log log.go.
-- * Quota.ProjectId is quotaProvider/projidallocator.go, Quota.Kernel quota_common_linux.go,
--   Quota.Provider quota_xfs.go and Quota.Types the records and the interface of project_quota.go
--   and quotamanager.go.
-- * Quota.Naming is quota-manager/common.go, Quota.Manager with Manager.Listing the methods of
--   quotamanager_xfs.go, Manager.Restore its start and the fake manager of quotamanager_fake.go.
-- * Client models pkg/hostpathclient: Volume is persistentVolume.go with the look-up of client.go,
--   Node is types.go and node.go, Pod pod.go, Patch the patches of persistentVolume.go and node.go,
--   Requests client.go, Informer informer.go and Control controller.go.
-- * Driver models the servers: Capability is csi-common/driver.go with ConstructMountOptions, Common
--   utils.go beside it, Defaults the servers that stand in there, hostpath/identityserver.go and the
--   start of hostpath/driver.go, Serve csi-common/server.go, Liveness liveness/liveness.go,
--   MetaStore is metestore.go, Controller controllerserver.go, Node nodeserver.go, SyncWorker
--   syncworker.go; Locking is the lock around a handler, whose release is deferred;
--   NodeProcess puts the node server and the worker together, on one quota manager.
-- * Scheduler.Predicate is the filter of scheduler/predicate, Scheduler.Scores the scores of
--   scheduler/prioritize, in the float64 of Util.Float, and Scheduler.Bind the binding of
--   scheduler/bind; Scheduler.Registry and Scheduler.Route are what bind.go, predicate.go and
--   prioritize.go have alike.
-- * Kubectl.Display is kubectl-plugin/display.go, Kubectl.Format common.go, Kubectl.Get with
--   Get.Listings hostpathpv_get.go.
-- * Base has what the models share: lists over native numbers, byte strings, maps, 64-bit words,
--   results, a sort, and path.Clean. Examples applies the theorems to a small machine.
--
-- State is passed explicitly: a method is a function from the state to its result and the state
-- afterwards. A method under a mutex is one step, and a sequence of calls is a list of steps. Go
-- errors are constructors without their texts. uint64 arithmetic wraps (`add64`, `sub64`, `mul64`);
-- a map is an association list, and a statement about any list covers any order of iteration.
-- Every loop is structural recursion; the digits of a number recurse on an accessible one.
--
-- Parameters, each a record of operations: `Host` (the file system, the clock, mountinfo, extended
-- attributes), `Kernel` (quotactl, the ioctls, statfs), `Bitmap` (the allocator of k8s.io/kubernetes,
-- with `BitmapLaws` for what it documents), `Mounter` (k8s.io/utils/mount), `ConfigMaps` and `Cluster`
-- (the API server; `KeepsUpdates` says that an update that succeeds is read next), and readers of the
-- annotations in base64 and JSON. `ReadsBack` says that quotactl sets limits that are in order,
-- of one project at a time, and reads them. `Indexer` is the store of client-go, with `IndexerLaws`, and `BindingApi` the requests of
-- the scheduler, with `BindingLaws`; `ObjectApi` has those of client.go. `two_decimals` is `%.2f`.
--
-- float64(n) of an int64 is rounded to 53 bits (Util.Size): `to_float` looks for at most 11 bits over
-- 53, which is enough for every magnitude up to 2 ^ 63. Util.Float has the products and the quotients of
-- float64 that are not negative: it scales by at most 128 doublings or halvings, where the values of
-- the program need at most 116. The wait for the caches takes the list of what wakes it.
--
-- Not modelled: the construction of the cobra commands and the configuration from flags, what gRPC
-- does after the start, the HTTP server with pprof, the commands' mains, and vendored code: all of it
-- is input and output or glue.
mod Base
pub mod Util
pub mod Quota
pub mod Client
pub mod Driver
pub mod Scheduler
pub mod Kubectl
pub mod Examples
