-- ===== src/Driver/NodeProcess.antt =====
-- A node's process: the node server of csi-plugin/hostpath/nodeserver.go and the worker of
-- syncworker.go, which share the quota manager. A handler and a round are steps that run whole; the
-- machine and the API server may change between them in any way.
pub mod Bodies
pub mod Rounds
pub mod Books
use hostpathpv_plugin.Base.{Option, none, some, GoString, ◌≡◌}
use hostpathpv_plugin.Util.Host.{Host}
use hostpathpv_plugin.Util.VolumeLocks.{VolumeLocks}
use hostpathpv_plugin.Quota.Types.{QuotaProvider}
use hostpathpv_plugin.Quota.Manager.{XfsQuotaManager}
use hostpathpv_plugin.Quota.Manager.Balance.{IsBalanced}
use hostpathpv_plugin.Quota.Manager.Restore.{QuotaManager, xfs_manager, fake_manager}
use hostpathpv_plugin.Client.Volume.{ApiVolume, PvUsageInfo}
use hostpathpv_plugin.Driver.Locking.{Server}
use hostpathpv_plugin.Driver.Node.{Mounter, with_machine}
use hostpathpv_plugin.Driver.Node.Handlers.{NodeCall, handle_node}
use hostpathpv_plugin.Driver.SyncWorker.{Cluster, SyncWorker, populator_loop}

pub record NodeProcess (W K : Type 0) : Type 0 where
  pub volume_locks : VolumeLocks
  pub worker : SyncWorker W K

-- The books of the manager are balanced; the one that stands in for a failed start has none.
abbrev pub BooksBalanced : {W : Type 0} → QuotaManager W → Type 0
BooksBalanced (xfs_manager m) = IsBalanced m.disk_quota_infos m.quotas
BooksBalanced (fake_manager w) = Unit

module _ {W K : Type 0} (host : Host W) (provider : QuotaProvider W) (mounter : Mounter W)
    (cluster : Cluster K) where
  abbrev Process : Type 0
  Process = NodeProcess W K

  abbrev pub with_server : Process → Server (QuotaManager W) → Process
  with_server p s = record {
    volume_locks = s.volume_locks;
    worker = record p.worker { quota_mng = s.world };
  }

  abbrev pub handled : NodeCall → Process → Server (QuotaManager W)
  handled c p =
      (handle_node host provider mounter (cluster.get_volume p.worker.cluster_state)
        cluster.read_volume_usage c
        (record { volume_locks = p.volume_locks; world = p.worker.quota_mng })).1

  pub data Step : Process → Process → Type 0 where
    handles : (c : NodeCall) (p : Process) → Step p (with_server p (handled c p))
    rounds :
        (p : Process) (s : SyncWorker W K)
        → populator_loop host provider cluster p.worker ≡ some s
        → Step p (record p { worker = s })
    machine_changes :
        (p : Process) (w : W)
        → Step p (record p {
          worker = record p.worker { quota_mng = with_machine p.worker.quota_mng w };
        })
    cluster_changes :
        (p : Process) (k : K) → Step p (record p { worker = record p.worker { cluster_state = k } })

  pub data Reach (p : Process) : Process → Type 0 where
    here : Reach p p
    next : {q r : Process} → Reach p q → Step q r → Reach p r
