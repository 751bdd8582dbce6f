-- ===== src/Driver/NodeProcess/Books.antt =====
-- What holds whenever no handler and no round is under way (csi-plugin/hostpath/nodeserver.go and
-- syncworker.go).
use hostpathpv_plugin.Base.{◌≡◌, ◌∙◌, false, GoString}
use hostpathpv_plugin.Util.Host.{Host}
use hostpathpv_plugin.Util.VolumeLocks.Exclusion.{holds}
use hostpathpv_plugin.Quota.Types.{QuotaProvider}
use hostpathpv_plugin.Driver.Node.{Mounter}
use hostpathpv_plugin.Driver.Node.Handlers.{node-SameLocks}
use hostpathpv_plugin.Driver.SyncWorker.{Cluster}
use hostpathpv_plugin.Driver.NodeProcess.{
  NodeProcess, BooksBalanced, Step, handles, rounds, machine_changes, cluster_changes, Reach, here,
  next,
}
use hostpathpv_plugin.Driver.NodeProcess.Bodies.{
  with_machine-BooksBalanced, handle_node-BooksBalanced,
}
use hostpathpv_plugin.Driver.NodeProcess.Rounds.{populator_loop-BooksBalanced}

-- No volume is locked, and the books of the manager are balanced.
pub record IsSound {W K : Type 0} (p : NodeProcess W K) : Type 0 where
  pub unlocked : (volume : GoString) → holds p.volume_locks volume ≡ false
  pub balanced : BooksBalanced p.worker.quota_mng

module _ {W K : Type 0} (host : Host W) (provider : QuotaProvider W) (mounter : Mounter W)
    (cluster : Cluster K) where
  Step-IsSound :
      {p q : NodeProcess W K} → Step host provider mounter cluster p q → IsSound p → IsSound q
  Step-IsSound (handles c p) h = record {
    unlocked = λ j.
        node-SameLocks host provider mounter (cluster.get_volume p.worker.cluster_state)
          cluster.read_volume_usage c
          (record { volume_locks = p.volume_locks; world = p.worker.quota_mng }) j
        ∙ h.unlocked j;
    balanced =
        handle_node-BooksBalanced host provider mounter (cluster.get_volume p.worker.cluster_state)
          cluster.read_volume_usage c
          (record { volume_locks = p.volume_locks; world = p.worker.quota_mng }) h.balanced;
  }
  Step-IsSound (rounds p s e) h = record {
    unlocked = h.unlocked;
    balanced = populator_loop-BooksBalanced host provider cluster p.worker s e h.balanced;
  }
  Step-IsSound (machine_changes p w) h = record {
    unlocked = h.unlocked;
    balanced = with_machine-BooksBalanced p.worker.quota_mng w h.balanced;
  }
  Step-IsSound (cluster_changes p k) h = record { unlocked = h.unlocked; balanced = h.balanced }

  -- From a process with no volume locked and balanced books: after any handlers and rounds in any
  -- order, whatever the requests and the answers of the machine and the API server are, also where
  -- these change in between, no volume is locked and the books are balanced again, so that no disk
  -- is over-committed.
  pub Reach-IsSound :
      {p q : NodeProcess W K} → Reach host provider mounter cluster p q → IsSound p → IsSound q
  Reach-IsSound here h = h
  Reach-IsSound (next r s) h = Step-IsSound s (Reach-IsSound r h)
