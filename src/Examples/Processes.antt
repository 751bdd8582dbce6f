-- ===== src/Examples/Processes.antt =====
-- A node's process at work: a volume is published, and then the API server forgets its volumes.
use hostpathpv_plugin.Base.{refl, [], GoString, GoMap}
use hostpathpv_plugin.Quota.Manager.Restore.{xfs_manager}
use hostpathpv_plugin.Driver.Node.Handlers.{publishes}
use hostpathpv_plugin.Driver.NodeProcess.{
  NodeProcess, here, next, handles, cluster_changes, with_server, handled,
}
use hostpathpv_plugin.Driver.NodeProcess.Books.{IsSound, Reach-IsSound}
use hostpathpv_plugin.Util.VolumeLocks
use hostpathpv_plugin.Examples.Machine.{World, host, provider}
use hostpathpv_plugin.Examples.Managers.{idle, idle-IsBalanced}
use hostpathpv_plugin.Examples.Servers.{mounter, publish_request}
use hostpathpv_plugin.Examples.Workers.{cluster, worker}

abbrev quiet : NodeProcess World (GoMap GoString)
quiet = record {
  volume_locks = record { locks = [] };
  worker = record worker { quota_mng = xfs_manager idle };
}

quiet-IsSound : IsSound quiet
unfolding VolumeLocks.has_lock
quiet-IsSound = record { unlocked = λ j. refl; balanced = idle-IsBalanced }

abbrev served : NodeProcess World (GoMap GoString)
served =
    with_server host provider mounter cluster quiet
      (handled host provider mounter cluster (publishes publish_request) quiet)

Reach-IsSound_example :
    IsSound (record served { worker = record served.worker { cluster_state = [] } })
Reach-IsSound_example =
    Reach-IsSound host provider mounter cluster
      (next (next here (handles (publishes publish_request) quiet)) (cluster_changes served []))
      quiet-IsSound
