-- ===== src/Examples/Tables.antt =====
-- The command line and the tables of kubectl, the registry of plug-ins and the disabled disks at work.
use hostpathpv_plugin.Base.{
  ◌≡◌, refl, true, false, some, [], ◌∷◌, codes, All, ok, has, str_eq, if◌then◌else◌,
}
use hostpathpv_plugin.Client.Node.{
  ApiNode, get_node_host_path_disabled_disks, node_disk_quota_disabled_disks_ann,
}
use hostpathpv_plugin.Client.Patch.{
  annotation_patch, disabled_disks_value, get_node_host_path_disabled_disks_patch_bytes,
}
use hostpathpv_plugin.Client.Requests.Disabled.{Base64Laws, annotated, disabled_disks-read}
use hostpathpv_plugin.Scheduler.Registry.{Plugin, routes}
use hostpathpv_plugin.Scheduler.Registry.Distinct.{
  AreDistinct, register_all, register_all-AreDistinct,
}
use hostpathpv_plugin.Kubectl.Display.{new_displayer, print}
use hostpathpv_plugin.Kubectl.Display.Aligned.{
  line, cut_off, steps, Step, width, HasWidth, print_aligned,
}
use hostpathpv_plugin.Kubectl.Get.{command}
use hostpathpv_plugin.Kubectl.Get.Arguments.{reference, command-reference}
use hostpathpv_plugin.Base.{List, GoString}

abbrev titles : List GoString
titles = codes "Name" ∷ codes "Capacity" ∷ []

-- A line, a cut-off and a line with too few cells.
abbrev added : List Step
added =
    line (codes "pvc-0017" ∷ codes "2.86MB" ∷ [])
    ∷ cut_off (codes "--")
    ∷ line (codes "x" ∷ [])
    ∷ []

print_aligned_example :
    All
      (HasWidth (
        width
          (steps added (new_displayer (codes "   ") [] titles))
          (steps added (new_displayer (codes "   ") [] titles)).max_colume_len))
      (print true (steps added (new_displayer (codes "   ") [] titles)))
print_aligned_example = print_aligned (codes "   ") [] titles added true

command-reference_example :
    command (ok true) true (codes "pvs" ∷ codes "pvc-17" ∷ [])
    ≡ some (reference (codes "pvs" ∷ codes "pvc-17" ∷ []) true)
command-reference_example = command-reference (codes "pvs" ∷ codes "pvc-17" ∷ []) true

-- The plug-in of the filter, registered twice, and one without a name.
abbrev plugin : GoString → Plugin (Unit {0})
plugin name = record { name = name; init = λ k. (ok tt, k) }

abbrev plugins : List (Plugin (Unit {0}))
plugins =
    plugin (codes "hostpathpvdiskpressure")
    ∷ plugin (codes "hostpathpvdiskpressure")
    ∷ plugin []
    ∷ []

register_all-AreDistinct_example :
    AreDistinct (routes (codes "/scheduler") (register_all plugins []))
unfolding routes
register_all-AreDistinct_example = register_all-AreDistinct (codes "/scheduler") plugins [] tt

abbrev same_text : GoString → GoString
same_text s = s

same_text-Base64Laws : Base64Laws same_text same_text
same_text-Base64Laws = record { decoded = λ s. refl; empty = λ s. refl }

-- Disk 1 is disabled already.
abbrev node : ApiNode
node = record {
  version = codes "1";
  name = codes "n1";
  namespace = [];
  labels = [];
  annotations = (node_disk_quota_disabled_disks_ann, codes "/xfs/disk1") ∷ [];
  conditions = [];
}

disabled_disks-read_example :
    let value = disabled_disks_value same_text same_text node (codes "/xfs/disk2") false in
    (get_node_host_path_disabled_disks_patch_bytes same_text same_text node
        (codes "/xfs/disk2")
        false
      ≡ annotation_patch node_disk_quota_disabled_disks_ann value)
    × (has (codes "/xfs/disk1") (get_node_host_path_disabled_disks same_text (annotated value node))
        ≡ (if str_eq (codes "/xfs/disk2") (codes "/xfs/disk1")
            then true
            else has (codes "/xfs/disk1") (get_node_host_path_disabled_disks same_text node)))
disabled_disks-read_example =
    disabled_disks-read same_text same_text same_text-Base64Laws node (codes "/xfs/disk2")
      (codes "/xfs/disk1") false refl refl
