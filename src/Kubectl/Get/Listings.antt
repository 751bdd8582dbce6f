-- ===== src/Kubectl/Get/Listings.antt =====
-- pkg/kubectl-plugin/hostpathpv_get.go: the listings of nodes and of volumes. The lists of the API
-- server are parameters, and what is printed is a list of lines; a list that cannot be read is an
-- error of the library, `failed`.
use hostpathpv_plugin.Base.{
  suc, Bool, true, false, ◌&&◌, ◌||◌, not, Option, none, some, List, [], ◌∷◌, ◌++◌, GoString, codes,
  length, str_eq, is_empty, ◌==◌, if◌then◌else◌, ℤ, pos, negsuc, add_i64, sub_i64, to_i64, to_u64,
  Result, ok, err,
}
use hostpathpv_plugin.Util.Host.{decimal}
use hostpathpv_plugin.Util.Float.{Float}
use hostpathpv_plugin.Client.Volume.{ApiVolume, PvUsageInfo, PersistentVolume, to_persistent_volume}
use hostpathpv_plugin.Client.Node.{ApiNode, NodeUsageInfo, Node, to_host_path_node}
use hostpathpv_plugin.Kubectl.Display.{Displayer, new_displayer, add_line, print}
use hostpathpv_plugin.Kubectl.Format.{get_percent_str, convert_int_to_string}
use hostpathpv_plugin.Kubectl.Get.{GetError}

abbrev line_or_same : Displayer → Option Displayer → Displayer
line_or_same d none = d
line_or_same d (some d') = d'

-- A cell that has no name of its own in the source.
abbrev number_text : ℤ → GoString
number_text (pos n) = decimal n
number_text (negsuc n) = codes "-" ++ decimal (suc n)

pub record Totals : Type 0 where
  pub capacity : ℤ
  pub quota : ℤ
  pub used : ℤ
  pub persistent : ℤ
  pub ephemeral : ℤ

module _ (two_decimals : Bool → Float → GoString) (read_node : GoString → Option NodeUsageInfo)
    (decode : GoString → GoString) where
  abbrev size_and_share : ℤ → ℤ → GoString
  size_and_share size capacity =
      convert_int_to_string two_decimals size ++ get_percent_str two_decimals size capacity

  abbrev node_cells : Node → List GoString
  node_cells n =
      let usage = n.disk_usage in
      let quota = size_and_share usage.quota_size usage.capacity in
      let disks = length usage.disk_status in
      n.name
      ∷ n.ready
      ∷ (codes "("
          ++ (number_text (sub_i64 (pos disks) (pos (length n.disabled_disk)))
              ++ (codes "/" ++ (decimal disks ++ codes ")"))))
      ∷ convert_int_to_string two_decimals usage.capacity
      ∷ quota
      ∷ size_and_share usage.used usage.capacity
      ∷ quota
      ∷ quota
      ∷ []

  abbrev counted : NodeUsageInfo → Totals → Totals
  counted usage t = record {
    capacity = add_i64 t.capacity usage.capacity;
    quota = add_i64 t.quota usage.quota_size;
    used = add_i64 t.used usage.used;
    persistent = add_i64 t.persistent usage.quota_size;
    ephemeral = add_i64 t.ephemeral usage.quota_size;
  }

  -- Whether the loop passes over a node.
  abbrev node_skipped : GoString → Bool → ApiNode → Bool
  node_skipped name filter node =
      let n = to_host_path_node read_node decode node in
      (not (is_empty name) && not (str_eq name node.name))
      || (filter && (not n.host_path_node || (length n.disk_usage.disk_status == 0)))

  unfoldable pub list_nodes :
      GoString → Bool → List ApiNode → Displayer × Totals → Displayer × Totals
  unfolding add_line convert_int_to_string get_percent_str
  list_nodes name filter [] acc = acc
  list_nodes name filter (node ∷ nodes) (d, t) =
      let n = to_host_path_node read_node decode node in
      list_nodes name filter nodes (
        if node_skipped name filter node
        then (d, t)
        else (line_or_same d (add_line (node_cells n) d), counted n.disk_usage t))

  abbrev totals_line : Totals → GoString
  totals_line t =
      codes "AllCapacity: "
      ++ (convert_int_to_string two_decimals t.capacity
          ++ (codes ", AllQuota: "
              ++ (size_and_share t.quota t.capacity
                  ++ (codes ", AllUsed: "
                      ++ (size_and_share t.used t.capacity
                          ++ (codes ", AllPersistent: "
                              ++ (size_and_share t.persistent t.capacity
                                  ++ (codes ", AllEphemeral: "
                                      ++ size_and_share t.ephemeral t.capacity))))))))

  abbrev node_titles : List GoString
  node_titles =
      codes "Name"
      ∷ codes "Status"
      ∷ codes "DiskNum"
      ∷ codes "Capacity"
      ∷ codes "Quota"
      ∷ codes "Used"
      ∷ codes "Persistent"
      ∷ codes "Ephemeral"
      ∷ []

  abbrev no_totals : Totals
  no_totals = record {
    capacity = pos 0;
    quota = pos 0;
    used = pos 0;
    persistent = pos 0;
    ephemeral = pos 0;
  }

  -- The last line is an empty one.
  unfoldable pub get_nodes :
      Result GetError (List ApiNode) → GoString → Bool → Result GetError (List GoString)
  unfolding list_nodes new_displayer print
  get_nodes (err e) name filter = err e
  get_nodes (ok []) name filter = ok []
  get_nodes (ok (node ∷ nodes)) name filter =
      let (d, t) =
        list_nodes name filter (node ∷ nodes)
          (new_displayer (codes "   ") [] node_titles, no_totals) in
      ok (print true d ++ (totals_line t ∷ [] ∷ []))

module _ (two_decimals : Bool → Float → GoString)
    (read_volume : GoString → Option PvUsageInfo) where
  abbrev bool_text : Bool → GoString
  bool_text true = codes "true"
  bool_text false = codes "false"

  -- The hard quota and the usage go through uint64 and back.
  abbrev volume_cells : GoString → PersistentVolume → List GoString
  volume_cells phase v =
      v.name
      ∷ phase
      ∷ v.bind_node
      ∷ convert_int_to_string two_decimals v.capacity
      ∷ bool_text v.ephemeral
      ∷ convert_int_to_string two_decimals (to_i64 (to_u64 v.capacity))
      ∷ convert_int_to_string two_decimals (to_i64 (to_u64 v.usage))
      ∷ []

  abbrev volume_line : GoString → Displayer → PersistentVolume → Displayer
  volume_line phase d v =
      if not v.is_host_path_pv then d else line_or_same d (add_line (volume_cells phase v) d)

  -- A volume comes with its phase; one that cannot be converted is a panic, `none`.
  unfoldable pub list_volumes :
      GoString → List (ApiVolume × GoString) → Displayer → Option Displayer
  unfolding add_line convert_int_to_string to_persistent_volume
  list_volumes name [] d = some d
  list_volumes name ((pv, phase) ∷ pvs) d =
      let rest = λ (d' : Displayer). list_volumes name pvs d' in
      if not (is_empty name) && not (str_eq name pv.name)
      then rest d
      else elim (to_persistent_volume read_volume pv) [
        | none ↦ none
        | some v ↦ rest (volume_line phase d v)
      ]

  abbrev volume_titles : List GoString
  volume_titles =
      codes "Name"
      ∷ codes "Status"
      ∷ codes "BindNode"
      ∷ codes "Capacity"
      ∷ codes "Ephemeral"
      ∷ codes "Quota"
      ∷ codes "Used"
      ∷ []

  unfoldable pub get_pvs :
      Result GetError (List (ApiVolume × GoString))
      → GoString
      → Option (Result GetError (List GoString))
  unfolding list_volumes new_displayer print
  get_pvs (err e) name = some (err e)
  get_pvs (ok pvs) name =
      elim (list_volumes name pvs (new_displayer (codes "   ") [] volume_titles)) [
        | none ↦ none
        | some d ↦ some (ok (print true d))
      ]
