-- ===== src/Client/Node.antt =====
-- pkg/hostpathclient/types.go and node.go: what a node reports. The texts of the annotations are read
-- by parameters: `read_usage` for JSON in base64, `decode` for base64 alone, whose bytes are used
-- also when it fails.
use hostpathpv_plugin.Base.{
  Bool, true, false, Option, none, some, List, [], ◌∷◌, codes, GoString, GoMap, insert, has, str_eq,
  is_empty, split_at, ltb, ◌==◌, if◌then◌else◌, not, ℤ, pos, ltb_ℤ, eqb_ℤ,
}
use hostpathpv_plugin.Client.Volume.{text_at}

pub record DiskInfo : Type 0 where
  pub mount_point : GoString
  pub capacity : ℤ
  pub quota_size : ℤ
  pub used : ℤ
  pub allocatable : ℤ
  pub disabled : Bool

pub record NodeUsageInfo : Type 0 where
  pub capacity : ℤ
  pub quota_size : ℤ
  pub used : ℤ
  pub available_size : ℤ
  pub allocatable : ℤ
  pub disk_status : List DiskInfo

-- s < t on strings
unfoldable pub str_lt : GoString → GoString → Bool
str_lt [] [] = false
str_lt [] (b ∷ t) = true
str_lt (a ∷ s) [] = false
str_lt (a ∷ s) (b ∷ t) =
    let later = str_lt s t in if ltb a b then true else if a == b then later else false

unfoldable pub disk_info_less : DiskInfo → DiskInfo → Bool
unfolding str_lt
disk_info_less a b =
    if not (eqb_ℤ a.allocatable b.allocatable)
    then ltb_ℤ b.allocatable a.allocatable
    else str_lt a.mount_point b.mount_point

abbrev pub host_path_pv_node_label_key : GoString
host_path_pv_node_label_key = codes "node-role.kubernetes.io/hostpath"

abbrev pub node_disk_quota_info_ann : GoString
node_disk_quota_info_ann = codes "storage.hostpathpv.kubelet/quota-disk-info"

abbrev pub node_disk_quota_disabled_disks_ann : GoString
node_disk_quota_disabled_disks_ann = codes "storage.hostpathpv.kubelet/disable-disks"

-- The parts of corev1.Node that are read; a condition is its type and whether its status is True.
pub record ApiNode : Type 0 where
  pub version : GoString
  pub name : GoString
  pub namespace : GoString
  pub labels : GoMap GoString
  pub annotations : GoMap GoString
  pub conditions : List (GoString × Bool)

pub record Node : Type 0 where
  pub version : GoString
  pub name : GoString
  pub namespace : GoString
  pub host_path_node : Bool
  pub disk_usage : NodeUsageInfo
  pub disabled_disk : GoMap (Unit {0})
  pub ready : GoString

unfoldable pub is_host_path_node : ApiNode → Bool
is_host_path_node node = has host_path_pv_node_label_key node.labels

-- The first condition of type Ready decides.
unfoldable pub get_node_ready_status : List (GoString × Bool) → GoString
get_node_ready_status [] = codes "unReady"
get_node_ready_status ((kind, is_true) ∷ rest) =
    let later = get_node_ready_status rest in
    if str_eq kind (codes "Ready")
    then if is_true then codes "Ready" else codes "unReady"
    else later

abbrev pub no_node_usage : NodeUsageInfo
no_node_usage = record {
  capacity = pos 0;
  quota_size = pos 0;
  used = pos 0;
  available_size = pos 0;
  allocatable = pos 0;
  disk_status = [];
}

module _ (read_usage : GoString → Option NodeUsageInfo) where
  unfoldable pub get_node_host_path_usage_info : ApiNode → Option NodeUsageInfo
  get_node_host_path_usage_info node =
      let text = text_at node_disk_quota_info_ann node.annotations in
      if is_empty text then some no_node_usage else read_usage text

abbrev pub disks_set : List GoString → GoMap (Unit {0})
disks_set [] = []
disks_set (disk ∷ disks) = insert disk tt (disks_set disks)

module _ (decode : GoString → GoString) where
  unfoldable pub get_node_host_path_disabled_disks : ApiNode → GoMap (Unit {0})
  get_node_host_path_disabled_disks node =
      let text = text_at node_disk_quota_disabled_disks_ann node.annotations in
      if is_empty text then [] else disks_set (split_at b',' (decode text))

module _ (read_usage : GoString → Option NodeUsageInfo) (decode : GoString → GoString) where
  abbrev usage_or_none : Option NodeUsageInfo → NodeUsageInfo
  usage_or_none none = no_node_usage
  usage_or_none (some usage) = usage

  unfoldable pub to_host_path_node : ApiNode → Node
  unfolding is_host_path_node get_node_host_path_usage_info get_node_host_path_disabled_disks
      get_node_ready_status
  to_host_path_node node =
      let plain : Node = record {
        version = node.version;
        name = node.name;
        namespace = node.namespace;
        host_path_node = is_host_path_node node;
        disk_usage = no_node_usage;
        disabled_disk = [];
        ready = get_node_ready_status node.conditions;
      } in
      if is_host_path_node node
      then record plain {
        disabled_disk = get_node_host_path_disabled_disks decode node;
        disk_usage = usage_or_none (get_node_host_path_usage_info read_usage node);
      }
      else plain

  -- The conversion of the informer does not look at the conditions.
  unfoldable pub to_node : ApiNode → Node
  unfolding to_host_path_node
  to_node node = record (to_host_path_node node) { ready = [] }

-- The copy keeps four fields of the seven: it is no host-path node, and has no disabled disks.
unfoldable pub deep_copy_node : Node → Node
deep_copy_node n = record n { host_path_node = false; disabled_disk = []; ready = [] }
