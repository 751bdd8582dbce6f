-- ===== src/Client/Requests/Disabled.antt =====
-- Which disks of a node read as disabled after a request (pkg/hostpathclient/client.go and node.go).
use hostpathpv_plugin.Base.{
  ℕ, ◌≡◌, refl, ap, sym, ◌∙◌, Bool, true, false, not, List, [], ◌∷◌, arith, GoString, GoMap, lookup,
  insert, has, lookup-insert_same, str_eq, is_empty, split_at, join_with, if◌then◌else◌, All,
  Bool-cases, inl, inr,
}
use hostpathpv_plugin.Client.Volume.{text_at}
use hostpathpv_plugin.Client.Node.{
  ApiNode, disks_set, get_node_host_path_disabled_disks, node_disk_quota_disabled_disks_ann,
}
use hostpathpv_plugin.Client.Patch.{
  annotation_patch, disk_names, disabled_disks_value, changed_disks,
  get_node_host_path_disabled_disks_patch_bytes,
}
use hostpathpv_plugin.Client.Requests.Names.{
  lacks, Lacks, is_in, split_at-join_with, split_at-All, has-disks_set, has-disk_names,
  disks_set-All, changed_disks-All, has-changed_disks,
}

-- What base64 documents: decoding gives the text back, and only the empty text is encoded as empty.
pub record Base64Laws (base64 decode : GoString → GoString) : Type 0 where
  pub decoded : (s : GoString) → decode (base64 s) ≡ s
  pub empty : (s : GoString) → is_empty (base64 s) ≡ is_empty s

-- The disks that the text of an annotation names.
abbrev read_disks : (GoString → GoString) → GoString → GoMap (Unit {0})
read_disks decode text = if is_empty text then [] else disks_set (split_at b',' (decode text))

abbrev comma : ℕ
comma = b','

-- An empty text has joined nothing but an empty name.
is_in-join_with :
    (n : GoString) (ns : List GoString) (j : GoString)
    → is_empty j ≡ false
    → is_empty (join_with comma (n ∷ ns)) ≡ true
    → is_in j (n ∷ ns) ≡ false
unfolding join_with str_eq
is_in-join_with [] [] [] named nothing = absurd (ground arith)
is_in-join_with [] [] (c ∷ j) named nothing = refl
is_in-join_with (c ∷ n) [] j named nothing = absurd (ground arith)
is_in-join_with [] (q ∷ ns) j named nothing = absurd (ground arith)
is_in-join_with (c ∷ n) (q ∷ ns) j named nothing = absurd (ground arith)

-- The node with the annotation that the patch writes.
abbrev pub annotated : GoString → ApiNode → ApiNode
annotated value node = record node {
  annotations = insert node_disk_quota_disabled_disks_ann value node.annotations;
}

text_at-insert : (k v : GoString) (m : GoMap GoString) → text_at k (insert k v m) ≡ v
text_at-insert k v m = ground (arith, lookup-insert_same k v m)

module _ (base64 decode : GoString → GoString) (laws : Base64Laws base64 decode) where
  read_disks-empty : (s : GoString) → is_empty s ≡ true → read_disks decode (base64 s) ≡ []
  read_disks-empty s e = let e' : is_empty (base64 s) ≡ true = laws.empty s ∙ e in rw e' refl

  read_disks-text :
      (s : GoString)
      → is_empty s ≡ false
      → read_disks decode (base64 s) ≡ disks_set (split_at comma s)
  read_disks-text s e =
      let e' : is_empty (base64 s) ≡ false = laws.empty s ∙ e in
      rw e' (ap (λ (t : GoString). disks_set (split_at comma t)) (laws.decoded s))

  -- Names that lack the comma are read again, but for an empty one.
  read_disks-join_with :
      (ns : List GoString) (j : GoString)
      → All (Lacks comma) ns
      → is_empty j ≡ false
      → has j (read_disks decode (base64 (join_with comma ns))) ≡ is_in j ns
  unfolding lookup join_with
  read_disks-join_with [] j h named =
      ap (λ (m : GoMap (Unit {0})). has j m) (read_disks-empty [] refl)
  read_disks-join_with (n ∷ ns) j h named =
      elim (Bool-cases (is_empty (join_with comma (n ∷ ns)))) [
        | inl nothing ↦
            ap (λ (m : GoMap (Unit {0})). has j m)
              (read_disks-empty (join_with comma (n ∷ ns)) nothing)
            ∙ sym (is_in-join_with n ns j named nothing)
        | inr text ↦
            ap (λ (m : GoMap (Unit {0})). has j m) (read_disks-text (join_with comma (n ∷ ns)) text)
            ∙ ap (λ (parts : List GoString). has j (disks_set parts))
                (split_at-join_with comma n ns h)
            ∙ has-disks_set j (n ∷ ns)
      ]

  -- The disks that are read have names that lack the comma.
  disabled-All :
      (node : ApiNode)
      → All (Lacks comma) (disk_names (get_node_host_path_disabled_disks decode node))
  unfolding get_node_host_path_disabled_disks
  disabled-All node =
      elim (Bool-cases (is_empty (text_at node_disk_quota_disabled_disks_ann node.annotations))) [
        | inl nothing ↦ rw nothing tt
        | inr text ↦ rw text (disks_set-All (Lacks comma) (split_at comma _) (split_at-All comma _))
      ]

  read_annotated :
      (value : GoString) (node : ApiNode) (j : GoString)
      → has j (get_node_host_path_disabled_disks decode (annotated value node))
        ≡ has j (read_disks decode value)
  unfolding get_node_host_path_disabled_disks
  read_annotated value node j =
      ap (λ (text : GoString). has j (read_disks decode text))
        (text_at-insert node_disk_quota_disabled_disks_ann value node.annotations)

  -- If base64 is read back: the request to enable or disable a disk whose name lacks the comma writes
  -- one annotation, and a node with that annotation reads the disk as disabled just when it was to be
  -- disabled, and every other disk with a name as before.
  pub disabled_disks-read :
      (node : ApiNode) (disk j : GoString) (enable : Bool)
      → lacks b',' disk ≡ true
      → is_empty j ≡ false
      → (get_node_host_path_disabled_disks_patch_bytes base64 decode node disk enable
          ≡ annotation_patch node_disk_quota_disabled_disks_ann
              (disabled_disks_value base64 decode node disk enable))
        × (has j (
              get_node_host_path_disabled_disks decode
                (annotated (disabled_disks_value base64 decode node disk enable) node))
            ≡ (if str_eq disk j
                then not enable
                else has j (get_node_host_path_disabled_disks decode node)))
  unfolding get_node_host_path_disabled_disks_patch_bytes disabled_disks_value
  disabled_disks-read node disk j enable plain named =
      let before = get_node_host_path_disabled_disks decode node in
      let after = changed_disks enable disk before in
      (
        refl,
        read_annotated (base64 (join_with comma (disk_names after))) node j
            ∙ read_disks-join_with (disk_names after) j
                (changed_disks-All (Lacks comma) enable disk before plain (disabled-All node)) named
            ∙ has-disk_names j after
            ∙ has-changed_disks enable disk j before,
      )
