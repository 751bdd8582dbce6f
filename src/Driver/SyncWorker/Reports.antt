-- ===== src/Driver/SyncWorker/Reports.antt =====
-- Which changes of a node csi-plugin/hostpath/syncworker.go reports.
use hostpathpv_plugin.Base.{
  ◌≡◌, refl, true, false, some, List, [], ◌∷◌, arith, str_eq_refl, ℤ, eqb_ℤ,
}
use hostpathpv_plugin.Util.Size.{round_off_bytes}
use hostpathpv_plugin.Client.Node.{DiskInfo, NodeUsageInfo}
use hostpathpv_plugin.Driver.SyncWorker.{disks_differ, should_node_update}

-- The disks have, place by place, the same mount points and used sizes; the rest is open.
abbrev pub SameUse : List DiskInfo → List DiskInfo → Type 0
SameUse [] new = Unit
SameUse (o ∷ old) [] = ⊥
SameUse (o ∷ old) (n ∷ new) = (n.mount_point ≡ o.mount_point) × (n.used ≡ o.used) × SameUse old new

eqb_ℤ_refl : (a : ℤ) → eqb_ℤ a a ≡ true
eqb_ℤ_refl a = ground arith

disks_differ_blind : (old new : List DiskInfo) → SameUse old new → disks_differ old new ≡ some false
unfolding disks_differ
disks_differ_blind [] new h = refl
disks_differ_blind (o ∷ old) [] h = absurd h
disks_differ_blind (o ∷ old) (n ∷ new) h =
    let later = disks_differ_blind old new h.2 in
    rw (h.0, h.1)
      (rw (str_eq_refl o.mount_point, eqb_ℤ_refl (round_off_bytes o.used), eqb_ℤ_refl o.allocatable)
        later)

-- A change is not reported if the node's capacity, allocated and used size stay, and each disk known
-- before keeps its place, its mount point and its used size: whatever becomes of the sizes that can
-- be allocated, and of the disabled disks.
pub should_node_update_blind :
    (old new : NodeUsageInfo)
    → new.capacity ≡ old.capacity
    → new.quota_size ≡ old.quota_size
    → new.used ≡ old.used
    → SameUse old.disk_status new.disk_status
    → should_node_update old new ≡ some false
unfolding should_node_update
should_node_update_blind old new c q u h =
    rw (c, q, u)
      (rw
        (eqb_ℤ_refl old.capacity, eqb_ℤ_refl old.quota_size, eqb_ℤ_refl (round_off_bytes old.used))
        (disks_differ_blind old.disk_status new.disk_status h))
