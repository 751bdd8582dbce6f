-- ===== src/Driver/SyncWorker/Orphans.antt =====
-- Which volumes a round of csi-plugin/hostpath/syncworker.go releases.
use hostpathpv_plugin.Base.{
  ◌≡◌, refl, ap, sym, subst, ◌∙◌, Bool, true, false, none, List, [], ◌∷◌, ◌++◌, arith, GoString,
  GoMap, lookup, has, str_eq, str_eq_refl, str_eq_iff, if◌then◌else◌, All, Result, ok, err,
  Bool-cases, inl, inr, ◌⊎◌,
}
use hostpathpv_plugin.Util.Host.{Host}
use hostpathpv_plugin.Quota.Types.{QuotaError, PathQuotaInfo, QuotaProvider}
use hostpathpv_plugin.Quota.Manager.{XfsQuotaManager, release_volume_path}
use hostpathpv_plugin.Quota.Manager.Service.Answers.{Released, release_volume_path_books}
use hostpathpv_plugin.Quota.Manager.Restore
use hostpathpv_plugin.Quota.Manager.Restore.{QuotaManager, xfs_manager, fake_manager}
use hostpathpv_plugin.Driver.MetaStore.{StoreError, list_meta_infos}
use hostpathpv_plugin.Driver.Node.Volumes.{quota_of}
use hostpathpv_plugin.Driver.SyncWorker.{
  Cluster, SyncWorker, failed, release_all, orphans, clean_listed, clean_orphan_quota_path,
}

-- No entry of the list is the volume.
abbrev pub Avoids : GoString → List GoString → Type 0
Avoids volume ids = All (λ (id : GoString). str_eq id volume ≡ false) ids

abbrev pub is_in : GoString → List GoString → Bool
is_in volume [] = false
is_in volume (id ∷ ids) = if str_eq id volume then true else is_in volume ids

-- The quota manager's list has the volume.
abbrev pub is_reported : GoString → List PathQuotaInfo → Bool
is_reported volume [] = false
is_reported volume (info ∷ infos) =
    if str_eq info.volume_id volume then true else is_reported volume infos

module _ {W K : Type 0} (host : Host W) (provider : QuotaProvider W) (cluster : Cluster K) where
  -- One release: the other volumes keep their quotas; the volume loses its own or the release failed.
  abbrev One :
      GoString → GoString → QuotaManager W → Result QuotaError (Unit {0}) × QuotaManager W → Type 0
  One id volume q (ok u, r) =
      quota_of volume r ≡ (if str_eq id volume then none else quota_of volume q)
  One id volume q (err e, r) = quota_of volume r ≡ quota_of volume q

  both-One :
      (id volume : GoString) (m : XfsQuotaManager W)
      (p : Result QuotaError (Unit {0}) × XfsQuotaManager W)
      → Released host provider id m p
      → One id volume (xfs_manager m) (Restore.both host provider p)
  both-One id volume m (ok u, n) gone = gone volume
  both-One id volume m (err e, n) same = ap (λ (c : GoMap PathQuotaInfo). lookup volume c) same.1

  release-One :
      (id volume : GoString) (q : QuotaManager W)
      → One id volume q (Restore.release host provider id q)
  unfolding Restore.release
  release-One id volume (xfs_manager m) =
      both-One id volume m (release_volume_path host provider id m)
        (release_volume_path_books host provider id m)
  release-One id volume (fake_manager w) = refl

  One-spares :
      (id volume : GoString) (q : QuotaManager W)
      (p : Result QuotaError (Unit {0}) × QuotaManager W)
      → str_eq id volume ≡ false
      → One id volume q p
      → quota_of volume p.1 ≡ quota_of volume q
  One-spares id volume q (ok u, r) other one = rw other at one
  One-spares id volume q (err e, r) other one = one

  release_all-spares :
      (volume : GoString) (ids : List GoString) (q : QuotaManager W)
      → Avoids volume ids
      → quota_of volume (release_all host provider cluster ids q).1 ≡ quota_of volume q
  unfolding release_all
  release_all-spares volume [] q h = refl
  release_all-spares volume (id ∷ ids) q h =
      let p = Restore.release host provider id q in
      release_all-spares volume ids p.1 h.1 ∙ One-spares id volume q p h.0 (release-One id volume q)

  orphans-Avoids :
      (volume : GoString) (meta_infos : GoMap GoString) (infos : List PathQuotaInfo)
      → has volume meta_infos ≡ true
      → Avoids volume (orphans host provider cluster meta_infos infos)
  unfolding orphans
  orphans-Avoids volume meta_infos [] h = tt
  orphans-Avoids volume meta_infos (info ∷ infos) h =
      elim (Bool-cases (has info.volume_id meta_infos)) [
        | inl known ↦ rw known (orphans-Avoids volume meta_infos infos h)
        | inr orphan ↦ rw orphan (apart orphan, orphans-Avoids volume meta_infos infos h)
      ]
    where
      apart : has info.volume_id meta_infos ≡ false → str_eq info.volume_id volume ≡ false
      apart orphan = elim (Bool-cases (str_eq info.volume_id volume)) [
        | inr other ↦ other
        | inl same ↦
            let one = (str_eq_iff info.volume_id volume).0 same in
            let both : true ≡ false =
              sym h ∙ sym (ap (λ (k : GoString). has k meta_infos) one) ∙ orphan in
            absurd (ground (arith, both))
      ]

  listed-spares :
      (volume : GoString) (infos : List PathQuotaInfo) (again : List GoString) (s : SyncWorker W K)
      (x : Result StoreError (GoMap GoString)) (meta_infos : GoMap GoString)
      → x ≡ ok meta_infos
      → has volume meta_infos ≡ true
      → quota_of volume (clean_listed host provider cluster infos again x s).1.quota_mng
        ≡ quota_of volume s.quota_mng
  listed-spares volume infos again s x meta_infos e h = rw e (
      release_all-spares volume (orphans host provider cluster meta_infos infos) s.quota_mng
        (orphans-Avoids volume meta_infos infos h))

  -- Cleaning with a store that can be read leaves the quota of a volume as it is, if the store
  -- lists the volume and it is not kept from an earlier round.
  pub clean_orphan_quota_path-spares :
      (volume : GoString) (infos : List PathQuotaInfo) (meta_infos : GoMap GoString)
      (s : SyncWorker W K)
      → list_meta_infos cluster.config_maps s.cluster_state ≡ ok meta_infos
      → has volume meta_infos ≡ true
      → Avoids volume s.should_delete_vol_ids
      → quota_of volume (clean_orphan_quota_path host provider cluster infos s).1.quota_mng
        ≡ quota_of volume s.quota_mng
  unfolding clean_orphan_quota_path
  clean_orphan_quota_path-spares volume infos meta_infos s listed known free =
      let p = release_all host provider cluster s.should_delete_vol_ids s.quota_mng in
      listed-spares volume infos p.0 (record s { quota_mng = p.1 })
        (list_meta_infos cluster.config_maps s.cluster_state) meta_infos listed known
      ∙ release_all-spares volume s.should_delete_vol_ids s.quota_mng free

  -- Once a volume has no quota, no release gives it one.
  One-none :
      (id volume : GoString) (q : QuotaManager W)
      (p : Result QuotaError (Unit {0}) × QuotaManager W)
      → quota_of volume q ≡ none
      → One id volume q p
      → quota_of volume p.1 ≡ none
  One-none id volume q (ok u, r) gone one = elim (Bool-cases (str_eq id volume)) [
    | inl same ↦ rw same at one
    | inr other ↦ rw other at one ∙ gone
  ]
  One-none id volume q (err e, r) gone one = one ∙ gone

  release_all-none :
      (volume : GoString) (ids : List GoString) (q : QuotaManager W)
      → quota_of volume q ≡ none
      → quota_of volume (release_all host provider cluster ids q).1 ≡ none
  unfolding release_all
  release_all-none volume [] q gone = gone
  release_all-none volume (id ∷ ids) q gone =
      let p = Restore.release host provider id q in
      release_all-none volume ids p.1 (One-none id volume q p gone (release-One id volume q))

  -- A volume is gone, or it is kept for the next round.
  abbrev GoneOrKept : GoString → List GoString × QuotaManager W → Type 0
  GoneOrKept volume r = (quota_of volume r.1 ≡ none) ⊎ (is_in volume r.0 ≡ true)

  kept_later :
      (b : Bool) (id volume : GoString) (r : List GoString × QuotaManager W)
      → GoneOrKept volume r
      → GoneOrKept volume ((if b then id ∷ r.0 else r.0), r.1)
  kept_later true id volume r (inl gone) = inl gone
  kept_later false id volume r (inl gone) = inl gone
  kept_later true id volume r (inr kept) = inr (ground arith)
  kept_later false id volume r (inr kept) = inr kept

  first-GoneOrKept :
      (volume : GoString) (ids : List GoString) (q : QuotaManager W)
      (p : Result QuotaError (Unit {0}) × QuotaManager W)
      → One volume volume q p
      → GoneOrKept volume (
        (if failed host provider cluster p.0
            then volume ∷ (release_all host provider cluster ids p.1).0
            else (release_all host provider cluster ids p.1).0),
        (release_all host provider cluster ids p.1).1,
      )
  first-GoneOrKept volume ids q (ok u, r) one =
      inl (release_all-none volume ids r (rw (str_eq_refl volume) at one))
  first-GoneOrKept volume ids q (err e, r) one = inr (rw (str_eq_refl volume) refl)

  release_all-GoneOrKept :
      (volume : GoString) (ids : List GoString) (q : QuotaManager W)
      → is_in volume ids ≡ true
      → GoneOrKept volume (release_all host provider cluster ids q)
  unfolding release_all
  release_all-GoneOrKept volume [] q h = absurd (ground arith)
  release_all-GoneOrKept volume (id ∷ ids) q h = elim (Bool-cases (str_eq id volume)) [
    | inl same ↦
        let one = (str_eq_iff id volume).0 same in
        subst (λ (i : GoString). GoneOrKept volume (release_all host provider cluster (i ∷ ids) q))
          (sym one)
          (first-GoneOrKept volume ids q (Restore.release host provider volume q)
            (release-One volume volume q))
    | inr other ↦
        let p = Restore.release host provider id q in
        kept_later (failed host provider cluster p.0) id volume
          (release_all host provider cluster ids p.1)
          (release_all-GoneOrKept volume ids p.1 (rw other at h))
  ]

  is_in-append :
      (volume : GoString) (xs ys : List GoString)
      → is_in volume ys ≡ true
      → is_in volume (xs ++ ys) ≡ true
  is_in-append volume [] ys h = h
  is_in-append volume (x ∷ xs) ys h = ground (arith, is_in-append volume xs ys h)

  orphans-is_in :
      (volume : GoString) (meta_infos : GoMap GoString) (infos : List PathQuotaInfo)
      → is_reported volume infos ≡ true
      → has volume meta_infos ≡ false
      → is_in volume (orphans host provider cluster meta_infos infos) ≡ true
  unfolding orphans
  orphans-is_in volume meta_infos [] h missing = absurd (ground arith)
  orphans-is_in volume meta_infos (info ∷ infos) h missing =
      elim (Bool-cases (str_eq info.volume_id volume)) [
        | inl same ↦
            let here =
              ap (λ (k : GoString). has k meta_infos) ((str_eq_iff info.volume_id volume).0 same)
              ∙ missing in
            rw (here, same) refl
        | inr other ↦
            let later = orphans-is_in volume meta_infos infos (rw other at h) missing in
            ground (arith, later)
      ]

  -- After cleaning with a store that can be read, a volume that was reported and that the store
  -- does not list has no quota in the quota manager or is kept for the next round.
  pub clean_orphan_quota_path-removes :
      (volume : GoString) (infos : List PathQuotaInfo) (meta_infos : GoMap GoString)
      (s : SyncWorker W K)
      → list_meta_infos cluster.config_maps s.cluster_state ≡ ok meta_infos
      → is_reported volume infos ≡ true
      → has volume meta_infos ≡ false
      → let t = (clean_orphan_quota_path host provider cluster infos s).1 in
        (quota_of volume t.quota_mng ≡ none) ⊎ (is_in volume t.should_delete_vol_ids ≡ true)
  unfolding clean_orphan_quota_path
  clean_orphan_quota_path-removes volume infos meta_infos s listed reported missing =
      let p = release_all host provider cluster s.should_delete_vol_ids s.quota_mng in
      rw listed
        (elim (release_all-GoneOrKept volume (orphans host provider cluster meta_infos infos) p.1
          (orphans-is_in volume meta_infos infos reported missing)) [
            | inl gone ↦ inl gone
            | inr kept ↦ inr (is_in-append volume p.0 _ kept)
          ])
