-- ===== src/Quota/Provider/Numbers.antt =====
-- Each directory has a project number of its own (quotaProvider/quota_xfs.go).
use hostpathpv_plugin.Base.{
  ℕ, ◌+◌, ◌^◌, ◌≤◌, ◌≡◌, refl, true, false, some, arith, GoString, ◌==◌, lookup, if◌then◌else◌,
  Result, ok, err, Option-cases, inl, inr, Bool-cases, List, [], ◌∷◌,
}
use hostpathpv_plugin.Quota.Types.{QuotaError}
use hostpathpv_plugin.Quota.Kernel
use hostpathpv_plugin.Quota.Kernel.{Kernel}
use hostpathpv_plugin.Quota.ProjectId
use hostpathpv_plugin.Quota.ProjectId.{Bitmap, BitmapLaws, ProjectIdRange, has}
use hostpathpv_plugin.Quota.ProjectId.Fresh.{
  allocate_next-fresh, allocate_next-refused, allocate-taken, allocate-refused, release-free,
  release-refused,
}
use hostpathpv_plugin.Quota.Provider.{
  ProviderState, get_project_quota, set_project_quota, delete_project_quota, give_back, after_grant,
  after_project_id, after_number, after_tag, after_limit, after_release, remove_path,
}
use hostpathpv_plugin.Quota.Provider.Consistent.{
  IsConsistent, same-IsConsistent, insert-IsConsistent, delete-IsConsistent, drop-IsConsistent,
}

module _ {K A : Type 0} (k : Kernel K) (b : Bitmap A) (r : ProjectIdRange)
    (laws : BitmapLaws b r.max_prj_id_num) (room : r.prj_id_start + r.max_prj_id_num ≤ 2 ^ 32) where
  abbrev Good : ProviderState K A → Type 0
  Good s = IsConsistent b r s.bitmap s.quota_path_and_id

  -- The clean-up of a failed call, when the bitmap `m` differs from that of `s` by the new number.
  give_back-Good :
      (path : GoString) (id : ℕ) (s t : ProviderState K A)
      → Good s
      → t.quota_path_and_id ≡ s.quota_path_and_id
      → has b r id s.bitmap ≡ false
      → ((j : ℕ) → has b r j t.bitmap ≡ (if id == j then true else has b r j s.bitmap))
      → Good (give_back k b r path id t)
  unfolding give_back
  give_back-Good path id s t v same free new = rw same (
      drop-IsConsistent b r s.bitmap (ProjectId.release b r id t.bitmap).1 s.quota_path_and_id v
        path (λ j h. kept j h (ProjectId.release b r id t.bitmap).0 refl))
    where
      kept :
          (j : ℕ)
          → has b r j s.bitmap ≡ true
          → (x : Result QuotaError (Unit {0})) → (ProjectId.release b r id t.bitmap).0 ≡ x
          → has b r j (ProjectId.release b r id t.bitmap).1 ≡ true
      kept j h (ok tt) e = ground (arith, release-free b r laws room t.bitmap id e j, new j)
      kept j h (err f) e = ground (arith, release-refused b r laws room t.bitmap id f e j, new j)

  limit-Good :
      (path : GoString) (id : ℕ) (s t : ProviderState K A) (x : Result QuotaError (Unit {0}))
      → Good s
      → t.quota_path_and_id ≡ s.quota_path_and_id
      → has b r id s.bitmap ≡ false
      → ((j : ℕ) → has b r j t.bitmap ≡ (if id == j then true else has b r j s.bitmap))
      → Good (after_limit k b r path id (x, t)).1
  limit-Good path id s t (ok u) v same free new =
      rw same (insert-IsConsistent b r s.bitmap t.bitmap s.quota_path_and_id v path id free new)
  limit-Good path id s t (err e) v same free new = give_back-Good path id s t v same free new

  tag-Good :
      (path device : GoString) (hard soft id : ℕ) (s t : ProviderState K A)
      (x : Result QuotaError (Unit {0}))
      → Good s
      → t.quota_path_and_id ≡ s.quota_path_and_id
      → has b r id s.bitmap ≡ false
      → ((j : ℕ) → has b r j t.bitmap ≡ (if id == j then true else has b r j s.bitmap))
      → Good (after_tag k b r path device hard soft id (x, t)).1
  tag-Good path device hard soft id s t (ok u) v same free new =
      let limited = Kernel.set_project_quota k device id hard soft t.kernel in
      limit-Good path id s (record t { kernel = limited.1 }) limited.0 v same free new
  tag-Good path device hard soft id s t (err e) v same free new =
      give_back-Good path id s t v same free new

  number-Good :
      (path device : GoString) (hard soft : ℕ) (s : ProviderState K A) (x : Result QuotaError ℕ)
      → Good s
      → (ProjectId.allocate_next b r s.bitmap).0 ≡ x
      → Good
          (after_number k b r path device hard soft
            (x, record s { bitmap = (ProjectId.allocate_next b r s.bitmap).1 })).1
  number-Good path device hard soft s (ok id) v e =
      let (low, high, free, new) = allocate_next-fresh b r laws room s.bitmap id e in
      let t : ProviderState K A = record s { bitmap = (ProjectId.allocate_next b r s.bitmap).1 } in
      let tagged = Kernel.set_project_id k path id t.kernel in
      tag-Good path device hard soft id s (record t { kernel = tagged.1 }) tagged.0 v refl free new
  number-Good path device hard soft s (err f) v e =
      same-IsConsistent b r s.bitmap _ s.quota_path_and_id v
        (allocate_next-refused b r laws room s.bitmap f e)

  -- Setting the quota of a directory, with success or not, keeps the numbers apart.
  pub set_project_quota-IsConsistent :
      (path device : GoString) (hard soft : ℕ) (s : ProviderState K A)
      → Good s
      → Good (set_project_quota k b r path device hard soft s).1
  unfolding set_project_quota
  set_project_quota-IsConsistent path device hard soft s v =
      elim (Option-cases (lookup path s.quota_path_and_id)) [
        | inl fresh ↦
            rw (fresh, set_project_quota)
              (number-Good path device hard soft s (ProjectId.allocate_next b r s.bitmap).0 v refl)
        | inr (id, old) ↦ rw (old, set_project_quota) v
      ]

  grant-Good :
      (path device : GoString) (id : ℕ) (s : ProviderState K A) (x : Result QuotaError (Unit {0}))
      → Good s
      → (ProjectId.allocate b r id s.bitmap).0 ≡ x
      → Good
          (after_grant k b r path device id
            (x, record s { bitmap = (ProjectId.allocate b r id s.bitmap).1 })).1
  grant-Good path device id s (ok tt) v e =
      let (low, high, free, new) = allocate-taken b r laws room s.bitmap id e in
      insert-IsConsistent b r s.bitmap _ s.quota_path_and_id v path id free new
  grant-Good path device id s (err f) v e =
      same-IsConsistent b r s.bitmap _ s.quota_path_and_id v
        (allocate-refused b r laws room s.bitmap id f e)

  project_id-Good :
      (path device : GoString) (s : ProviderState K A) (w : K) (x : Result QuotaError ℕ)
      → Good s
      → Good (after_project_id k b r path device (x, record s { kernel = w })).1
  project_id-Good path device s w (ok id) v =
      let t : ProviderState K A = record s { kernel = w } in
      grant-Good path device id t (ProjectId.allocate b r id s.bitmap).0 v refl
  project_id-Good path device s w (err f) v = v

  -- Reading the quota of a directory keeps the numbers apart; a number that another directory
  -- has already is refused.
  pub get_project_quota-IsConsistent :
      (path device : GoString) (s : ProviderState K A)
      → Good s
      → Good (get_project_quota k b r path device s).1
  unfolding get_project_quota
  get_project_quota-IsConsistent path device s v =
      elim (Option-cases (lookup path s.quota_path_and_id)) [
        | inl fresh ↦
            let p = Kernel.get_project_id k path s.kernel in
            rw (fresh, get_project_quota) (project_id-Good path device s p.1 p.0 v)
        | inr (id, old) ↦ rw (old, get_project_quota) v
      ]

  remove_path-Good :
      (path : GoString) (s : ProviderState K A) → Good s → Good (remove_path k b r path s).1
  unfolding remove_path
  remove_path-Good path s v = elim (Bool-cases (k.missing path s.kernel)) [
    | inl gone ↦ rw gone v
    | inr there ↦ rw there v
  ]

  release-Good :
      (path : GoString) (id : ℕ) (s : ProviderState K A) (x : Result QuotaError (Unit {0}))
      → Good s
      → lookup path s.quota_path_and_id ≡ some id
      → (ProjectId.release b r id s.bitmap).0 ≡ x
      → Good
          (after_release k b r path
            (x, record s { bitmap = (ProjectId.release b r id s.bitmap).1 })).1
  release-Good path id s (ok tt) v mine e = remove_path-Good path _ (
      delete-IsConsistent b r s.bitmap (ProjectId.release b r id s.bitmap).1 s.quota_path_and_id v
        path id mine (release-free b r laws room s.bitmap id e))
  release-Good path id s (err f) v mine e =
      same-IsConsistent b r s.bitmap _ s.quota_path_and_id v
        (release-refused b r laws room s.bitmap id f e)

  -- Deleting a directory frees its number only.
  pub delete_project_quota-IsConsistent :
      (path : GoString) (s : ProviderState K A)
      → Good s
      → Good (delete_project_quota k b r path s).1
  unfolding delete_project_quota
  delete_project_quota-IsConsistent path s v =
      elim (Option-cases (lookup path s.quota_path_and_id)) [
        | inl fresh ↦ rw (fresh, delete_project_quota) (remove_path-Good path s v)
        | inr (id, old) ↦
            rw (old, delete_project_quota)
              (release-Good path id s (ProjectId.release b r id s.bitmap).0 v old refl)
      ]

pub data ProviderCall : Type 0 where
  sets : GoString → GoString → ℕ → ℕ → ProviderCall
  gets : GoString → GoString → ProviderCall
  deletes : GoString → ProviderCall

module _ {K A : Type 0} (k : Kernel K) (b : Bitmap A) (r : ProjectIdRange) where
  pub run : ProviderState K A → List ProviderCall → ProviderState K A
  run s [] = s
  run s (sets path device hard soft ∷ cs) =
      run (set_project_quota k b r path device hard soft s).1 cs
  run s (gets path device ∷ cs) = run (get_project_quota k b r path device s).1 cs
  run s (deletes path ∷ cs) = run (delete_project_quota k b r path s).1 cs

  -- If the allocator keeps its laws and the range of numbers ends by 2 ^ 32: from a provider whose
  -- cached numbers are taken and distinct, they are so after any calls, whichever of them fail in
  -- the kernel. No two directories share a number.
  pub run-IsConsistent :
      BitmapLaws b r.max_prj_id_num
      → r.prj_id_start + r.max_prj_id_num ≤ 2 ^ 32
      → (s : ProviderState K A) (cs : List ProviderCall)
      → IsConsistent b r s.bitmap s.quota_path_and_id
      → IsConsistent b r (run s cs).bitmap (run s cs).quota_path_and_id
  unfolding run
  run-IsConsistent laws room s [] v = v
  run-IsConsistent laws room s (sets path device hard soft ∷ cs) v =
      run-IsConsistent laws room (set_project_quota k b r path device hard soft s).1 cs
        (set_project_quota-IsConsistent k b r laws room path device hard soft s v)
  run-IsConsistent laws room s (gets path device ∷ cs) v =
      run-IsConsistent laws room (get_project_quota k b r path device s).1 cs
        (get_project_quota-IsConsistent k b r laws room path device s v)
  run-IsConsistent laws room s (deletes path ∷ cs) v =
      run-IsConsistent laws room (delete_project_quota k b r path s).1 cs
        (delete_project_quota-IsConsistent k b r laws room path s v)
