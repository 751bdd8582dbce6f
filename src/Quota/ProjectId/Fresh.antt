-- ===== src/Quota/ProjectId/Fresh.antt =====
-- Project numbers are in the range and fresh (quotaProvider/projidallocator.go).
use hostpathpv_plugin.Base.{
  ℕ, ◌+◌, ◌-◌, ◌%◌, ◌^◌, ◌<◌, ◌≤◌, ◌≡◌, Bool, true, false, Option, none, some, arith, ◌==◌,
  if◌then◌else◌, Result, ok, err, inl, inr, refl, sym, ok-injective, ◌⊎◌, Bool-cases,
}
use hostpathpv_plugin.Quota.Types.{QuotaError}
use hostpathpv_plugin.Quota.ProjectId.{
  Bitmap, BitmapLaws, ProjectIdRange, contains, allocated, allocate, allocate_next, release, has,
  numbered,
}

module _ {A : Type 0} (b : Bitmap A) (r : ProjectIdRange) (laws : BitmapLaws b r.max_prj_id_num)
    (room : r.prj_id_start + r.max_prj_id_num ≤ 2 ^ 32) where
  numbered-inv :
      (p : Result QuotaError (Option ℕ) × A) (id : ℕ)
      → (numbered b r p).0 ≡ ok id
      → ((i : ℕ) × (p.0 ≡ ok (some i)) × (id ≡ (r.prj_id_start + i) % 2 ^ 32))
  numbered-inv (ok (some i), m) id h = (i, refl, sym (ok-injective h))
  numbered-inv (ok none, m) id h = absurd (ground arith)
  numbered-inv (err e, m) id h = absurd (ground arith)

  numbered-state : (p : Result QuotaError (Option ℕ) × A) → (numbered b r p).1 ≡ p.1
  numbered-state (ok (some i), m) = refl
  numbered-state (ok none, m) = refl
  numbered-state (err e, m) = refl

  allocated-inv : (p : Result QuotaError Bool × A) → (allocated b r p).0 ≡ ok tt → p.0 ≡ ok true
  allocated-inv (ok true, m) h = refl
  allocated-inv (ok false, m) h = absurd (ground arith)
  allocated-inv (err e, m) h = absurd (ground arith)

  allocated-state : (p : Result QuotaError Bool × A) → (allocated b r p).1 ≡ p.1
  allocated-state (ok true, m) = refl
  allocated-state (ok false, m) = refl
  allocated-state (err e, m) = refl

  -- If the allocator keeps its laws and the range ends by 2 ^ 32: a number that `allocate_next`
  -- hands out lies in the range, was not taken before, and is taken afterwards; the other numbers
  -- are taken or free as they were.
  pub allocate_next-fresh :
      (m : A) (id : ℕ)
      → (allocate_next b r m).0 ≡ ok id
      → (r.prj_id_start ≤ id)
        × (id < r.prj_id_start + r.max_prj_id_num)
        × (has b r id m ≡ false)
        × ((j : ℕ) → has b r j (allocate_next b r m).1 ≡ (if id == j then true else has b r j m))
  unfolding allocate_next has
  allocate_next-fresh m id h =
      let (i, e, n) = numbered-inv (b.allocate_next m) id h in
      let (small, free) = laws.next_fresh m i e in
      let same = numbered-state (b.allocate_next m) in
      (
        ground arith,
        ground arith,
        ground arith,
        λ j. ground (arith, laws.next_taken m i (j - r.prj_id_start)),
      )

  -- A number that `allocate` is granted was free and is taken afterwards.
  pub allocate-taken :
      (m : A) (id : ℕ)
      → (allocate b r id m).0 ≡ ok tt
      → (r.prj_id_start ≤ id)
        × (id < r.prj_id_start + r.max_prj_id_num)
        × (has b r id m ≡ false)
        × ((j : ℕ) → has b r j (allocate b r id m).1 ≡ (if id == j then true else has b r j m))
  unfolding allocate has
  allocate-taken m id h =
      let i = id - r.prj_id_start in
      let inner = allocated-inv (b.allocate i m) in
      let same = allocated-state (b.allocate i m) in
      (
        ground arith,
        ground arith,
        ground (arith, laws.allocate_free m i),
        λ j. ground (arith, laws.allocate_taken m i (j - r.prj_id_start)),
      )

  pub release-free :
      (m : A) (id : ℕ)
      → (release b r id m).0 ≡ ok tt
      → (j : ℕ) → has b r j (release b r id m).1 ≡ (if id == j then false else has b r j m)
  unfolding release has
  release-free m id h j =
      ground (arith, laws.release_frees m (id - r.prj_id_start) (j - r.prj_id_start))

  numbered-failed :
      (p : Result QuotaError (Option ℕ) × A) (e : QuotaError)
      → (numbered b r p).0 ≡ err e
      → (p.0 ≡ ok none) ⊎ ((f : QuotaError) × (p.0 ≡ err f))
  numbered-failed (ok (some i), m) e h = absurd (ground arith)
  numbered-failed (ok none, m) e h = inl refl
  numbered-failed (err f, m) e h = inr (f, refl)

  allocated-failed :
      (p : Result QuotaError Bool × A) (e : QuotaError)
      → (allocated b r p).0 ≡ err e
      → (p.0 ≡ ok false) ⊎ ((f : QuotaError) × (p.0 ≡ err f))
  allocated-failed (ok true, m) e h = absurd (ground arith)
  allocated-failed (ok false, m) e h = inl refl
  allocated-failed (err f, m) e h = inr (f, refl)

  -- A call that fails changes no number.
  pub allocate_next-refused :
      (m : A) (e : QuotaError)
      → (allocate_next b r m).0 ≡ err e
      → (j : ℕ) → has b r j (allocate_next b r m).1 ≡ has b r j m
  unfolding allocate_next has
  allocate_next-refused m e h j =
      let same = numbered-state (b.allocate_next m) in
      elim (numbered-failed (b.allocate_next m) e h) [
        | inl full ↦ ground (arith, laws.next_refused m (j - r.prj_id_start))
        | inr (f, failed) ↦ ground (arith, laws.next_failed m f (j - r.prj_id_start))
      ]

  pub allocate-refused :
      (m : A) (id : ℕ) (e : QuotaError)
      → (allocate b r id m).0 ≡ err e
      → (j : ℕ) → has b r j (allocate b r id m).1 ≡ has b r j m
  unfolding allocate has
  allocate-refused m id e h j = elim (Bool-cases (contains r id).0) [
    | inr outside ↦ rw (outside, allocate) refl
    | inl inside ↦
        let i = (contains r id).1 in
        let same = allocated-state (b.allocate i m) in
        elim (allocated-failed (b.allocate i m) e (rw (inside, allocate) at h)) [
          | inl refused ↦ ground (arith, laws.allocate_refused m i (j - r.prj_id_start))
          | inr (f, failed) ↦ ground (arith, laws.allocate_failed m i (j - r.prj_id_start) f)
        ]
  ]

  pub release-refused :
      (m : A) (id : ℕ) (e : QuotaError)
      → (release b r id m).0 ≡ err e
      → (j : ℕ) → has b r j (release b r id m).1 ≡ has b r j m
  unfolding release has
  release-refused m id e h j =
      ground (arith, laws.release_failed m (id - r.prj_id_start) (j - r.prj_id_start) e)
