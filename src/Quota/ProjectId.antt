-- ===== src/Quota/ProjectId.antt =====
-- quotaProvider/projidallocator.go: project numbers handed out from one range. The bitmap is the
-- allocator of k8s.io/kubernetes/pkg/registry/core/service/allocator, a parameter here.
pub mod Fresh
use hostpathpv_plugin.Base.{
  ℕ, ◌+◌, ◌-◌, ◌%◌, ◌^◌, ◌<◌, ◌≡◌, Bool, true, false, ◌&&◌, Option, none, some, ltb, leb, ◌==◌,
  if◌then◌else◌, Result, ok, err, Act,
}
use hostpathpv_plugin.Quota.Types.{QuotaError, not_in_range, already_allocated, range_full}

-- allocator.Interface: the result of `allocate` says whether the offset was free, that of
-- `allocate_next` is `none` when no offset is.
pub record Bitmap (A : Type 0) : Type 0 where
  pub allocate : ℕ → Act A QuotaError Bool
  pub allocate_next : Act A QuotaError (Option ℕ)
  pub release : ℕ → Act A QuotaError (Unit {0})
  pub has : ℕ → A → Bool

-- What the allocator documents of a map with `size` offsets.
pub record BitmapLaws {A : Type 0} (b : Bitmap A) (size : ℕ) : Type 0 where
  pub next_fresh :
      (m : A) (i : ℕ) → (b.allocate_next m).0 ≡ ok (some i) → (i < size) × (b.has i m ≡ false)
  pub next_taken :
      (m : A) (i j : ℕ)
      → (b.allocate_next m).0 ≡ ok (some i)
      → b.has j (b.allocate_next m).1 ≡ (if i == j then true else b.has j m)
  pub next_refused :
      (m : A) (j : ℕ) → (b.allocate_next m).0 ≡ ok none → b.has j (b.allocate_next m).1 ≡ b.has j m
  pub next_failed :
      (m : A) (e : QuotaError) (j : ℕ)
      → (b.allocate_next m).0 ≡ err e
      → b.has j (b.allocate_next m).1 ≡ b.has j m
  pub allocate_free : (m : A) (i : ℕ) → (b.allocate i m).0 ≡ ok true → b.has i m ≡ false
  pub allocate_taken :
      (m : A) (i j : ℕ)
      → (b.allocate i m).0 ≡ ok true
      → b.has j (b.allocate i m).1 ≡ (if i == j then true else b.has j m)
  pub allocate_refused :
      (m : A) (i j : ℕ) → (b.allocate i m).0 ≡ ok false → b.has j (b.allocate i m).1 ≡ b.has j m
  pub allocate_failed :
      (m : A) (i j : ℕ) (e : QuotaError)
      → (b.allocate i m).0 ≡ err e
      → b.has j (b.allocate i m).1 ≡ b.has j m
  pub release_frees :
      (m : A) (i j : ℕ)
      → (b.release i m).0 ≡ ok tt
      → b.has j (b.release i m).1 ≡ (if i == j then false else b.has j m)
  pub release_failed :
      (m : A) (i j : ℕ) (e : QuotaError)
      → (b.release i m).0 ≡ err e
      → b.has j (b.release i m).1 ≡ b.has j m

-- PrjIdStart and MaxPrjIdNum; the state of the bitmap is threaded.
pub record ProjectIdRange : Type 0 where
  pub prj_id_start : ℕ
  pub max_prj_id_num : ℕ

-- The offset of a number in the range, and 0 with `false` outside.
unfoldable pub contains : ProjectIdRange → ℕ → Bool × ℕ
contains r id =
    if leb r.prj_id_start id && ltb id (r.prj_id_start + r.max_prj_id_num)
    then (true, id - r.prj_id_start)
    else (false, 0)

module _ {A : Type 0} (b : Bitmap A) (r : ProjectIdRange) where
  abbrev allocated : Result QuotaError Bool × A → Result QuotaError (Unit {0}) × A
  allocated (ok true, m) = (ok tt, m)
  allocated (ok false, m) = (err already_allocated, m)
  allocated (err e, m) = (err e, m)

  unfoldable pub allocate : ℕ → Act A QuotaError (Unit {0})
  unfolding contains
  allocate id m =
      if (contains r id).0
      then allocated (b.allocate (contains r id).1 m)
      else (err not_in_range, m)

  abbrev numbered : Result QuotaError (Option ℕ) × A → Result QuotaError ℕ × A
  numbered (ok (some offset), m) = (ok ((r.prj_id_start + offset) % 2 ^ 32), m)
  numbered (ok none, m) = (err range_full, m)
  numbered (err e, m) = (err e, m)

  unfoldable pub allocate_next : Act A QuotaError ℕ
  allocate_next m = numbered (b.allocate_next m)

  -- A number outside the range is only logged.
  unfoldable pub release : ℕ → Act A QuotaError (Unit {0})
  unfolding contains
  release id m = if (contains r id).0 then b.release (contains r id).1 m else (ok tt, m)

  unfoldable pub has : ℕ → A → Bool
  unfolding contains
  has id m = if (contains r id).0 then b.has (contains r id).1 m else false
