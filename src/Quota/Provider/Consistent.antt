-- ===== src/Quota/Provider/Consistent.antt =====
-- The cached numbers of the directories are taken and distinct (quotaProvider/quota_xfs.go).
use hostpathpv_plugin.Base.{
  ℕ, ◌≡◌, true, false, some, arith, GoString, GoMap, str_eq_iff, ◌==◌, lookup, insert, delete,
  lookup-insert, lookup-delete, if◌then◌else◌,
}
use hostpathpv_plugin.Quota.ProjectId.{Bitmap, ProjectIdRange, has}

-- Every number in the cache is taken in the allocator, and no two directories share one.
pub record IsConsistent {A : Type 0} (b : Bitmap A) (r : ProjectIdRange) (m : A) (c : GoMap ℕ)
    : Type 0 where
  pub taken : (p : GoString) (id : ℕ) → lookup p c ≡ some id → has b r id m ≡ true
  pub distinct : (p q : GoString) (id : ℕ) → lookup p c ≡ some id → lookup q c ≡ some id → p ≡ q

module _ {A : Type 0} (b : Bitmap A) (r : ProjectIdRange) (m n : A) (c : GoMap ℕ)
    (v : IsConsistent b r m c) where
  pub same-IsConsistent : ((j : ℕ) → has b r j n ≡ has b r j m) → IsConsistent b r n c
  same-IsConsistent h = record {
    taken = λ p id e. ground (arith, h id, v.taken p id);
    distinct = v.distinct;
  }

  -- Under a number that was free.
  pub insert-IsConsistent :
      (path : GoString) (id : ℕ)
      → has b r id m ≡ false
      → ((j : ℕ) → has b r j n ≡ (if id == j then true else has b r j m))
      → IsConsistent b r n (insert path id c)
  insert-IsConsistent path id free h = record {
    taken = λ p i e. ground (arith, h i, lookup-insert path p id c, v.taken p i);
    distinct = λ p q i e f. ground (
      arith,
      lookup-insert path p id c,
      lookup-insert path q id c,
      v.taken p i,
      v.taken q i,
      v.distinct p q i,
      str_eq_iff path p,
      str_eq_iff path q,
    );
  }

  pub delete-IsConsistent :
      (path : GoString) (id : ℕ)
      → lookup path c ≡ some id
      → ((j : ℕ) → has b r j n ≡ (if id == j then false else has b r j m))
      → IsConsistent b r n (delete path c)
  delete-IsConsistent path id mine h = record {
    taken = λ p i e.
        ground
          (arith, h i, lookup-delete path p c, v.taken p i, v.distinct path p i, str_eq_iff path p);
    distinct = λ p q i e f.
        ground (arith, lookup-delete path p c, lookup-delete path q c, v.distinct p q i);
  }

  -- A number that was free is given back, or stays taken with no directory.
  pub drop-IsConsistent :
      (path : GoString)
      → ((j : ℕ) → has b r j m ≡ true → has b r j n ≡ true)
      → IsConsistent b r n (delete path c)
  drop-IsConsistent path h = record {
    taken = λ p i e. ground (arith, h i, lookup-delete path p c, v.taken p i);
    distinct = λ p q i e f.
        ground (arith, lookup-delete path p c, lookup-delete path q c, v.distinct p q i);
  }
