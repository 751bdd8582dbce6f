-- ===== src/Quota/Naming/RoundTrip.antt =====
-- From a volume to its directory and back (quota-manager/common.go).
use hostpathpv_plugin.Base.{
  ℕ, suc, ◌+◌, ◌≤◌, ◌≡◌, ◌≢◌, refl, ap, true, false, none, some, [], ◌∷◌, ◌++◌, arith, GoString,
  codes, length, drop, clean, index_of, has_prefix, has_prefix-append, slash, join_path, ltb, ◌∙◌,
  ok,
}
use hostpathpv_plugin.Quota.Naming.{
  xfs_quota_dir_prefix, get_quota_path_name, parse_quota_path_info_from_dir_name, volume_at,
}

-- No byte of the text is `b`.
abbrev pub Lacks : ℕ → GoString → Type 0
Lacks b [] = Unit
Lacks b (c ∷ s) = (c ≢ b) × Lacks b s

has_prefix-separated :
    (b : ℕ) (p s t : GoString) → Lacks b p → has_prefix (s ++ (b ∷ t)) p ≡ has_prefix s p
unfolding has_prefix
has_prefix-separated b [] s t h = ground arith
has_prefix-separated b (c ∷ p) [] t h = ground arith
has_prefix-separated b (c ∷ p) (d ∷ s) t h = ground (arith, has_prefix-separated b p s t h.1)

-- A pattern without the separator, sought behind it.
index_of-separated :
    (b c : ℕ) (p m t : GoString)
    → Lacks b (c ∷ p)
    → index_of m (c ∷ p) ≡ none
    → index_of (m ++ (b ∷ ((c ∷ p) ++ t))) (c ∷ p) ≡ some (suc (length m))
unfolding index_of
index_of-separated b c p [] t h none_before = ground (arith, has_prefix-append p t)
index_of-separated b c p (d ∷ m) t h none_before =
    ground (arith, has_prefix-separated b p m ((c ∷ p) ++ t) h.1, index_of-separated b c p m t h)

drop-append : (s t : GoString) → drop (length s) (s ++ t) ≡ t
drop-append [] t = refl
drop-append (c ∷ s) t = drop-append s t

abbrev pub volume_path : GoString → GoString → GoString
volume_path mount volume = mount ++ (slash ∷ get_quota_path_name volume)

prefix-Lacks : Lacks slash xfs_quota_dir_prefix
prefix-Lacks = omega arith

drop_to_volume :
    (mount volume : GoString) → drop (suc (length mount) + 9) (volume_path mount volume) ≡ volume
unfolding get_quota_path_name
drop_to_volume [] volume = refl
drop_to_volume (c ∷ mount) volume =
    let e : suc (suc (length mount)) + 9 ≡ suc (suc (length mount) + 9) = omega arith in
    rw e (drop_to_volume mount volume)

length-volume_path :
    (mount volume : GoString)
    → length (volume_path mount volume) ≡ suc (length mount) + 9 + length volume
unfolding get_quota_path_name
length-volume_path [] volume = omega arith
length-volume_path (c ∷ mount) volume = omega (arith, length-volume_path mount volume)

parse_clean :
    (p s : GoString)
    → clean p ≡ s
    → parse_quota_path_info_from_dir_name p ≡ volume_at (index_of s xfs_quota_dir_prefix) s
unfolding parse_quota_path_info_from_dir_name
parse_clean p s e = rw e

volume_at-found :
    (s : GoString) (n : ℕ)
    → index_of s xfs_quota_dir_prefix ≡ some n
    → 1 ≤ n
    → n + 9 ≤ length s
    → volume_at (index_of s xfs_quota_dir_prefix) s ≡ ok (drop (n + 9) s)
volume_at-found s n e h k =
    let positive : ltb 0 n ≡ true = ground arith in
    let inside : ltb (length s) (n + 9) ≡ false = ground arith in rw (e, positive) (rw inside)

-- The directory that is made for a volume on a mount point is read back as that volume, if the
-- mount point's path is not empty and does not hold the prefix, and the joined path is clean.
pub parse-join_path :
    (mount volume : GoString)
    → mount ≢ []
    → index_of mount xfs_quota_dir_prefix ≡ none
    → clean (volume_path mount volume) ≡ volume_path mount volume
    → parse_quota_path_info_from_dir_name (join_path mount (get_quota_path_name volume)) ≡ ok volume
unfolding parse_quota_path_info_from_dir_name get_quota_path_name join_path
parse-join_path [] volume h apart is_clean = absurd (h refl)
parse-join_path (c ∷ m) volume h apart is_clean =
    let path = volume_path (c ∷ m) volume in
    let found =
      index_of-separated slash b'k' (codes "8squota") (c ∷ m) (b'_' ∷ volume) prefix-Lacks apart in
    ap parse_quota_path_info_from_dir_name is_clean
    ∙ parse_clean path path is_clean
    ∙ volume_at-found path (suc (length (c ∷ m))) found (omega arith)
        (omega (arith, length-volume_path (c ∷ m) volume))
    ∙ ap ok (drop_to_volume (c ∷ m) volume)
