-- ===== src/Util/Size/Rounding.antt =====
-- What `RoundOffBytes` of pkg/util/util.go returns. A size of 0 is 0 whole units, though the
-- function's comment says that a size below 1 MiB is rounded to 1 MiB.
use hostpathpv_plugin.Base.{
  ℕ, ◌+◌, ◌-◌, ◌*◌, ◌/◌, ◌%◌, ◌^◌, ◌≤◌, ◌<◌, ◌≡◌, refl, arith, ltb, if◌then◌else◌, ℤ, pos,
  to_i64_small, Bool-cases, inl, inr,
}
use hostpathpv_plugin.Util.Size.{
  mib, gib, to_float, extra_bits, round_to_even, ceil_to, round_off_bytes,
}

to_float_small : (n : ℕ) → n < 2 ^ 53 → to_float n ≡ n
unfolding to_float extra_bits round_to_even
to_float_small n h = elim (Bool-cases (ltb n (2 ^ 53))) [
  | inl small ↦ rw small refl
  | inr large ↦ absurd (ground arith)
]

-- Below 1 GiB the unit is 1 MiB, from there on it is 1 GiB.
abbrev pub unit_of : ℕ → ℕ
unit_of n = if ltb n gib then mib else gib

round_off_bytes_small :
    (n : ℕ)
    → n ≤ 2 ^ 52
    → round_off_bytes (pos n) ≡ pos ((n + unit_of n - 1) / unit_of n * unit_of n)
unfolding round_off_bytes ceil_to
round_off_bytes_small n h = rw (to_float_small n (omega arith)) (elim (Bool-cases (ltb n gib)) [
  | inl small ↦ rw small (to_i64_small _ (omega arith))
  | inr large ↦ rw large (to_i64_small _ (omega arith))
])

abbrev pub IsRounded : ℕ → ℤ → Type 0
IsRounded n r = (m : ℕ) × (r ≡ pos m) × (n ≤ m) × (m < n + unit_of n) × (m % unit_of n ≡ 0)

rounded_up :
    (n : ℕ)
    → let m = (n + unit_of n - 1) / unit_of n * unit_of n in
      (n ≤ m) × (m < n + unit_of n) × (m % unit_of n ≡ 0)
rounded_up n = elim (Bool-cases (ltb n gib)) [
  | inl small ↦ rw small (omega arith, omega arith, omega arith)
  | inr large ↦ rw large (omega arith, omega arith, omega arith)
]

-- A size from 0 to 2 ^ 52 bytes is rounded to the least multiple of its unit that is not below it;
-- the unit is 1 MiB for a size below 1 GiB and 1 GiB from there on. So 0 stays 0, and any other size
-- below 1 MiB becomes 1 MiB.
pub round_off_bytes-IsRounded : (n : ℕ) → n ≤ 2 ^ 52 → IsRounded n (round_off_bytes (pos n))
round_off_bytes-IsRounded n h =
    let (above, near, whole) = rounded_up n in (_, round_off_bytes_small n h, above, near, whole)
