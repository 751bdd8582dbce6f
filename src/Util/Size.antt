-- ===== src/Util/Size.antt =====
-- `RoundOffBytes` of pkg/util/util.go, with float64 as it stands on integers: a number of more than
-- 53 bits is rounded to the nearest one with 53 significant bits, and to an even one in the middle.
-- The divisions by MiB and GiB, which are powers of two, are exact.
pub mod Rounding
use hostpathpv_plugin.Base.{
  ℕ, zero, suc, ◌+◌, ◌-◌, ◌*◌, ◌/◌, ◌%◌, ◌^◌, Bool, ◌&&◌, ◌||◌, ltb, ◌==◌, if◌then◌else◌, ℤ, pos,
  negsuc, sub_ℕ, to_i64,
}

abbrev pub mib : ℕ
mib = 1024 * 1024

abbrev pub gib : ℕ
gib = mib * 1024

-- How many bits a number has over 53, up to `fuel` more than `extra`; a magnitude of int64 has at
-- most 11.
unfoldable pub extra_bits : ℕ → ℕ → ℕ → ℕ
extra_bits zero extra n = extra
extra_bits (suc fuel) extra n =
    let more = extra_bits fuel (suc extra) n in if ltb n (2 ^ (53 + extra)) then extra else more

unfoldable pub round_to_even : ℕ → ℕ → ℕ
round_to_even zero n = n
round_to_even (suc e) n =
    let unit = 2 ^ suc e in
    let kept = n / unit in
    let up = ltb (2 ^ e) (n % unit) || ((n % unit == 2 ^ e) && (kept % 2 == 1)) in
    (if up then kept + 1 else kept) * unit

-- float64(n)
unfoldable pub to_float : ℕ → ℕ
unfolding extra_bits round_to_even
to_float n = round_to_even (extra_bits 11 0 n) n

unfoldable pub ceil_to : ℕ → ℕ → ℕ
ceil_to unit f = (f + unit - 1) / unit * unit

-- The product of the number of units and the unit is an int64, which wraps.
unfoldable pub round_off_bytes : ℤ → ℤ
unfolding to_float ceil_to to_i64
round_off_bytes (pos n) =
    let f = to_float n in to_i64 (if ltb f gib then ceil_to mib f else ceil_to gib f)
round_off_bytes (negsuc n) = sub_ℕ 0 (to_float (suc n) / mib * mib)
