-- ===== src/Util/Float.antt =====
-- float64 on numbers that are not negative, as Go computes with it: a value is a dyadic fraction, and
-- each operation rounds its exact result to 53 significant bits, to the nearest and in the middle to
-- the even one. Exponents are not bounded: what the program computes stays far from overflow and
-- from the subnormal numbers.
use hostpathpv_plugin.Base.{
  ℕ, zero, suc, ◌+◌, ◌*◌, ◌/◌, ◌%◌, ◌^◌, ◌&&◌, ◌||◌, ltb, leb, ◌==◌, if◌then◌else◌,
}

-- numerator / 2 ^ scale
pub record Float : Type 0 where
  pub numerator : ℕ
  pub scale : ℕ

-- The number of doublings after which p / q is at least 2 ^ 52. A quotient of two magnitudes of int64
-- needs at most 116.
unfoldable pub doublings : ℕ → ℕ → ℕ → ℕ
doublings zero p q = 0
doublings (suc fuel) p q =
    let more = suc (doublings fuel (p + p) q) in if leb (q * 2 ^ 52) p then 0 else more

-- The number of halvings after which p / q is less than 2 ^ 53; 100 times an int64 needs at most 17.
unfoldable pub halvings : ℕ → ℕ → ℕ → ℕ
halvings zero p q = 0
halvings (suc fuel) p q =
    let more = suc (halvings fuel p (q + q)) in if ltb p (q * 2 ^ 53) then 0 else more

-- p / q rounded to a number, in the middle to the even one.
unfoldable pub nearest : ℕ → ℕ → ℕ
nearest p q =
    let kept = p / q in
    let rest = p % q in
    if ltb q (rest + rest) || ((rest + rest == q) && (kept % 2 == 1)) then kept + 1 else kept

-- The float64 nearest to p / q.
unfoldable pub round_ratio : ℕ → ℕ → Float
unfolding doublings halvings nearest
round_ratio p q =
    if p == 0
    then record { numerator = 0; scale = 0 }
    else let up = doublings 128 p q in
      let down = halvings 128 p q in
      record { numerator = nearest (p * 2 ^ up) (q * 2 ^ down) * 2 ^ down; scale = up }

-- float64(n) of an integer
unfoldable pub of_int : ℕ → Float
unfolding round_ratio
of_int n = round_ratio n 1

unfoldable pub times : Float → Float → Float
unfolding round_ratio
times a b = round_ratio (a.numerator * b.numerator) (2 ^ (a.scale + b.scale))

unfoldable pub over : Float → Float → Float
unfolding round_ratio
over a b = round_ratio (a.numerator * 2 ^ b.scale) (b.numerator * 2 ^ a.scale)

-- The part before the point, which the conversion to an integer keeps.
unfoldable pub truncated : Float → ℕ
truncated a = a.numerator / 2 ^ a.scale
