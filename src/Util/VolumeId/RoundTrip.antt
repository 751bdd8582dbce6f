-- ===== src/Util/VolumeId/RoundTrip.antt =====
-- Composing and decomposing identifiers (pkg/util/volid.go). Names of up to 113 bytes are composed:
-- this is the limit that the code tests, while the comment at ComposeCSIID gives 108.
use hostpathpv_plugin.Base.{
  ℕ, ◌+◌, ◌-◌, ◌*◌, ◌/◌, ◌%◌, ◌^◌, ◌≤◌, ◌<◌, ◌≡◌, refl, ap, Bool, true, false, [], ◌∷◌, ◌++◌, some,
  arith, GoString, ltb, ◌==◌, length, take_all, ok, ◌>>=◌, ok-injective, ◌∙◌, sym,
}
use hostpathpv_plugin.Util.VolumeId.{
  CsiIdentifier, hex_digit, from_hex_digit, encode16, decode16, format_bool_to_uint16,
  parse_bool_from_uint16, compose_csi_id, decompose_csi_id, take_name, separator,
}

from_hex_digit-hex_digit : (d : ℕ) → d < 16 → from_hex_digit (hex_digit d) ≡ some d
unfolding from_hex_digit hex_digit
from_hex_digit-hex_digit d h = ground arith

regroup :
    (w : ℕ) → w < 2 ^ 16 → w / 4096 * 4096 + w / 256 % 16 * 256 + w / 16 % 16 * 16 + w % 16 ≡ w
regroup w h = omega arith

-- A 16-bit word written as four hexadecimal digits is read back.
pub decode16-encode16 : (v : ℕ) → v < 2 ^ 16 → decode16 (encode16 v) ≡ ok v
unfolding decode16 encode16
decode16-encode16 v h =
    let e : v % 2 ^ 16 ≡ v = omega arith in
    rw e (
      simp
        (
          from_hex_digit-hex_digit (v / 4096) (omega arith),
          from_hex_digit-hex_digit (v / 256 % 16) (omega arith),
          from_hex_digit-hex_digit (v / 16 % 16) (omega arith),
          from_hex_digit-hex_digit (v % 16) (omega arith),
        )
        (ap ok (regroup v h)))

parse-format_bool : (b : Bool) → parse_bool_from_uint16 (format_bool_to_uint16 b) ≡ ok b
unfolding parse_bool_from_uint16 format_bool_to_uint16
parse-format_bool true = refl
parse-format_bool false = refl

format_bool-lt : (b : Bool) → format_bool_to_uint16 b < 2 ^ 16
unfolding format_bool_to_uint16
format_bool-lt true = omega arith
format_bool-lt false = omega arith

-- The text that `compose_csi_id` returns.
abbrev layout : ℕ → Bool → GoString → GoString
layout v b name =
    encode16 v
    ++ (separator
        ∷ (encode16 (format_bool_to_uint16 b)
            ++ (separator ∷ (encode16 (length name) ++ (separator ∷ name)))))

abbrev block : ℕ → ℕ → ℕ → ℕ → GoString → GoString
block a b c d rest = a ∷ b ∷ c ∷ d ∷ separator ∷ rest

abbrev word4 : ℕ → ℕ → ℕ → ℕ → GoString
word4 a b c d = a ∷ b ∷ c ∷ d ∷ []

not_short : (n : ℕ) → 15 ≤ n → n < 2 ^ 16 → ltb (n % 2 ^ 16) 15 ≡ false
not_short n h k = ground arith

-- Decomposing three blocks of four digits and a name.
module _ (a b c d e f g h i j k l : ℕ) (name : GoString) (fits : length name ≤ 113) where
  abbrev text : GoString
  text = block a b c d (block e f g h (block i j k l name))

  take_name-text : take_name (length name) text ≡ ok name
  unfolding take_name
  take_name-text =
      let same : ((length text % 2 ^ 16 - 15) == length name) ≡ true = ground arith in
      let n : 15 + length name - 15 ≡ length name = omega arith in
      rw (same, n) (ap ok (take_all name))

  decompose-text :
      (v : ℕ) (x : Bool) (n : ℕ)
      → decode16 (word4 a b c d) ≡ ok v
      → decode16 (word4 e f g h) ≡ ok n
      → parse_bool_from_uint16 n ≡ ok x
      → decode16 (word4 i j k l) ≡ ok (length name)
      → decompose_csi_id text
        ≡ ok (record { encoding_version = v; ephemeral = x; volume_name = name })
  unfolding decompose_csi_id
  decompose-text v x n hv hn hx hl =
      let long = not_short (length text) (omega arith) (omega arith) in
      rw (long, hv) (rw hn (rw hx (rw hl (rw take_name-text))))

compose-layout :
    (ci : CsiIdentifier)
    → length ci.volume_name ≤ 113
    → compose_csi_id ci ≡ ok (layout ci.encoding_version ci.ephemeral ci.volume_name)
unfolding compose_csi_id
compose-layout ci h = ground arith

decompose-layout :
    (v : ℕ) (b : Bool) (name : GoString)
    → v < 2 ^ 16
    → length name ≤ 113
    → decompose_csi_id (layout v b name)
      ≡ ok (record { encoding_version = v; ephemeral = b; volume_name = name })
decompose-layout v b name hv h =
    let first = decode16-encode16 v hv in
    let second = decode16-encode16 (format_bool_to_uint16 b) (format_bool-lt b) in
    let third = decode16-encode16 (length name) (omega arith) in
    unfold encode16 in
    decompose-text _ _ _ _ _ _ _ _ _ _ _ _ name h v b (format_bool_to_uint16 b) first second
      (parse-format_bool b) third

-- An identifier with a version of 16 bits and a name of at most 113 bytes is composed without an
-- error, and decomposing the text gives the identifier back.
pub decompose-compose :
    (ci : CsiIdentifier)
    → ci.encoding_version < 2 ^ 16
    → length ci.volume_name ≤ 113
    → (compose_csi_id ci >>= decompose_csi_id) ≡ ok ci
decompose-compose ci hv h =
    rw (compose-layout ci h) (decompose-layout ci.encoding_version ci.ephemeral ci.volume_name hv h)

pub compose_fits :
    (ci : CsiIdentifier) (s : GoString) → compose_csi_id ci ≡ ok s → length ci.volume_name ≤ 113
unfolding compose_csi_id
compose_fits ci s h = ground arith

-- Two identifiers with versions of 16 bits that are composed to one text are equal.
pub compose_injective :
    (a b : CsiIdentifier) (s : GoString)
    → a.encoding_version < 2 ^ 16
    → b.encoding_version < 2 ^ 16
    → compose_csi_id a ≡ ok s
    → compose_csi_id b ≡ ok s
    → a ≡ b
compose_injective a b s ha hb ea eb =
    let ra = decompose-compose a ha (compose_fits a s ea) in
    let rb = decompose-compose b hb (compose_fits b s eb) in
    ok-injective (sym (rw ea at ra) ∙ rw eb at rb)
