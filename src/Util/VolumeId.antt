-- ===== src/Util/VolumeId.antt =====
-- pkg/util/volid.go: the identifier of a volume, composed from its parts and decomposed again.
-- `hex.EncodeToString` and `hex.DecodeString` on two bytes, and `binary.BigEndian`, are written out.
pub mod RoundTrip
pub mod Bounds
use hostpathpv_plugin.Base.{
  ℕ, zero, suc, ◌+◌, ◌-◌, ◌*◌, ◌/◌, ◌%◌, ◌^◌, Bool, true, false, ◌&&◌, List, [], ◌∷◌, ◌++◌, Option,
  none, some, GoString, ltb, leb, ◌==◌, if◌then◌else◌, length, take, drop, Result, ok, err, ◌>>=◌,
}

-- Why an identifier is refused.
pub data IdError : Type 0 where
  length_overflow string_underflow bad_hex bad_bool size_mismatch : IdError

pub record CsiIdentifier : Type 0 where
  pub encoding_version : ℕ
  pub ephemeral : Bool
  pub volume_name : GoString

abbrev pub max_vol_id_len : ℕ
max_vol_id_len = 128

abbrev pub vol_id_version : ℕ
vol_id_version = 1

abbrev pub known_field_size : ℕ
known_field_size = 15

abbrev pub separator : ℕ
separator = b'-'

-- One hexadecimal digit, lower case.
unfoldable pub hex_digit : ℕ → ℕ
hex_digit d = if ltb d 10 then b'0' + d else b'a' + (d - 10)

unfoldable pub from_hex_digit : ℕ → Option ℕ
from_hex_digit c =
    if leb b'0' c && leb c b'9'
    then some (c - b'0')
    else if leb b'a' c && leb c b'f'
    then some (c - b'a' + 10)
    else if leb b'A' c && leb c b'F'
    then some (c - b'A' + 10)
    else none

-- PutUint16 and EncodeToString: four digits, the highest first.
unfoldable pub encode16 : ℕ → GoString
unfolding hex_digit
encode16 v =
    let w = v % 2 ^ 16 in
    hex_digit (w / 4096)
    ∷ hex_digit (w / 256 % 16)
    ∷ hex_digit (w / 16 % 16)
    ∷ hex_digit (w % 16)
    ∷ []

abbrev digits16 : Option ℕ → Option ℕ → Option ℕ → Option ℕ → Result IdError ℕ
digits16 (some a) (some b) (some c) (some d) = ok (a * 4096 + b * 256 + c * 16 + d)
digits16 _ _ _ _ = err bad_hex

-- DecodeString and Uint16, at the four bytes that the caller cuts out.
unfoldable pub decode16 : GoString → Result IdError ℕ
unfolding from_hex_digit
decode16 (a ∷ b ∷ c ∷ d ∷ []) =
    digits16 (from_hex_digit a) (from_hex_digit b) (from_hex_digit c) (from_hex_digit d)
decode16 _ = err bad_hex

unfoldable pub format_bool_to_uint16 : Bool → ℕ
format_bool_to_uint16 true = 1
format_bool_to_uint16 false = 0

unfoldable pub parse_bool_from_uint16 : ℕ → Result IdError Bool
parse_bool_from_uint16 zero = ok false
parse_bool_from_uint16 (suc zero) = ok true
parse_bool_from_uint16 (suc (suc v)) = err bad_bool

-- The four parts joined by "-".
unfoldable pub compose_csi_id : CsiIdentifier → Result IdError GoString
unfolding encode16 format_bool_to_uint16
compose_csi_id ci =
    if ltb max_vol_id_len (known_field_size + length ci.volume_name)
    then err length_overflow
    else ok (
        encode16 ci.encoding_version
        ++ (separator
            ∷ (encode16 (format_bool_to_uint16 ci.ephemeral)
                ++ (separator
                    ∷ (encode16 (length ci.volume_name) ++ (separator ∷ ci.volume_name))))))

-- s[lo:hi]
abbrev pub slice : ℕ → ℕ → GoString → GoString
slice lo hi s = take (hi - lo) (drop lo s)

-- The check of the declared length, and the name that follows it.
unfoldable pub take_name : ℕ → GoString → Result IdError GoString
take_name declared s =
    if (length s % 2 ^ 16 - known_field_size) == declared
    then ok (slice known_field_size (known_field_size + declared) s)
    else err size_mismatch

-- The receiver's old fields are overwritten, so the identifier is the result. The length of the
-- text is a uint16, from which 5 is taken three times: no wrap, once it is at least 15.
unfoldable pub decompose_csi_id : GoString → Result IdError CsiIdentifier
unfolding decode16 parse_bool_from_uint16 take_name
decompose_csi_id s = if ltb (length s % 2 ^ 16) known_field_size then err string_underflow else do
  version ← decode16 (slice 0 4 s)
  flag ← decode16 (slice 5 9 s)
  ephemeral ← parse_bool_from_uint16 flag
  declared ← decode16 (slice 10 14 s)
  name ← take_name declared s
  ok (record { encoding_version = version; ephemeral = ephemeral; volume_name = name })
