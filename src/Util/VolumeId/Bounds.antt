-- ===== src/Util/VolumeId/Bounds.antt =====
-- What the codec accepts and refuses (pkg/util/volid.go).
use hostpathpv_plugin.Base.{
  ℕ, ◌+◌, ◌≤◌, ◌<◌, ◌^◌, ◌≡◌, refl, arith, GoString, length, drop, Result, ok, err, ◌%◌, ◌-◌, ◌==◌,
  ltb, take, Bool-cases, inl, inr, ◌⊎◌, >>=-eq-ok, ok-injective, leb, ap, ◌∙◌, sym, suc, zero, [],
  ◌∷◌, ◌++◌,
}
use hostpathpv_plugin.Util.VolumeId.{
  CsiIdentifier, IdError, encode16, decode16, compose_csi_id, decompose_csi_id, take_name,
  max_vol_id_len, slice, separator, format_bool_to_uint16, parse_bool_from_uint16, known_field_size,
  length_overflow,
}

abbrev layout_of : CsiIdentifier → GoString
layout_of ci =
    encode16 ci.encoding_version
    ++ (separator
        ∷ (encode16 (format_bool_to_uint16 ci.ephemeral)
            ++ (separator ∷ (encode16 (length ci.volume_name) ++ (separator ∷ ci.volume_name)))))

-- The two outcomes of composing.
abbrev pub HasLengths : CsiIdentifier → Result IdError GoString → Type 0
HasLengths ci r =
    ((length ci.volume_name ≤ 113)
      × (s : GoString) × (r ≡ ok s)
      × (length s ≡ known_field_size + length ci.volume_name)
      × (length s ≤ max_vol_id_len))
    ⊎ ((113 < length ci.volume_name) × (r ≡ err length_overflow))

-- Composing fails exactly when the name is longer than 113 bytes; else the text has 15 bytes more
-- than the name, and at most 128.
pub compose_lengths : (ci : CsiIdentifier) → HasLengths ci (compose_csi_id ci)
unfolding compose_csi_id
compose_lengths ci = elim (Bool-cases (leb (length ci.volume_name) 113)) [
  | inl e ↦ inl (ground arith, layout_of ci, ground arith, ground arith, ground arith)
  | inr e ↦ inr (ground arith, ground arith)
]

take_long : (n : ℕ) (xs : GoString) → length xs ≤ n → take n xs ≡ xs
take_long zero [] h = refl
take_long zero (x ∷ xs) h = absurd (omega arith)
take_long (suc n) [] h = refl
take_long (suc n) (x ∷ xs) h = ap (λ (t : GoString). x ∷ t) (take_long n xs (omega arith))

length-drop : (n : ℕ) (xs : GoString) → length (drop n xs) ≡ length xs - n
length-drop zero xs = omega arith
length-drop (suc n) [] = omega arith
length-drop (suc n) (x ∷ xs) = omega (arith, length-drop n xs)

take_name_inv :
    (s name : GoString) (n : ℕ)
    → length s < 2 ^ 16
    → take_name n s ≡ ok name
    → name ≡ drop known_field_size s
unfolding take_name
take_name_inv s name n h e = elim (Bool-cases ((length s % 2 ^ 16 - 15) == n)) [
  | inl same ↦
      let room : length s - 15 ≤ 15 + n - 15 = ground arith in
      ok-injective (sym (rw same at e))
      ∙ take_long (15 + n - 15) (drop 15 s) (rw (length-drop 15 s) room)
  | inr other ↦ cc (rw other at e)
]

-- A text shorter than 2 ^ 16 that is decomposed has at least 15 bytes, and its name is what follows.
pub decompose_name :
    (s : GoString) (ci : CsiIdentifier)
    → length s < 2 ^ 16
    → decompose_csi_id s ≡ ok ci
    → (known_field_size ≤ length s) × (ci.volume_name ≡ drop known_field_size s)
unfolding decompose_csi_id
decompose_name s ci h e = elim (Bool-cases (ltb (length s % 2 ^ 16) 15)) [
  | inl short ↦ cc (rw short at e)
  | inr long ↦
      let (v, e1, f1) = >>=-eq-ok (decode16 (slice 0 4 s)) _ (rw long at e) in
      let (x, e2, f2) = >>=-eq-ok (decode16 (slice 5 9 s)) _ f1 in
      let (b, e3, f3) = >>=-eq-ok (parse_bool_from_uint16 x) _ f2 in
      let (n, e4, f4) = >>=-eq-ok (decode16 (slice 10 14 s)) _ f3 in
      let (name, e5, f5) = >>=-eq-ok (take_name n s) _ f4 in
      (
        ground arith,
        ap (λ (c : CsiIdentifier). c.volume_name) (sym (ok-injective f5))
            ∙ take_name_inv s name n h e5,
      )
]
