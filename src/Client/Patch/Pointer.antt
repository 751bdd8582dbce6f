-- ===== src/Client/Patch/Pointer.antt =====
-- The path of a patch names the annotation that is meant (pkg/hostpathclient/client.go).
use hostpathpv_plugin.Base.{
  ℕ, ◌≡◌, refl, [], ◌∷◌, arith, GoString, ◌==◌, if◌then◌else◌, false, Bool-cases, inl, inr,
}
use hostpathpv_plugin.Client.Patch.{rfc6901_encode}

-- RFC 6901, section 4, for one reference token: `~1` is read as `/` and `~0` as `~`.
unfoldable pub read_token : GoString → GoString
read_token [] = []
read_token (c ∷ []) = c ∷ []
read_token (c ∷ d ∷ s) =
    let short = read_token s in
    let long = read_token (d ∷ s) in
    if c == b'~'
    then if d == b'1' then b'/' ∷ short else if d == b'0' then b'~' ∷ short else c ∷ long
    else c ∷ long

-- A byte that opens no pair stands for itself.
read_token-cons :
    (c : ℕ) (s : GoString) → (c == b'~') ≡ false → read_token (c ∷ s) ≡ c ∷ read_token s
unfolding read_token
read_token-cons c [] h = refl
read_token-cons c (d ∷ s) h = rw h refl

-- Reading an encoded token by the rules of RFC 6901 gives the text back, for every text.
pub read-rfc6901_encode : (s : GoString) → read_token (rfc6901_encode s) ≡ s
unfolding rfc6901_encode read_token
read-rfc6901_encode [] = refl
read-rfc6901_encode (c ∷ s) = elim (Bool-cases (c == b'~')) [
  | inl tilde ↦ rw tilde (ground (arith, read-rfc6901_encode s))
  | inr other ↦ elim (Bool-cases (c == b'/')) [
    | inl slash ↦ rw (other, slash) (ground (arith, read-rfc6901_encode s))
    | inr plain ↦
        rw (other, plain)
          (ground (arith, read-rfc6901_encode s, read_token-cons c (rfc6901_encode s)))
  ]
]
