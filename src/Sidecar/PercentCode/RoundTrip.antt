-- ===== src/Sidecar/PercentCode/RoundTrip.antt =====
-- Percent decoding undoes percent encoding.
use nvim_remote_mirror.Prelude.{
  ℕ, zero, suc, ◌/◌, ◌%◌, ◌≤◌, ◌<◌, ◌≡◌, refl, sym, ◌∙◌, subst, ap, true, some, List, [], ◌∷◌, ◌++◌,
  length, All, arith, Bool-cases, inl, inr,
}
use nvim_remote_mirror.Sidecar.PercentCode.{
  is_plain_byte, upper_hex_digit, encode_byte, percent_encode_uri_path, decode_hex_digit, push,
  decode_escape, decode_bytes, strict_percent_decode,
}

decode_hex_digit-upper_hex_digit : (n : ℕ) → n < 16 → decode_hex_digit (upper_hex_digit n) ≡ some n
unfolding decode_hex_digit upper_hex_digit
decode_hex_digit-upper_hex_digit n h = ground arith

decode_bytes-plain :
    (fuel b : ℕ) (rest : List ℕ)
    → is_plain_byte b ≡ true
    → decode_bytes (suc fuel) (b ∷ rest) ≡ push b (decode_bytes fuel rest)
unfolding decode_bytes
decode_bytes-plain fuel b rest h = ground (arith, h)

decode_bytes-escape :
    (fuel b : ℕ) (rest : List ℕ)
    → b < 256
    → decode_bytes (suc fuel) (b'%' ∷ upper_hex_digit (b / 16) ∷ upper_hex_digit (b % 16) ∷ rest)
      ≡ push b (decode_bytes fuel rest)
unfolding decode_bytes decode_escape
decode_bytes-escape fuel b rest h =
    let high = decode_hex_digit-upper_hex_digit (b / 16) (omega (arith, h)) in
    let low = decode_hex_digit-upper_hex_digit (b % 16) (omega arith) in
    rw (high, low) (ap (λ x. push x (decode_bytes fuel rest)) (omega arith))

-- One byte takes at least one unit of fuel.
encode_byte-fuel :
    (b : ℕ) (rest : List ℕ) (fuel : ℕ)
    → length (encode_byte b ++ rest) ≤ fuel
    → (left : ℕ) × (fuel ≡ suc left) × (length rest ≤ left)
unfolding encode_byte
encode_byte-fuel b rest zero h = elim (Bool-cases (is_plain_byte b)) [
  | inl e ↦ absurd (ground (arith, h, e))
  | inr e ↦ absurd (ground (arith, h, e))
]
encode_byte-fuel b rest (suc left) h = elim (Bool-cases (is_plain_byte b)) [
  | inl e ↦ (left, refl, ground (arith, h, e))
  | inr e ↦ (left, refl, ground (arith, h, e))
]

decode_bytes-encode_byte :
    (b : ℕ) (rest : List ℕ) (left : ℕ)
    → b < 256
    → decode_bytes (suc left) (encode_byte b ++ rest) ≡ push b (decode_bytes left rest)
unfolding encode_byte
decode_bytes-encode_byte b rest left h = elim (Bool-cases (is_plain_byte b)) [
  | inl e ↦ rw e (decode_bytes-plain left b rest e)
  | inr e ↦ rw e (decode_bytes-escape left b rest h)
]

-- On enough fuel, decoding undoes the encoding.
decode_bytes-encoded :
    (path : List ℕ) (fuel : ℕ)
    → All (λ b. b < 256) path
    → length (percent_encode_uri_path path) ≤ fuel
    → decode_bytes fuel (percent_encode_uri_path path) ≡ some path
unfolding percent_encode_uri_path decode_bytes
decode_bytes-encoded [] zero v enough = refl
decode_bytes-encoded [] (suc fuel) v enough = refl
decode_bytes-encoded (b ∷ path) fuel v enough =
    let rest = percent_encode_uri_path path in
    let (left, same, more) = encode_byte-fuel b rest fuel enough in
    subst (λ n. decode_bytes n (encode_byte b ++ rest) ≡ some (b ∷ path)) (sym same)
      (decode_bytes-encode_byte b rest left v.0
        ∙ ap (push b) (decode_bytes-encoded path left v.1 more))

-- A path, as bytes below 256, that is percent-encoded for a URI is decoded to itself.
pub strict_percent_decode-percent_encode_uri_path :
    (path : List ℕ)
    → All (λ b. b < 256) path
    → strict_percent_decode (percent_encode_uri_path path) ≡ some path
unfolding strict_percent_decode
strict_percent_decode-percent_encode_uri_path path v =
    decode_bytes-encoded path (length (percent_encode_uri_path path)) v (omega arith)
