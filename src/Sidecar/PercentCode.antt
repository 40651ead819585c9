-- ===== src/Sidecar/PercentCode.antt =====
-- `percent_encode_uri_path`, `strict_percent_decode` and `decode_hex_digit` of
-- crates/nrm-sidecar/src/lsp_rewrite.rs, on the bytes of the texts.
pub mod RoundTrip
use nvim_remote_mirror.Prelude.{
  ℕ, zero, suc, ◌+◌, ◌-◌, ◌*◌, ◌/◌, ◌%◌, ◌≤◌, ◌<◌, ◌≡◌, refl, Bool, ◌&&◌, ◌||◌, Option, none, some,
  List, [], ◌∷◌, ◌++◌, length, All, leb, ltb, ◌==◌, if◌then◌else◌,
}

-- `A..=Z | a..=z | 0..=9 | / : - _ . ~`
abbrev pub is_plain_byte : ℕ → Bool
is_plain_byte b =
    (leb b'A' b && leb b b'Z')
    || ((leb b'a' b && leb b b'z')
        || ((leb b'0' b && leb b b'9')
            || (b == b'/'
                || (b == b':' || (b == b'-' || (b == b'_' || (b == b'.' || b == b'~')))))))

-- `{other:02X}`
unfoldable pub upper_hex_digit : ℕ → ℕ
upper_hex_digit n = if ltb n 10 then b'0' + n else b'A' + (n - 10)

unfoldable pub encode_byte : ℕ → List ℕ
unfolding upper_hex_digit
encode_byte b =
    if is_plain_byte b
    then b ∷ []
    else b'%' ∷ upper_hex_digit (b / 16) ∷ upper_hex_digit (b % 16) ∷ []

unfoldable pub percent_encode_uri_path : List ℕ → List ℕ
unfolding encode_byte
percent_encode_uri_path [] = []
percent_encode_uri_path (b ∷ rest) = encode_byte b ++ percent_encode_uri_path rest

unfoldable pub decode_hex_digit : ℕ → Option ℕ
decode_hex_digit b =
    if leb b'0' b && leb b b'9'
    then some (b - b'0')
    else if leb b'a' b && leb b b'f'
    then some (b - b'a' + 10)
    else if leb b'A' b && leb b b'F'
    then some (b - b'A' + 10)
    else none

-- `decoded.push(..)` in front of what the rest of the loop pushes
abbrev pub push : ℕ → Option (List ℕ) → Option (List ℕ)
push b none = none
push b (some decoded) = some (b ∷ decoded)

abbrev pub push_digits : Option ℕ → Option ℕ → Option (List ℕ) → Option (List ℕ)
push_digits (some high) (some low) later = push (high * 16 + low) later
push_digits _ _ later = none

-- The two digits of an escape, and the loop behind them.
unfoldable pub decode_escape : (List ℕ → Option (List ℕ)) → List ℕ → Option (List ℕ)
unfolding decode_hex_digit
decode_escape later (high ∷ low ∷ rest) =
    push_digits (decode_hex_digit high) (decode_hex_digit low) (later rest)
decode_escape later _ = none

-- The loop, on at least as much fuel as there are bytes: each turn takes one byte or three.
unfoldable pub decode_bytes : ℕ → List ℕ → Option (List ℕ)
unfolding decode_escape
decode_bytes fuel [] = some []
decode_bytes zero (b ∷ rest) = none
decode_bytes (suc fuel) (b ∷ rest) =
    let later = decode_bytes fuel in
    if b == b'%' then decode_escape later rest else push b (later rest)

unfoldable pub strict_percent_decode : List ℕ → Option (List ℕ)
unfolding decode_bytes
strict_percent_decode input = decode_bytes (length input) input
