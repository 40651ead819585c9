-- ===== src/Registry/Signature.antt =====
-- Detached signatures, the trusted keys and `verify_manifest`'s document in
-- crates/nrm-registry/src/core.rs: `parse_signature_document` and the functions it calls.
pub mod Keys
use nvim_remote_mirror.Prelude.{
  ℕ, ◌*◌, Bool, not, ◌&&◌, ◌||◌, Option, none, some, List, [], ◌∷◌, Text, length, len, is_empty,
  all, any, list_eq, Result, ok, err, fail_if, map_err, ◌>>=◌, ◌>>◌, ltb, leb, ◌==◌,
}
use nvim_remote_mirror.Registry.Crates.{Crates, RawSignature, RawSignatureDocument}

abbrev pub signature_document_max_bytes : ℕ
signature_document_max_bytes = 64 * 1024

abbrev pub max_signatures : ℕ
max_signatures = 32

abbrev pub max_key_id_bytes : ℕ
max_key_id_bytes = 128

pub record DetachedSignature : Type 0 where
  pub key_id : Text
  pub signature : List ℕ

pub record SignatureDocument : Type 0 where
  pub schema_version : ℕ
  pub signatures : List DetachedSignature

pub data SignatureError (J : Type 0) : Type 0 where
  too_large : ℕ → ℕ → SignatureError J
  json : J → SignatureError J
  unsupported_schema : ℕ → SignatureError J
  signature_count : ℕ → ℕ → SignatureError J
  invalid_key_id : Text → SignatureError J
  duplicate_key_id : Text → SignatureError J
  invalid_signature_encoding : Text → SignatureError J

-- `is_ascii_alphanumeric() || matches!(byte, b'.' | b'_' | b'-')`
abbrev is_key_id_byte : ℕ → Bool
is_key_id_byte byte =
    (leb b'0' byte && leb byte b'9')
    || ((leb b'A' byte && leb byte b'Z')
        || ((leb b'a' byte && leb byte b'z') || (byte == b'.' || (byte == b'_' || byte == b'-'))))

unfoldable pub validate_key_id : Text → Result (Unit {0}) (Unit {0})
validate_key_id key_id =
    fail_if
      (is_empty key_id || (ltb max_key_id_bytes (len key_id) || not (all is_key_id_byte key_id))) tt

module _ (c : Crates) where
  unfoldable pub decode_canonical_base64 : ℕ → Text → Result (Unit {0}) (List ℕ)
  decode_canonical_base64 n encoded = elim (c.decode encoded) [
    | none ↦ err tt
    | some decoded ↦
        fail_if (not (length decoded == n) || not (list_eq (c.encode decoded) encoded)) tt
        >> ok decoded
  ]

  -- The loop over the signatures; `key_ids` are those inserted so far.
  unfoldable pub check_signatures :
      List Text → List RawSignature → Result (SignatureError c.JsonError) (List DetachedSignature)
  unfolding validate_key_id decode_canonical_base64
  check_signatures key_ids [] = ok []
  check_signatures key_ids (raw ∷ rest) = do
    map_err (λ _. SignatureError.invalid_key_id raw.key_id) (validate_key_id raw.key_id)
    fail_if (any (list_eq raw.key_id) key_ids) (SignatureError.duplicate_key_id raw.key_id)
    signature ←
        map_err (λ _. SignatureError.invalid_signature_encoding raw.key_id)
          (decode_canonical_base64 64 raw.signature)
    signatures ← check_signatures (raw.key_id ∷ key_ids) rest
    ok (record { key_id = raw.key_id; signature = signature } ∷ signatures)

  unfoldable pub parse_signature_document :
      List ℕ → Result (SignatureError c.JsonError) SignatureDocument
  unfolding check_signatures
  parse_signature_document bytes = do
    fail_if (ltb signature_document_max_bytes (length bytes))
        (SignatureError.too_large (length bytes) signature_document_max_bytes)
    raw ← map_err SignatureError.json (c.signatures_from_slice bytes)
    fail_if (not (raw.schema_version == 1)) (SignatureError.unsupported_schema raw.schema_version)
    fail_if (is_empty raw.signatures || ltb max_signatures (length raw.signatures))
        (SignatureError.signature_count (length raw.signatures) max_signatures)
    signatures ← check_signatures [] raw.signatures
    ok (record { schema_version = raw.schema_version; signatures = signatures })
