-- ===== src/Registry/Signature/Keys.antt =====
-- The signatures of an accepted document are of different keys.
use nvim_remote_mirror.Prelude.{
  ℕ, ltb, ◌≡◌, refl, Bool, true, subst, false, List, [], ◌∷◌, Text, length, any, list_eq,
  list_eq_iff, Distinct, Fresh, NotIn-iff, Fresh-Distinct, ok, ok-injective, >>=-eq-ok, map_err,
  fail_if, arith,
}
use nvim_remote_mirror.Registry.Crates.{Crates, RawSignature, RawSignatureDocument}
use nvim_remote_mirror.Registry.Signature.{
  signature_document_max_bytes, DetachedSignature, SignatureDocument, SignatureError,
  decode_canonical_base64, validate_key_id, check_signatures, parse_signature_document,
}

abbrev pub key_ids_of : List DetachedSignature → List Text
key_ids_of [] = []
key_ids_of (detached ∷ rest) = detached.key_id ∷ key_ids_of rest

fail_if-eq-ok : {E : Type 0} (b : Bool) (e : E) → fail_if b e ≡ ok tt → b ≡ false
fail_if-eq-ok true e h = cc
fail_if-eq-ok false e h = refl

module _ (c : Crates) where
  check_signatures-Fresh :
      (seen : List Text) (raws : List RawSignature) {signatures : List DetachedSignature}
      → check_signatures c seen raws ≡ ok signatures
      → Fresh seen (key_ids_of signatures)
  unfolding check_signatures
  check_signatures-Fresh seen [] {signatures} h = ground arith
  check_signatures-Fresh seen (raw ∷ rest) {signatures} h =
      let (u, valid, h₁) = >>=-eq-ok (map_err _ (validate_key_id raw.key_id)) _ h in
      let (u₁, new, h₂) =
        >>=-eq-ok
          (fail_if (any (list_eq raw.key_id) seen) (SignatureError.duplicate_key_id raw.key_id)) _
          h₁ in
      let (signature, decoded, h₃) =
        >>=-eq-ok (map_err _ (decode_canonical_base64 c 64 raw.signature)) _ h₂ in
      let (later, checked, h₄) = >>=-eq-ok (check_signatures c (raw.key_id ∷ seen) rest) _ h₃ in
      let first : DetachedSignature = record { key_id = raw.key_id; signature = signature } in
      subst (λ all_of. Fresh seen (key_ids_of all_of)) (ok-injective (first ∷ later) signatures h₄)
        (
          (NotIn-iff list_eq list_eq_iff raw.key_id seen).0 (
              fail_if-eq-ok (any (list_eq raw.key_id) seen)
                (SignatureError.duplicate_key_id raw.key_id) new),
          check_signatures-Fresh (raw.key_id ∷ seen) rest checked,
        )

  module _ (bytes : List ℕ) {document : SignatureDocument} where
    parse_signature_document-eq-ok :
        parse_signature_document c bytes ≡ ok document
        → (raw : RawSignatureDocument) × (check_signatures c [] raw.signatures
            ≡ ok document.signatures)
    unfolding parse_signature_document
    parse_signature_document-eq-ok h =
        let (u, small, h₁) =
          >>=-eq-ok
            (fail_if (ltb signature_document_max_bytes (length bytes))
              (SignatureError.too_large (length bytes) signature_document_max_bytes))
            _ h in
        let (raw, read, h₂) =
          >>=-eq-ok (map_err SignatureError.json (c.signatures_from_slice bytes)) _ h₁ in
        (raw, ground arith)

    pub parse_signature_document-Distinct :
        parse_signature_document c bytes ≡ ok document → Distinct (key_ids_of document.signatures)
    parse_signature_document-Distinct h =
        let (raw, checked) = parse_signature_document-eq-ok h in
        ((Fresh-Distinct [] (key_ids_of document.signatures)).0
          (check_signatures-Fresh [] raw.signatures checked)).1
