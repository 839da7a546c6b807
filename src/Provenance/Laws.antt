-- ===== src/Provenance/Laws.antt =====
-- A signed record verifies, and a record that verifies is one this key signed for.
use compliance_ail.Common.{
  ◌≡◌, true, false, Option, none, some, [], arith, bytes_eq, Text, Bytes, codes, Option-cases, inl,
  inr,
}
use compliance_ail.Common.Json.{
  Json, str, Fields, get, put, is_text-eq, is_text-of_eq, get-put, get-without,
}
use compliance_ail.Provenance.{
  Crypto, IsSound, signature_field, fingerprint_field, format_field, record_signature_format,
  key_fingerprint, canonical_record_bytes, with_identity, sign_record, signature_text,
  verify_record,
}

module _ (C : Crypto) (d : Fields) (vk : C.VerifyingKey) (text : Text) (signature : Bytes) where
  -- The four conditions are enough.
  verify_record_of :
      get signature_field d ≡ some (str text)
      → bytes_eq text [] ≡ false
      → get format_field d ≡ some (str (codes record_signature_format))
      → get fingerprint_field d ≡ some (str (key_fingerprint C vk))
      → C.b64decode text ≡ some signature
      → C.verifies vk signature (canonical_record_bytes C d) ≡ true
      → verify_record C d vk ≡ true
  unfolding verify_record
  verify_record_of has filled format fingerprint decoded checked = ground (
    arith,
    is_text-of_eq (get format_field d) (codes record_signature_format) format,
    is_text-of_eq (get fingerprint_field d) (key_fingerprint C vk) fingerprint,
  )

module _ (C : Crypto) (S : IsSound C) where
  -- Writing the signature into a record leaves its canonical bytes alone.
  pub canonical_record_bytes-put :
      (d : Fields) (s : Text)
      → canonical_record_bytes C (put signature_field (str s) d) ≡ canonical_record_bytes C d
  unfolding canonical_record_bytes
  canonical_record_bytes-put d s = S.dumps_order _ _ λ k. simp (get-without, get-put) (ground arith)

  -- Whatever was in the record, what `sign_record` returns is accepted by `verify_record` under
  -- the public key of the same pair.
  pub verify_record-sign_record :
      (d : Fields) (sk : C.SigningKey)
      → verify_record C (sign_record C d sk (C.public_key sk)) (C.public_key sk) ≡ true
  unfolding sign_record
  verify_record-sign_record d sk =
      let signed = with_identity C d (C.public_key sk) in
      let signature = C.sign_deterministic sk (canonical_record_bytes C signed) in
      verify_record_of C _ (C.public_key sk) (C.b64encode signature) signature (simp get-put)
        (S.encode-ne-nil signature) (simp get-put) (simp get-put) (S.decode-encode signature)
        (rw canonical_record_bytes-put (S.verifies-sign sk (canonical_record_bytes C signed)))

signature_text-str :
    (C : Crypto) (v : Option Json) {t : Text} → signature_text C v ≡ some t → v ≡ some (str t)
unfolding signature_text
signature_text-str C none h = ground arith
signature_text-str C (some (str s)) h = ground arith
signature_text-str C (some Json.null) h = ground arith
signature_text-str C (some (Json.bool b)) h = ground arith
signature_text-str C (some (Json.num n)) h = ground arith
signature_text-str C (some (Json.real r)) h = ground arith
signature_text-str C (some (Json.arr xs)) h = ground arith
signature_text-str C (some (Json.obj e)) h = ground arith

module _ (C : Crypto) (d : Fields) (vk : C.VerifyingKey) where
  -- What an accepted record shows: it names the format and this key, and its signature field
  -- decodes to a signature by this key over every other byte of the record.
  pub verify_record_inv :
      verify_record C d vk ≡ true
      → (text : Text) × (signature : Bytes) × (get signature_field d ≡ some (str text))
        × (get format_field d ≡ some (str (codes record_signature_format)))
        × (get fingerprint_field d ≡ some (str (key_fingerprint C vk)))
        × (C.b64decode text ≡ some signature)
        × (C.verifies vk signature (canonical_record_bytes C d) ≡ true)
  unfolding verify_record
  verify_record_inv h = elim (Option-cases (signature_text C (get signature_field d))) [
    | inl e ↦ absurd (ground (arith, e))
    | inr (text, e) ↦ elim (Option-cases (C.b64decode text)) [
      | inl f ↦ absurd (ground (arith, e, f))
      | inr (signature, f) ↦ (
        text,
        signature,
        signature_text-str C (get signature_field d) e,
        is_text-eq _ _ (ground (arith, e)),
        is_text-eq _ _ (ground (arith, e)),
        f,
        ground (arith, e, f),
      )
    ]
  ]
