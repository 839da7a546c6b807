-- ===== src/Provenance.antt =====
-- provenance/record_signature.py: the canonical bytes of a record and the writer's signature.
-- The ECDSA library, SHA-256, base64 and the JSON printer are the parameter `Crypto`.
pub mod Laws
use compliance_ail.Common.{
  Bool, true, false, not, Option, none, some, [], ◌≡◌, ◌==◌, bytes_eq, if◌then◌else◌, String, ◌++◌,
  Text, Bytes, codes,
}
use compliance_ail.Common.Json.{Json, str, Fields, SameFields, get, put, without, is_text}

pub record Crypto : Type 1 where
  pub SigningKey : Type 0
  pub VerifyingKey : Type 0
  pub public_key : SigningKey → VerifyingKey
  pub to_der : VerifyingKey → Bytes
  pub sha256_hex : Bytes → Text
  pub sign_deterministic : SigningKey → Bytes → Bytes
  -- `verifying_key.verify` returned, and did not raise.
  pub verifies : VerifyingKey → Bytes → Bytes → Bool
  pub b64encode : Bytes → Text
  pub b64decode : Text → Option Bytes
  -- `json.dumps(payload, sort_keys=True, ...).encode("utf-8")`
  pub dumps_sorted : Fields → Bytes

-- What the libraries document, as far as the code relies on it.
pub record IsSound (C : Crypto) : Type 0 where
  pub verifies-sign :
      (k : C.SigningKey) (m : Bytes)
      → C.verifies (C.public_key k) (C.sign_deterministic k m) m ≡ true
  pub decode-encode : (b : Bytes) → C.b64decode (C.b64encode b) ≡ some b
  pub encode-ne-nil : (b : Bytes) → bytes_eq (C.b64encode b) [] ≡ false
  -- Sorted keys: the printed bytes do not depend on the order of a dictionary.
  pub dumps_order : (d e : Fields) → SameFields d e → C.dumps_sorted d ≡ C.dumps_sorted e

abbrev pub signature_field : String
signature_field = "writer_signature"

abbrev pub fingerprint_field : String
fingerprint_field = "writer_key_fingerprint"

abbrev pub format_field : String
format_field = "writer_signature_format"

abbrev pub record_signature_format : String
record_signature_format = "ail-record-signature/1"

module _ (C : Crypto) where
  unfoldable pub key_fingerprint : C.VerifyingKey → Text
  key_fingerprint vk = codes "sha256:" ++ C.sha256_hex (C.to_der vk)

  unfoldable pub canonical_record_bytes : Fields → Bytes
  canonical_record_bytes d = C.dumps_sorted (without signature_field d)

  -- The record with the format and the fingerprint, which the signature covers.
  unfoldable pub with_identity : Fields → C.VerifyingKey → Fields
  with_identity d vk =
      put fingerprint_field (str (key_fingerprint vk))
        (put format_field (str (codes record_signature_format)) d)

  unfoldable pub sign_record : Fields → C.SigningKey → C.VerifyingKey → Fields
  unfolding with_identity
  sign_record d sk vk =
      let signed = with_identity d vk in
      let signature = C.sign_deterministic sk (canonical_record_bytes signed) in
      put signature_field (str (C.b64encode signature)) signed

  -- `isinstance(signature_b64, str) and signature_b64`
  unfoldable pub signature_text : Option Json → Option Text
  signature_text (some (str s)) = if bytes_eq s [] then none else some s
  signature_text (some Json.null) = none
  signature_text (some (Json.bool _)) = none
  signature_text (some (Json.num _)) = none
  signature_text (some (Json.real _)) = none
  signature_text (some (Json.arr _)) = none
  signature_text (some (Json.obj _)) = none
  signature_text none = none

  -- The last two steps of `verify_record`: decode the signature and check it.
  unfoldable pub verify_signature : Fields → C.VerifyingKey → Text → Bool
  verify_signature d vk text = elim (C.b64decode text) [
    | none ↦ false
    | some signature ↦ C.verifies vk signature (canonical_record_bytes d)
  ]

  unfoldable pub verify_record : Fields → C.VerifyingKey → Bool
  unfolding signature_text verify_signature
  verify_record d vk = elim (signature_text (get signature_field d)) [
    | none ↦ false
    | some text ↦
        if not (is_text (get format_field d) (codes record_signature_format))
        then false
        else if not (is_text (get fingerprint_field d) (key_fingerprint vk))
        then false
        else verify_signature d vk text
  ]
