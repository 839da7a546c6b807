-- ===== src/Tests/Records.antt =====
-- Signed records, and the start-up check of the reserve.
use compliance_ail.Common.{◌≡◌, true, some, [], ◌∷◌, Text, Bytes, codes, pos, arith, show, bytes_eq}
use compliance_ail.Common.Json.{Fields, end, field, str, get}
use compliance_ail.Provenance.{
  sign_record, verify_record, signature_field, format_field, fingerprint_field,
  record_signature_format, key_fingerprint, canonical_record_bytes,
}
use compliance_ail.Provenance.Laws.{verify_record-sign_record, verify_record_inv}
use compliance_ail.Verifier.Reserve.{validate_reserve, valid, validate_reserve-show}
use compliance_ail.Tests.Samples.{toy, toy-IsSound, unwrap}

abbrev decision : Fields
decision = field "call_id" (str (b'7' ∷ [])) end

abbrev signed : Fields
signed = sign_record toy decision tt tt

verify_record-sign_record_example : verify_record toy signed tt ≡ true
verify_record-sign_record_example = verify_record-sign_record toy toy-IsSound decision tt

verify_record_inv_example :
    (text : Text) × (signature : Bytes) × (get signature_field signed ≡ some (str text))
    × (get format_field signed ≡ some (str (codes record_signature_format)))
    × (get fingerprint_field signed ≡ some (str (key_fingerprint toy tt)))
    × (unwrap text ≡ some signature)
    × (bytes_eq signature (canonical_record_bytes toy signed) ≡ true)
verify_record_inv_example =
    verify_record_inv toy signed tt (verify_record-sign_record toy toy-IsSound decision tt)

validate_reserve-show_example : validate_reserve (show (pos 42)) ≡ valid 42
validate_reserve-show_example = validate_reserve-show 42 (omega arith) (omega arith)
