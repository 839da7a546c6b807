-- ===== src/Tests/Pages.antt =====
-- One fault of the record `k` at transaction 5, on pages, in keys and in a window.
use compliance_ail.Common.{
  ◌≡◌, refl, ◌↔◌, ℕ, ◌+◌, ◌≤◌, true, false, ltb, leb, none, some, [], ◌∷◌, Text, Bytes, codes,
  encode, pos, bytes_eq, starts_with, arith, padded, length, take, is_ascii, encode_replace, int_eq,
}
use compliance_ail.Common.Json.{num, str, obj, Fields, end, field, get, put, without, is_text}
use compliance_ail.Provenance.{sign_record, verify_record, key_fingerprint, canonical_record_bytes}
use compliance_ail.Verifier.Fault.{fault_key, fault_identity, max_ledger_key_bytes}
use compliance_ail.Verifier.Fault.Keys.{fault_key-encodes}
use compliance_ail.ControlPlane.Order.{Positions, allocated, check_order}
use compliance_ail.ControlPlane.Order.Descending.{Descends, check_order-Descends}
use compliance_ail.ControlPlane.Faults.{
  Reader, Rendered, rendered_fault, fault_key_transaction, page_faults, find_fault, all_digits,
  decimal, key_transaction, as_text, as_int, decoded, key_of,
}
use compliance_ail.ControlPlane.Faults.Authority.{Authentic, rendered_fault-Authentic}
use compliance_ail.ControlPlane.Faults.Counts.{Sums, faults_onto, page_faults-Sums}
use compliance_ail.ControlPlane.Faults.Keys.{fault_key_transaction-fault_key}
use compliance_ail.ControlPlane.Window.{
  faults_in_tx_window, rows, tx_bound, max_scan_limit, row_key, bytes_lt, in_window, from_seek,
}
use compliance_ail.ControlPlane.Window.Suffix.{within}
use compliance_ail.ControlPlane.Window.Complete.{rows_of, faults_in_tx_window-within}
use compliance_ail.Tests.Samples.{toy, service, unwrap, text_in}

-- Positions are naturals, and 101 is the first allocated one.
abbrev natural : Positions
natural = record { F = ℕ; above = λ a b. ltb b a; is_allocated = λ s. leb 101 s }

check_order-Descends_example :
    (check_order natural ((103, 9) ∷ (102, 7) ∷ (5, 8) ∷ []) ≡ none)
    ↔ Descends natural (allocated natural ((103, 9) ∷ (102, 7) ∷ (5, 8) ∷ []))
check_order-Descends_example =
    check_order-Descends natural (λ a b c h i. ground (arith, h, i))
      ((103, 9) ∷ (102, 7) ∷ (5, 8) ∷ [])

abbrev fault_value : Fields
fault_value =
    sign_record toy
      (field "record_type" (str (codes "ledger_fault")) (
        field "committed_key" (str (b'k' ∷ []))
          (field "committed_tx_id" (num (pos 5)) (field "call_id" (str (b'7' ∷ [])) end))))
      tt tt

abbrev reader : Reader toy
reader = record {
  loads = λ b. some (obj fault_value);
  decode_replace = λ b. b;
  writer_key = some tt;
  tx_of = λ v. some 9;
}

abbrev fault_text : Text
fault_text = codes "ledger_fault:00000000000000000005:7:nnnnnnnnnnnnnnnn"

abbrev raw : Fields
raw = field "key" (str (b'=' ∷ fault_text)) (field "value" (str (b'=' ∷ [])) end)

abbrev shown : Rendered
shown = record {
  fault_class = none;
  error_class = none;
  committed_tx_id = some (num (pos 5));
  committed_position = none;
  timestamp = none;
  ledger_key = some (str (b'=' ∷ fault_text));
}

abbrev k : Text
k = b'k' ∷ []

rendered_fault-Authentic_example : Authentic reader raw k
unfolding rendered_fault sign_record verify_record get put without is_text bytes_eq codes unwrap
    text_in key_transaction all_digits decimal starts_with int_eq fault_key_transaction key_of
    as_int key_fingerprint canonical_record_bytes
rendered_fault-Authentic_example = rendered_fault-Authentic reader raw k shown refl

page_faults-Sums_example :
    Sums
      (faults_onto reader k [] (raw ∷ raw ∷ []))
      (find_fault k ((k, record { rendered = shown; count = 2; tx = 9 }) ∷ []))
unfolding page_faults rendered_fault sign_record verify_record get put without is_text bytes_eq
    codes unwrap text_in key_transaction all_digits decimal starts_with int_eq fault_key_transaction
    key_of as_int key_fingerprint canonical_record_bytes
page_faults-Sums_example =
    page_faults-Sums reader k (raw ∷ raw ∷ [])
      ((k, record { rendered = shown; count = 2; tx = 9 }) ∷ []) refl

abbrev nonce : Text
nonce = codes "nnnnnnnnnnnnnnnn"

abbrev fault_key_text : Text
fault_key_text = codes "ledger_fault:00000000000000000005:7:nnnnnnnnnnnnnnnn"

fault_key-encodes_example :
    (key : Text) × (fault_key (service false) (b'7' ∷ []) (b'k' ∷ []) 5 nonce ≡ some key)
    × (bytes : Bytes) × (encode key ≡ some bytes)
    × (length bytes ≤ max_ledger_key_bytes)
unfolding codes is_ascii
fault_key-encodes_example =
    fault_key-encodes (service false) (b'k' ∷ []) refl (b'7' ∷ []) 5 nonce (omega arith) refl refl

faults_in_tx_window-within_example :
    faults_in_tx_window reader
      (λ net seek inclusive end. (
        some (rows_of (take max_scan_limit (within seek inclusive end ((fault_text, raw) ∷ [])))),
        net,
      ))
      max_scan_limit
      2
      5
      5
      tt
    ≡ rows (rows_of (within (tx_bound 5) true (tx_bound (5 + 1)) ((fault_text, raw) ∷ [])))
unfolding tx_bound within in_window from_seek bytes_lt row_key codes key_of decoded as_text unwrap
    get padded
faults_in_tx_window-within_example =
    faults_in_tx_window-within reader
      (λ net seek inclusive end. (
        some (rows_of (take max_scan_limit (within seek inclusive end ((fault_text, raw) ∷ [])))),
        net,
      ))
      max_scan_limit ((fault_text, raw) ∷ [])
      (record { sorted = (tt, tt); decodes = (refl, tt); answers = λ n s i e. refl }) 2 5 5 tt
      (omega arith) (omega arith)

fault_key_transaction-fault_key_example :
    fault_key_transaction reader (some (b'=' ∷ fault_key_text)) ≡ some 5
unfolding fault_key codes encode encode_replace unwrap padded fault_identity get bytes_eq
fault_key_transaction-fault_key_example =
    fault_key_transaction-fault_key (service false) (b'7' ∷ []) (b'k' ∷ []) 5 nonce reader
      (λ p rest a. refl) fault_key_text (b'=' ∷ fault_key_text) fault_key_text (omega arith) refl
      refl refl
