-- ===== src/Verifier/Fault.antt =====
-- The fault records of verifier/main.py: the durable account of a write that committed and whose
-- proof failed, written by the one path that accepts an unverified write.
pub mod Kept
pub mod Keys
use compliance_ail.Common.{
  ℕ, ◌+◌, Bool, true, false, not, Option, none, some, [], ◌∷◌, ◌++◌, String, if◌then◌else◌, ◌==◌,
  ltb, length, take, Text, Bytes, codes, encode, encode_replace, ℤ, pos, padded, bytes_eq, int_eq,
}
use compliance_ail.Common.Json.{
  Json, null, num, str, obj, arr, nil, item, Fields, end, field, get, is_text,
}
use compliance_ail.Provenance.{sign_record}
use compliance_ail.Verifier.Ledger.{Failure, Reply, ok, fail}
use compliance_ail.Verifier.Sequence.{World}
use compliance_ail.Verifier.Service.{
  Service, Found, present, absent, not_found, unknown, committed_tx_for_value, as_object,
  fault_record_type, fault_key_prefix,
}

abbrev pub fault_key_tx_pad : ℕ
fault_key_tx_pad = 20

abbrev pub max_ledger_key_bytes : ℕ
max_ledger_key_bytes = 1023

-- The prefix (13 bytes), the transaction, two colons and the nonce (16 bytes).
abbrev pub fault_key_fixed_bytes : ℕ
fault_key_fixed_bytes = 13 + fault_key_tx_pad + 1 + 1 + 16

abbrev pub max_fault_identity_bytes : ℕ
max_fault_identity_bytes = 972

pub data ErrorClass : Type 0 where
  consistency_failure signature_failure : ErrorClass

unfoldable pub error_class_name : ErrorClass → Text
error_class_name consistency_failure = codes "consistency_failure"
error_class_name signature_failure = codes "signature_failure"

-- Why no fault record was written.
pub data FaultError : Type 0 where
  not_derivable : Found → FaultError
  moved : ℕ → ℕ → FaultError
  key_too_long : ℕ → FaultError
  no_writer_key not_encodable not_a_record : FaultError
  not_a_fault : Option Json → FaultError
  client : Failure → FaultError

-- `fault_key_tx_bound`
unfoldable pub fault_key_tx_bound : ℕ → Text
fault_key_tx_bound tx = codes fault_key_prefix ++ padded fault_key_tx_pad tx

-- `if call_id: str(call_id)`
truthy_text : (Text → Bool) → (Json → Text) → Option Json → Option Text
truthy_text nonzero show none = none
truthy_text nonzero show (some null) = none
truthy_text nonzero show (some (Json.bool b)) = if b then some (show (Json.bool b)) else none
truthy_text nonzero show (some (num n)) = if int_eq n (pos 0) then none else some (show (num n))
truthy_text nonzero show (some (Json.real r)) =
    if nonzero r then some (show (Json.real r)) else none
truthy_text nonzero show (some (str s)) = if bytes_eq s [] then none else some s
truthy_text nonzero show (some (arr nil)) = none
truthy_text nonzero show (some (arr (item x xs))) = some (show (arr (item x xs)))
truthy_text nonzero show (some (obj end)) = none
truthy_text nonzero show (some (obj (field k v d))) = some (show (obj (field k v d)))

get_in : String → Option Fields → Option Json
get_in k none = none
get_in k (some d) = get k d

-- Whether a call id can stand in a key: its length in bytes, and that it can be encoded.
is_usable : Text → Bool
is_usable identity =
    if ltb max_fault_identity_bytes (length (encode_replace identity))
    then false
    else elim (encode identity) [ none ↦ false | some _ ↦ true ]

module _ (V : Service) where
  -- The digest of the record's key, where there is no usable call id.
  pub digest_identity : Bytes → Text
  digest_identity key = codes "key:" ++ take 32 (V.crypto.sha256_hex key)

  identity_of : Option Text → Bytes → Text
  unfolding is_usable digest_identity
  identity_of none key = digest_identity key
  identity_of (some call_id) key = if is_usable call_id then call_id else digest_identity key

  -- `_fault_identity`
  unfoldable pub fault_identity : Bytes → Bytes → Text
  unfolding identity_of truthy_text get_in as_object
  fault_identity value key =
      identity_of (truthy_text V.is_nonzero V.str_of (get_in "call_id" (as_object (V.loads value))))
        key

  -- `_fault_key`; `none` is its `ValueError`.
  unfoldable pub fault_key : Bytes → Bytes → ℕ → Text → Option Text
  unfolding fault_key_tx_bound
  fault_key value record_key tx nonce =
      let identity = fault_identity value record_key in
      let key : Text = fault_key_tx_bound tx ++ b':' ∷ (identity ++ b':' ∷ nonce) in
      if ltb max_ledger_key_bytes (length (encode_replace key)) then none else some key

abbrev remediation : String
remediation =
    "The record committed and its write-time proof did not check out. It is in the ledger and on the ordered page, and its verification state at read time is computed fresh, so it may read verified once the trust anchor is repaired - which is why this record exists. Run the sequence reconciliation in anchor_service to find what else is affected, and see docs/adr/0014-ordered-audit-view-index.md."

-- An optional position or view, as JSON.
nullable : {A : Type 0} → (A → Json) → Option A → Json
nullable f none = null
nullable f (some a) = f a

-- What the caller of `_write_fault_record` says of the write.
pub record Failed : Type 0 where
  pub key : Bytes
  pub value : Bytes
  pub seq : Option ℤ
  pub view : Option String
  pub error_class : ErrorClass
  pub detail : String

module _ (V : Service) where
  unfoldable pub fault_fields : Failed → ℕ → Text → Fields
  unfolding nullable error_class_name
  fault_fields f tx timestamp = field "record_type" (str (codes fault_record_type)) (
      field "fault_class" (str (codes "write_verification_failed")) (
        field "call_id" (str (fault_identity V f.value f.key)) (
          field "committed_key" (str (V.decode_replace f.key)) (
            field "committed_tx_id" (num (pos tx)) (
              field "committed_position" (nullable num f.seq) (
                field "view" (nullable (λ v. str (codes v)) f.view) (
                  field "error_class" (str (error_class_name f.error_class)) (
                    field "detail" (str (codes f.detail)) (
                      field "timestamp" (str timestamp) (
                        field "writer" (str (codes "verifier"))
                          (field "remediation" (str (codes remediation)) end)))))))))))

  set_reply : World V.ledger → Reply ℕ × V.ledger.State → Option FaultError × World V.ledger
  set_reply w (fail f, s) = (some (client f), record w { db = s })
  set_reply w (ok tx, s) = (none, record w { db = s })

  -- `_set_without_verification`
  unfoldable pub set_without_verification :
      World V.ledger → Bytes → Bytes → Option FaultError × World V.ledger
  unfolding set_reply get_in as_object
  set_without_verification w key value = elim (V.loads value) [
    | none ↦ (some not_a_record, w)
    | some parsed ↦
        let record_type = get_in "record_type" (as_object (some parsed)) in
        if not (is_text record_type (codes fault_record_type))
        then (some (not_a_fault record_type), w)
        else set_reply w (V.ledger.set w.db key value)
  ]

  -- The result of `_write_fault_record`: the key written, or why there is none.
  pub record Recorded : Type 0 where
    pub fault_key : Option Text
    pub error : Option FaultError

  recorded : Text → Option FaultError × World V.ledger → Recorded × World V.ledger
  recorded key (none, w) = (record { fault_key = some key; error = none }, w)
  recorded key (some e, w) = (record { fault_key = none; error = some e }, w)

  unrecorded : FaultError → World V.ledger → Recorded × World V.ledger
  unrecorded e w = (record { fault_key = none; error = some e }, w)

  -- Sign the record and write it under its key.
  write_signed : World V.ledger → Failed → ℕ → Text → Text → Recorded × World V.ledger
  unfolding recorded unrecorded
  write_signed w f tx key timestamp = elim V.writer_keys [
    | none ↦ unrecorded no_writer_key w
    | some (sk, vk) ↦
        let raw = V.dumps (sign_record V.crypto (fault_fields f tx timestamp) sk vk) in
        elim (encode key) [
          | none ↦ unrecorded not_encodable w
          | some k ↦ recorded key (set_without_verification w k raw)
        ]
  ]

  moved_from : Option ℕ → ℕ → Option FaultError
  moved_from none tx = none
  moved_from (some reported) tx = if reported == tx then none else some (moved reported tx)

  write_at : Failed → Option ℕ → Text → Text → Found × World V.ledger → Recorded × World V.ledger
  unfolding write_signed moved_from
  write_at f reported nonce timestamp (absent, w) = unrecorded (not_derivable absent) w
  write_at f reported nonce timestamp (not_found, w) = unrecorded (not_derivable not_found) w
  write_at f reported nonce timestamp (unknown, w) = unrecorded (not_derivable unknown) w
  write_at f reported nonce timestamp (present tx, w) = elim (moved_from reported tx) [
    | some e ↦ unrecorded e w
    | none ↦ elim (fault_key V f.value f.key tx nonce) [
      | none ↦ unrecorded (key_too_long tx) w
      | some key ↦ write_signed w f tx key timestamp
    ]
  ]

  -- `_write_fault_record`, with the transaction that the write reported.
  unfoldable pub write_fault_record :
      World V.ledger → Failed → Option ℕ → Text → Text → Recorded × World V.ledger
  unfolding write_at
  write_fault_record w f reported nonce timestamp =
      write_at f reported nonce timestamp (committed_tx_for_value V w f.key f.value)
