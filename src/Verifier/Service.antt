-- ===== src/Verifier/Service.antt =====
-- What verifier/main.py takes from elsewhere, and the read-backs and refusals that its two write
-- routes share.
pub mod ReadBack
use compliance_ail.Common.{
  ℕ, Bool, true, false, not, ◌||◌, Option, none, some, String, ◌==ˢ◌, if◌then◌else◌, Text, Bytes,
  codes, bytes_eq, starts_with, is_some,
}
use compliance_ail.Common.Json.{Json, str, obj, Fields, get, is_text}
use compliance_ail.Provenance.{Crypto}
use compliance_ail.Verifier.Ledger.{Failure, Reply, ok, fail, Entry, Immudb}
use compliance_ail.Verifier.Sequence.{World}

pub record Service : Type 1 where
  pub crypto : Crypto
  pub ledger : Immudb
  -- `json.loads(value.decode())`
  pub loads : Bytes → Option Json
  -- `json.dumps(record, separators=(",", ":")).encode()`
  pub dumps : Fields → Bytes
  -- `key.decode("utf-8", "replace")`
  pub decode_replace : Bytes → Text
  -- `str(value)` and `bool(value)` of a value that is not a string, a list or a dict.
  pub str_of : Json → Text
  pub is_nonzero : Text → Bool
  -- `get_writer_keys()`; `none` is its `RuntimeError`.
  pub writer_keys : Option (crypto.SigningKey × crypto.VerifyingKey)

abbrev pub fault_record_type : String
fault_record_type = "ledger_fault"

abbrev pub fault_key_prefix : String
fault_key_prefix = "ledger_fault:"

-- What a read-back of a key established: PRESENT, ABSENT, NOT_FOUND or UNKNOWN.
pub data Found : Type 0 where
  present : ℕ → Found
  absent not_found unknown : Found

module _ (V : Service) where
  read_for_value :
      Bytes → World V.ledger → Reply (Option Entry) × V.ledger.State → Found × World V.ledger
  read_for_value value w (fail f, s) = (unknown, record w { db = s })
  read_for_value value w (ok none, s) = (not_found, record w { db = s })
  read_for_value value w (ok (some e), s) =
      (if not (bytes_eq e.value value) then absent else present e.tx, record w { db = s })

  -- `_committed_tx_for_value`
  unfoldable pub committed_tx_for_value : World V.ledger → Bytes → Bytes → Found × World V.ledger
  unfolding read_for_value
  committed_tx_for_value w key value = read_for_value value w (V.ledger.get w.db key)

  read_for_key : World V.ledger → Reply (Option Entry) × V.ledger.State → Found × World V.ledger
  read_for_key w (fail f, s) = (unknown, record w { db = s })
  read_for_key w (ok none, s) = (not_found, record w { db = s })
  read_for_key w (ok (some e), s) = (present e.tx, record w { db = s })

  -- `_committed_tx_for`
  unfoldable pub committed_tx_for : World V.ledger → Bytes → Found × World V.ledger
  unfolding read_for_key
  committed_tx_for w key = read_for_key w (V.ledger.get w.db key)

-- Why a route does not take a caller's record.
pub data Refusal : Type 0 where
  key_prefix : String → Refusal
  fault_type : Refusal
  type_not_text : Json → Refusal
  ordered_type : Text → Refusal

-- `json.loads(value.decode())` as a dict; `none` where that raises or it is no dict.
unfoldable pub as_object : Option Json → Option Fields
as_object (some (obj d)) = some d
as_object (some Json.null) = none
as_object (some (Json.bool b)) = none
as_object (some (Json.num n)) = none
as_object (some (Json.real r)) = none
as_object (some (str s)) = none
as_object (some (Json.arr xs)) = none
as_object none = none

module _ (V : Service) where
  -- `_refuse_reason_for_ordered_write`
  unfoldable pub refuse_ordered : Bytes → Bytes → Option Refusal
  unfolding as_object
  refuse_ordered key value =
      if starts_with key (codes fault_key_prefix)
      then some (key_prefix fault_key_prefix)
      else elim (as_object (V.loads value)) [
        | none ↦ none
        | some d ↦
            if is_text (get "record_type" d) (codes fault_record_type)
            then some fault_type
            else none
      ]

-- The tests on `record_type`, which must be a string if it is there and not null.
unfoldable pub refuse_type : Option Json → Option Refusal
refuse_type none = none
refuse_type (some Json.null) = none
refuse_type (some (str s)) =
    if bytes_eq s (codes fault_record_type)
    then some fault_type
    else if bytes_eq s (codes "decision") || bytes_eq s (codes "decision_intent")
    then some (ordered_type s)
    else none
refuse_type (some (Json.bool b)) = some (type_not_text (Json.bool b))
refuse_type (some (Json.num n)) = some (type_not_text (Json.num n))
refuse_type (some (Json.real r)) = some (type_not_text (Json.real r))
refuse_type (some (Json.arr xs)) = some (type_not_text (Json.arr xs))
refuse_type (some (obj d)) = some (type_not_text (obj d))

module _ (V : Service) where
  -- `_refuse_reason_for_plain_write`
  unfoldable pub refuse_plain : Bytes → Bytes → Option Refusal
  unfolding refuse_type as_object
  refuse_plain key value =
      if starts_with key (codes "tool_call:")
      then some (key_prefix "tool_call:")
      else if starts_with key (codes "tool_call_intent:")
      then some (key_prefix "tool_call_intent:")
      else if starts_with key (codes fault_key_prefix)
      then some (key_prefix fault_key_prefix)
      else elim (as_object (V.loads value)) [
        | none ↦ none
        | some d ↦ refuse_type (get "record_type" d)
      ]
