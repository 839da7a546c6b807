-- ===== src/ControlPlane/Faults.antt =====
-- The fault records that an audit page renders: `_fault_key_transaction`, `_rendered_fault`,
-- `_merge_fault`, `_page_faults` and `_fault_for_row` of control_plane/main.py. The JSON parser and
-- the decoder with errors="replace" are the parameter `Reader`.
pub mod Keys
pub mod Authority
pub mod Counts
use compliance_ail.Common.{
  ℕ, ◌+◌, ◌-◌, ◌*◌, Bool, true, false, not, ◌&&◌, ◌==◌, leb, ltb, Option, none, some, List, [], ◌∷◌,
  String, Text, Bytes, codes, starts_with, take, drop, length, bytes_eq, ℤ, pos, int_eq,
  if◌then◌else◌,
}
use compliance_ail.Common.Json.{Json, null, bool, num, real, str, arr, obj, Fields, get, is_text}
use compliance_ail.Provenance.{Crypto, verify_record}

pub record Reader (C : Crypto) : Type 0 where
  -- `json.loads(raw.decode())`
  pub loads : Bytes → Option Json
  -- `raw.decode("utf-8", "replace")`
  pub decode_replace : Bytes → Text
  -- `_fault_writer_key()`
  pub writer_key : Option C.VerifyingKey
  -- `int(raw.get("tx", 0))`, which is not negative; `none` where it raises.
  pub tx_of : Option Json → Option ℕ

abbrev pub fault_prefix : Text
fault_prefix = codes "ledger_fault:"

abbrev pub tx_pad : ℕ
tx_pad = 20

-- `text.isdigit()` and `int(text)` of a text of digits.
unfoldable pub all_digits : Text → Bool
all_digits [] = true
all_digits (c ∷ s) = leb 48 c && leb c 57 && all_digits s

unfoldable pub decimal : ℕ → Text → ℕ
decimal n [] = n
decimal n (c ∷ s) = decimal (n * 10 + (c - 48)) s

-- The transaction in the key, once it is decoded.
unfoldable pub key_transaction : Text → Option ℕ
unfolding all_digits decimal
key_transaction key =
    let digits = take tx_pad (drop (length fault_prefix) key) in
    let remainder = drop (length fault_prefix + tx_pad) key in
    if not (starts_with key fault_prefix)
    then none
    else if not (length digits == tx_pad && all_digits digits)
    then none
    else if not (starts_with remainder (b':' ∷ []))
    then none
    else some (decimal 0 digits)

-- A string among JSON values.
unfoldable pub as_text : Option Json → Option Text
as_text none = none
as_text (some null) = none
as_text (some (bool b)) = none
as_text (some (num n)) = none
as_text (some (real r)) = none
as_text (some (str s)) = some s
as_text (some (arr xs)) = none
as_text (some (obj d)) = none

-- `isinstance(value, int)`, which takes a bool for 1 or 0.
unfoldable pub as_int : Option Json → Option ℤ
as_int none = none
as_int (some null) = none
as_int (some (bool b)) = some (if b then pos 1 else pos 0)
as_int (some (num n)) = some n
as_int (some (real r)) = none
as_int (some (str s)) = none
as_int (some (arr xs)) = none
as_int (some (obj d)) = none

unfoldable pub as_fields : Option Json → Option Fields
as_fields none = none
as_fields (some null) = none
as_fields (some (bool b)) = none
as_fields (some (num n)) = none
as_fields (some (real r)) = none
as_fields (some (str s)) = none
as_fields (some (arr xs)) = none
as_fields (some (obj d)) = some d

-- What a page shows of a fault, by the record's key.
pub record Rendered : Type 0 where
  pub fault_class : Option Json
  pub error_class : Option Json
  pub committed_tx_id : Option Json
  pub committed_position : Option Json
  pub timestamp : Option Json
  pub ledger_key : Option Json

module _ {C : Crypto} (R : Reader C) where
  -- `base64.b64decode(...)` of what should be a text, and the bytes under it.
  unfoldable pub decoded : Option Text → Option Bytes
  decoded none = none
  decoded (some t) = C.b64decode t

  key_text : Option Bytes → Option ℕ
  unfolding key_transaction
  key_text none = none
  key_text (some b) = key_transaction (R.decode_replace b)

  -- `_fault_key_transaction`; the default of a missing key is the empty text.
  unfoldable pub fault_key_transaction : Option Text → Option ℕ
  unfolding key_text decoded
  fault_key_transaction key = key_text (decoded key)

  -- `raw.get("key", "")`
  unfoldable pub key_of : Option Json → Option Text
  unfolding as_text
  key_of none = some []
  key_of (some j) = as_text (some j)

  unfoldable pub value_of : Option Bytes → Option Fields
  unfolding as_fields
  value_of none = none
  value_of (some b) = as_fields (R.loads b)

  rendered_of : Fields → Fields → Rendered
  rendered_of raw value = record {
    fault_class = get "fault_class" value;
    error_class = get "error_class" value;
    committed_tx_id = get "committed_tx_id" value;
    committed_position = get "committed_position" value;
    timestamp = get "timestamp" value;
    ledger_key = get "key" raw;
  }

  is_signed_by : Option C.VerifyingKey → Fields → Bool
  is_signed_by none value = false
  is_signed_by (some vk) value = verify_record C value vk

  signed_fault : Fields → Fields → Text → Option (Text × Rendered)
  unfolding rendered_of is_signed_by
  signed_fault raw value committed_key =
      if is_signed_by R.writer_key value then some (committed_key, rendered_of raw value) else none

  -- The transactions of the key and of the body.
  same_transaction : Option ℕ → Option ℤ → Bool
  same_transaction none body = false
  same_transaction (some key_tx) none = false
  same_transaction (some key_tx) (some body_tx) = int_eq (pos key_tx) body_tx

  placed_fault : Fields → Fields → Text → Option (Text × Rendered)
  unfolding same_transaction signed_fault
  placed_fault raw value committed_key =
      if same_transaction (fault_key_transaction (key_of (get "key" raw)))
        (as_int (get "committed_tx_id" value))
      then signed_fault raw value committed_key
      else none

  named_fault : Fields → Fields → Option Text → Option (Text × Rendered)
  unfolding placed_fault
  named_fault raw value none = none
  named_fault raw value (some committed_key) =
      if bytes_eq committed_key [] then none else placed_fault raw value committed_key

  typed_fault : Fields → Option Fields → Option (Text × Rendered)
  unfolding named_fault as_text
  typed_fault raw none = none
  typed_fault raw (some value) =
      if is_text (get "record_type" value) (codes "ledger_fault")
      then named_fault raw value (as_text (get "committed_key" value))
      else none

  -- `_rendered_fault`
  unfoldable pub rendered_fault : Fields → Option (Text × Rendered)
  unfolding typed_fault decoded value_of as_text
  rendered_fault raw = typed_fault raw (value_of (decoded (as_text (get "value" raw))))

-- An entry of the page's dictionary.
pub record Merged : Type 0 where
  pub rendered : Rendered
  pub count : ℕ
  pub tx : ℕ

abbrev pub PageFaults : Type 0
PageFaults = List (Text × Merged)

unfoldable pub find_fault : Text → PageFaults → Option Merged
find_fault key [] = none
find_fault key ((k, m) ∷ rest) = if bytes_eq k key then some m else find_fault key rest

-- The entry that a fault leaves where there is none, and where there is one.
unfoldable pub merged : Option Merged → Rendered → ℕ → ℕ → Merged
merged none r entry_tx count = record { rendered = r; count = count; tx = entry_tx }
merged (some m) r entry_tx count =
    if ltb m.tx entry_tx
    then record { rendered = r; count = m.count + count; tx = entry_tx }
    else record { rendered = m.rendered; count = m.count + count; tx = m.tx }

-- `_merge_fault`
unfoldable pub merge_fault : Text → Rendered → ℕ → ℕ → PageFaults → PageFaults
unfolding merged
merge_fault key r entry_tx count [] = (key, merged none r entry_tx count) ∷ []
merge_fault key r entry_tx count ((k, m) ∷ rest) =
    let later = merge_fault key r entry_tx count rest in
    if bytes_eq k key then (k, merged (some m) r entry_tx count) ∷ rest else (k, m) ∷ later

module _ {C : Crypto} (R : Reader C) where
  merged_row : PageFaults → Text × Rendered → Option ℕ → Option PageFaults
  unfolding merge_fault
  merged_row faults (key, r) none = none
  merged_row faults (key, r) (some tx) = some (merge_fault key r tx 1 faults)

  page_step : PageFaults → Fields → Option (Text × Rendered) → Option PageFaults
  unfolding merged_row
  page_step faults raw none = some faults
  page_step faults raw (some placed) = merged_row faults placed (R.tx_of (get "tx" raw))

  -- The loop of `_page_faults` over the rows of its window; `none` where it raises.
  unfoldable pub page_faults : PageFaults → List Fields → Option PageFaults
  unfolding page_step
  page_faults faults [] = some faults
  page_faults faults (raw ∷ rest) = elim (page_step faults raw (rendered_fault R raw)) [
    | none ↦ none
    | some next ↦ page_faults next rest
  ]

  for_key : PageFaults → Option Bytes → Option Merged
  for_key faults none = none
  for_key faults (some b) = find_fault (R.decode_replace b) faults

  -- `_fault_for_row`
  unfoldable pub fault_for_row : PageFaults → Text → Option Merged
  unfolding for_key
  fault_for_row faults encoded_key = for_key faults (C.b64decode encoded_key)
