-- ===== src/ControlPlane/Content.antt =====
-- The content of calls in control_plane/main.py: POST /content, DELETE /content/{call_id}, and the
-- tombstone between them, with `_has_tombstone`, `_write_tombstone` and `_tombstone_present_in_ledger`.
-- The verifier's routes, the ledger's REST reads and the session's commit are the parameter `Outside`.
pub mod Erased
pub mod Tombstone
pub mod Deleted
use compliance_ail.Common.{
  ℕ, Bool, true, false, not, ◌&&◌, Option, none, some, is_some, List, [], ◌∷◌, ◌++◌, Text, Bytes,
  codes, encode, bytes_eq, ℤ, pos, int_eq, if◌then◌else◌,
}
use compliance_ail.Common.Json.{
  Json, null, bool, num, real, str, arr, obj, nil, item, Fields, end, field, get, is_text,
}
use compliance_ail.Provenance.{Crypto, sign_record}
use compliance_ail.ControlPlane.Faults.{as_text}

-- A response's JSON, unless the request or `raise_for_status` raised.
pub data Reply : Type 0 where
  lost : Reply
  body : Json → Reply

-- The entries of /db/getall: no answer, an answer without a list of entries, or the entries.
pub data Entries : Type 0 where
  unreachable broken : Entries
  entries : List Fields → Entries

pub record Outside (C : Crypto) : Type 1 where
  pub Net : Type 0
  -- `get_writer_keys()`, which may raise
  pub writer_keys : Option (C.SigningKey × C.VerifyingKey)
  -- `datetime.utcnow().isoformat()`
  pub utcnow : Net → Text × Net
  -- `json.dumps(...).encode()` and `json.loads(raw.decode())`
  pub dumps : Fields → Bytes
  pub loads : Bytes → Option Json
  -- `int(...)`, which may raise
  pub int_of : Json → Option ℤ
  -- The truth of a float, by its text.
  pub is_nonzero : Text → Bool
  -- POST /verify of a key, and POST /write of a key and a value
  pub verify : Net → Text → Reply × Net
  pub write : Net → Text → Text → Reply × Net
  pub get_all : Net → Text → Entries × Net
  -- `db.commit()`
  pub commit : Net → Bool × Net

-- The table of contents, by call id.
abbrev pub Contents : Type 0
Contents = List (Text × Text)

unfoldable pub find_content : Text → Contents → Option Text
find_content id [] = none
find_content id ((k, p) ∷ rest) = if bytes_eq k id then some p else find_content id rest

-- `existing.payload_json = ...`, or `db.add(...)` where there is no row.
unfoldable pub put_content : Text → Text → Contents → Contents
put_content id payload [] = (id, payload) ∷ []
put_content id payload ((k, p) ∷ rest) =
    let later = put_content id payload rest in
    if bytes_eq k id then (k, payload) ∷ rest else (k, p) ∷ later

-- `db.delete(existing)`; the call id is the key of the table, so no other row has it.
unfoldable pub drop_content : Text → Contents → Contents
drop_content id [] = []
drop_content id ((k, p) ∷ rest) =
    let later = drop_content id rest in if bytes_eq k id then later else (k, p) ∷ later

pub data Status : Type 0 where
  no_content conflict erasure_refused crashed : Status

-- What `_write_tombstone` returns; it reports every outcome that it returns as committed.
pub record Outcome : Type 0 where
  pub verified : Bool
  pub tx_id : Option Json
  pub fault_record : Option Json
  pub error_class : Option Json

abbrev pub erasure_type : Text
erasure_type = codes "content_erasure"

-- `RECORD_PROFILE`
abbrev pub record_profile : Text
record_profile = codes "observed"

-- `f"content_erasure:{call_id}"`
unfoldable pub erasure_key : Text → Text
erasure_key id = codes "content_erasure:" ++ id

unfoldable pub tombstone : Text → Text → Fields
tombstone id now = field "record_type" (str erasure_type) (
    field "call_id" (str id) (
      field "timestamp" (str now) (
        field "actor" (str (codes "control-plane-write-key"))
          (field "profile" (str record_profile) end))))

-- `value is None` of what a dictionary's `get` returned.
unfoldable pub is_none : Option Json → Bool
is_none none = true
is_none (some null) = true
is_none (some (bool b)) = false
is_none (some (num n)) = false
is_none (some (real r)) = false
is_none (some (str s)) = false
is_none (some (arr xs)) = false
is_none (some (obj d)) = false

abbrev pub unestablished : Fields → Outcome
unestablished d = record {
  verified = false;
  tx_id = get "tx_id" d;
  fault_record = get "fault_record" d;
  error_class = some (str (codes "commit_not_established"));
}

abbrev pub unverified_outcome : Fields → Outcome
unverified_outcome d = record {
  verified = false;
  tx_id = get "tx_id" d;
  fault_record = get "fault_record" d;
  error_class = get "error_class" d;
}

-- What an entry says of the erasure: nothing, that it took place, or an exception.
pub data Seen : Type 0 where
  other confirmed fails : Seen

module _ {C : Crypto} (O : Outside C) where
  -- The truth of what a dictionary's `get` returned.
  unfoldable pub is_true : Option Json → Bool
  is_true none = false
  is_true (some null) = false
  is_true (some (bool b)) = b
  is_true (some (num n)) = not (int_eq n (pos 0))
  is_true (some (real r)) = O.is_nonzero r
  is_true (some (str s)) = not (bytes_eq s [])
  is_true (some (arr nil)) = false
  is_true (some (arr (item x xs))) = true
  is_true (some (obj end)) = false
  is_true (some (obj (field k v d))) = true

  -- What the answer of /verify says; `none` where it is not a dictionary.
  unfoldable pub erased_by : Reply → Option Bool
  unfolding is_true
  erased_by lost = some true
  erased_by (body null) = none
  erased_by (body (bool b)) = none
  erased_by (body (num n)) = none
  erased_by (body (real r)) = none
  erased_by (body (str s)) = none
  erased_by (body (arr xs)) = none
  erased_by (body (obj d)) = some (
      if is_true (get "verified" d)
      then true
      else not (is_text (get "error_class" d) (codes "not_found")))

  has_tombstone_key : Option Bytes → O.Net → Option Bool × O.Net
  unfolding erased_by
  has_tombstone_key none net = (none, net)
  has_tombstone_key (some key) net =
      let answer = O.verify net (C.b64encode key) in (erased_by answer.0, answer.1)

  -- `_has_tombstone`; `none` where it raises.
  unfoldable pub has_tombstone : Text → O.Net → Option Bool × O.Net
  unfolding has_tombstone_key erasure_key
  has_tombstone id net = has_tombstone_key (encode (erasure_key id)) net

  pub committed : Status → Contents → Contents → Bool × O.Net → Status × Contents × O.Net
  committed status before after (false, net) = (crashed, before, net)
  committed status before after (true, net) = (status, after, net)

  checked_write : Text → Text → Contents → Option Bool × O.Net → Status × Contents × O.Net
  unfolding committed put_content
  checked_write id payload rows (none, net) = (crashed, rows, net)
  checked_write id payload rows (some true, net) = (conflict, rows, net)
  checked_write id payload rows (some false, net) =
      committed no_content rows (put_content id payload rows) (O.commit net)

  -- `write_content`
  unfoldable pub write_content : Text → Text → Contents → O.Net → Status × Contents × O.Net
  unfolding checked_write
  write_content id payload rows net = checked_write id payload rows (has_tombstone id net)

  loaded : Option Bytes → Option Json
  loaded none = none
  loaded (some b) = O.loads b

  decoded : Option Text → Option Bytes
  decoded none = none
  decoded (some t) = C.b64decode t

  -- `json.loads(base64.b64decode(raw["value"]).decode())`, `none` where it raises.
  unfoldable pub entry_value : Fields → Option Json
  unfolding loaded decoded as_text
  entry_value raw = loaded (decoded (as_text (get "value" raw)))

  -- `int(raw.get("tx", 0))`
  unfoldable pub entry_tx : Option Json → Option ℤ
  entry_tx none = some (pos 0)
  entry_tx (some j) = O.int_of j

  unfoldable pub expected_int : Option Json → Option ℤ
  expected_int none = none
  expected_int (some j) = O.int_of j

  at_transaction : Option ℤ → Option ℤ → Seen
  at_transaction none expected = fails
  at_transaction (some tx) none = fails
  at_transaction (some tx) (some expected) = if int_eq tx expected then confirmed else other

  -- One pass of the loop over the entries.
  unfoldable pub seen : Text → Option Json → Bool → Fields → Option Json → Seen
  unfolding at_transaction entry_tx expected_int
  seen id expected require raw none = other
  seen id expected require raw (some null) = fails
  seen id expected require raw (some (bool b)) = fails
  seen id expected require raw (some (num n)) = fails
  seen id expected require raw (some (real r)) = fails
  seen id expected require raw (some (str s)) = fails
  seen id expected require raw (some (arr xs)) = fails
  seen id expected require raw (some (obj v)) =
      if not (is_text (get "record_type" v) erasure_type && is_text (get "call_id" v) id)
      then other
      else if not require
      then confirmed
      else at_transaction (entry_tx (get "tx" raw)) (expected_int expected)

  -- The loop over the entries; `none` where it raises.
  unfoldable pub confirm_entries : Text → Option Json → Bool → List Fields → Option Bool
  unfolding seen entry_value
  confirm_entries id expected require [] = some false
  confirm_entries id expected require (raw ∷ rest) =
      elim (seen id expected require raw (entry_value raw)) [
        | other ↦ confirm_entries id expected require rest
        | confirmed ↦ some true
        | fails ↦ none
      ]

  unfoldable pub confirmed_by : Text → Option Json → Bool → Entries → Option Bool
  unfolding confirm_entries
  confirmed_by id expected require unreachable = some false
  confirmed_by id expected require broken = none
  confirmed_by id expected require (entries rows) = confirm_entries id expected require rows

  -- `_tombstone_present_in_ledger`, with the key that was encoded before.
  unfoldable pub present_in_ledger : Text → Bytes → Option Json → Bool → O.Net → Option Bool × O.Net
  unfolding confirmed_by
  present_in_ledger id key expected require net =
      let answer = O.get_all net (C.b64encode key) in
      if require && not (is_true expected)
      then (some false, net)
      else (confirmed_by id expected require answer.0, answer.1)

  -- The outcome that a confirmed tombstone has; `none` where `_write_tombstone` raises.
  confirmed_outcome : Outcome → Option Bool × O.Net → Option Outcome × O.Net
  confirmed_outcome o (none, net) = (none, net)
  confirmed_outcome o (some false, net) = (none, net)
  confirmed_outcome o (some true, net) = (some o, net)

  unfoldable pub after_result : Text → Bytes → Fields → O.Net → Option Outcome × O.Net
  unfolding confirmed_outcome present_in_ledger is_none
  after_result id key d net =
      let tx = get "tx_id" d in
      if is_true (get "verified" d)
      then (
        some (record { verified = true; tx_id = tx; fault_record = none; error_class = none }),
        net,
      )
      else if is_none (get "committed" d)
      then confirmed_outcome (unestablished d) (present_in_ledger id key tx false net)
      else if not (is_true (get "committed" d))
      then (none, net)
      else confirmed_outcome (unverified_outcome d) (present_in_ledger id key tx true net)

  after_write : Text → Bytes → Reply × O.Net → Option Outcome × O.Net
  unfolding after_result
  after_write id key (lost, net) = (none, net)
  after_write id key (body null, net) = (none, net)
  after_write id key (body (bool b), net) = (none, net)
  after_write id key (body (num n), net) = (none, net)
  after_write id key (body (real r), net) = (none, net)
  after_write id key (body (str s), net) = (none, net)
  after_write id key (body (arr xs), net) = (none, net)
  after_write id key (body (obj d), net) = after_result id key d net

  -- The value that is posted.
  unfoldable pub tombstone_value : Text → C.SigningKey → C.VerifyingKey → Text → Text
  unfolding tombstone
  tombstone_value id sk vk now = C.b64encode (O.dumps (sign_record C (tombstone id now) sk vk))

  post_tombstone :
      Text
      → Option (C.SigningKey × C.VerifyingKey)
      → Option Bytes
      → Text × O.Net
      → Option Outcome × O.Net
  unfolding after_write tombstone_value
  post_tombstone id none key (now, net) = (none, net)
  post_tombstone id (some keys) none (now, net) = (none, net)
  post_tombstone id (some (sk, vk)) (some key) (now, net) =
      after_write id key (O.write net (C.b64encode key) (tombstone_value id sk vk now))

  -- `_write_tombstone`; `none` where it raises.
  unfoldable pub write_tombstone : Text → O.Net → Option Outcome × O.Net
  unfolding post_tombstone erasure_key
  write_tombstone id net = post_tombstone id O.writer_keys (encode (erasure_key id)) (O.utcnow net)

  after_tombstone : Text → Contents → Option Outcome × O.Net → Status × Contents × O.Net
  unfolding committed drop_content
  after_tombstone id rows (none, net) = (erasure_refused, rows, net)
  after_tombstone id rows (some o, net) =
      committed no_content rows (drop_content id rows) (O.commit net)

  erase_existing : Text → Option Text → Contents → O.Net → Status × Contents × O.Net
  unfolding after_tombstone
  erase_existing id none rows net = (no_content, rows, net)
  erase_existing id (some payload) rows net = after_tombstone id rows (write_tombstone id net)

  -- `erase_content`
  unfoldable pub erase_content : Text → Contents → O.Net → Status × Contents × O.Net
  unfolding erase_existing
  erase_content id rows net = erase_existing id (find_content id rows) rows net
