-- ===== src/Verifier/Routes/Ordered.antt =====
-- `POST /write-ordered`: commit under a position, then prove; a commit is reported as a fact.
pub mod Denials
pub mod Facts
use compliance_ail.Common.{
  ℕ, Bool, true, false, not, Option, none, some, or_else, List, [], ◌∷◌, String, ◌==ˢ◌,
  if◌then◌else◌, Text, Bytes, codes, bytes_eq, ℤ, int_eq,
}
use compliance_ail.Verifier.Ledger.{
  Failure, Reply, ok, fail, ZEntry, Score, unreadable, fractional, whole,
}
use compliance_ail.Verifier.Sequence.{
  Config, World, Cause, client, budget_exhausted, Outcome, committed, record_exists, uncertain,
  failed, ordered_commit,
}
use compliance_ail.Verifier.Service.{
  Service, Found, present, absent, not_found, unknown, committed_tx_for_value, refuse_ordered,
}
use compliance_ail.Verifier.Fault.{ErrorClass, Failed, Recorded, write_fault_record}
use compliance_ail.Verifier.Routes.Shapes.{
  Detail, unknown_view, text_of, cause_unreadable, cause_not_found, response_lost, proof_failed,
  not_attempted, Response, Answer, response, bad_request, conflict, crashed, plain_response,
  proof_class,
}

-- `_VIEW_SETS`
unfoldable pub view_set : String → Option Bytes
view_set view =
    if view ==ˢ "decision"
    then some (codes "ail_view:decision:v1")
    else if view ==ˢ "intent"
    then some (codes "ail_view:intent:v1")
    else none

-- The position that an index entry of this record confirms.
confirmed_score : ℤ → Score → Option ℤ
confirmed_score asked unreadable = none
confirmed_score asked fractional = none
confirmed_score asked (whole n) = if not (int_eq n asked) then none else some n

names_key : Bytes → Option Bytes → Bool
names_key key none = false
names_key key (some k) = bytes_eq k key

scan_entries : Bytes → ℤ → List ZEntry → Option ℤ
unfolding confirmed_score names_key
scan_entries key asked [] = none
scan_entries key asked (e ∷ es) =
    let rest = scan_entries key asked es in
    if not (names_key key (or_else e.key e.inner_key)) then rest else confirmed_score asked e.score

is_budget : Cause → Bool
is_budget (budget_exhausted n) = true
is_budget (client f) = false
is_budget (Cause.bad_reserve e) = false
is_budget (Cause.bad_counter b) = false
is_budget (Cause.reserve_mismatch n) = false
is_budget (Cause.position_limit n) = false
is_budget Cause.no_transaction = false

-- What the route says of a write whose proof failed.
ordered_failed : Bytes → Bytes → String → ℤ → ErrorClass → Failed
ordered_failed key value view seq class = record {
  key = key;
  value = value;
  seq = some seq;
  view = some view;
  error_class = class;
  detail = "proof verification failed";
}

module _ (V : Service) where
  scanned :
      World V.ledger → Bytes → ℤ → Reply (List ZEntry) × V.ledger.State → Option ℤ × World V.ledger
  unfolding scan_entries
  scanned w key asked (fail f, s) = (none, record w { db = s })
  scanned w key asked (ok es, s) = (scan_entries key asked es, record w { db = s })

  -- `_committed_position_for`; `float(None)` raises before the scan.
  unfoldable pub committed_position_for :
      World V.ledger → Bytes → Bytes → Option ℤ → Option ℤ × World V.ledger
  unfolding scanned
  committed_position_for w set key none = (none, w)
  committed_position_for w set key (some asked) =
      scanned w key asked (V.ledger.z_scan w.db set asked)

  with_position : Cause → ℕ → ℕ → Option ℤ × World V.ledger → Answer × World V.ledger
  with_position cause tx n (seq, w) = (
    response (record (plain_response (some true) (response_lost cause tx seq)) {
      tx_id = some tx;
      seq = seq;
      attempts = n;
    }),
    w,
  )

  -- The handler of `OrderedCommitUncertain`, on what the read-back found.
  after_read_back :
      Bytes → Bytes → Cause → Option ℤ → ℕ → Found × World V.ledger → Answer × World V.ledger
  unfolding is_budget with_position
  after_read_back key set cause asked n (unknown, w) =
      (response (record (plain_response none (cause_unreadable cause)) { attempts = n }), w)
  after_read_back key set cause asked n (not_found, w) =
      if not (is_budget cause)
      then (response (record (plain_response none (cause_not_found cause)) { attempts = n }), w)
      else (response (record (plain_response (some false) (text_of cause)) { attempts = n }), w)
  after_read_back key set cause asked n (absent, w) =
      (response (record (plain_response (some false) (text_of cause)) { attempts = n }), w)
  after_read_back key set cause asked n (present tx, w) =
      with_position cause tx n (committed_position_for w set key asked)

  with_fault : ℕ → ℤ → ℕ → ErrorClass → Recorded V × World V.ledger → Answer × World V.ledger
  with_fault tx seq n class (r, w) = (
    response (record {
      tx_id = some tx;
      seq = some seq;
      verified = false;
      committed = some true;
      attempts = n;
      error_class = some class;
      fault_record = r.fault_key;
      fault_record_error = r.error;
      detail = some (proof_failed (some tx) (some seq) r.error);
    }),
    w,
  )

  -- The handlers of `client.verifiedGet`.
  after_proof :
      Bytes
      → Bytes
      → String
      → Text
      → Text
      → ℕ
      → ℤ
      → ℕ
      → World V.ledger
      → Reply (Unit {0}) × V.ledger.State
      → Answer × World V.ledger
  unfolding proof_class with_fault ordered_failed
  after_proof key value view nonce timestamp tx seq n w (ok _, s) = (
    response (record {
      tx_id = some tx;
      seq = some seq;
      verified = true;
      committed = some true;
      attempts = n;
      error_class = none;
      fault_record = none;
      fault_record_error = none;
      detail = none;
    }),
    record w { db = s },
  )
  after_proof key value view nonce timestamp tx seq n w (fail f, s) = elim (proof_class f) [
    | none ↦ (
      response (record (plain_response (some true) (not_attempted f none)) {
        tx_id = some tx;
        seq = some seq;
        attempts = n;
      }),
      record w { db = s },
    )
    | some class ↦ with_fault tx seq n class (
        write_fault_record V (record w { db = s }) (ordered_failed key value view seq class)
          (some tx) nonce timestamp)
  ]

  -- The handlers of `_ordered_commit`, then the proof.
  after_commit :
      Bytes
      → Bytes
      → String
      → Bytes
      → Text
      → Text
      → Outcome × World V.ledger
      → Answer × World V.ledger
  unfolding after_read_back after_proof
  after_commit key value view set nonce timestamp (record_exists, w) = (conflict, w)
  after_commit key value view set nonce timestamp (uncertain cause asked n, w) =
      after_read_back key set cause asked n (committed_tx_for_value V w key value)
  after_commit key value view set nonce timestamp (failed cause, w) =
      (response (plain_response (some false) (text_of cause)), w)
  after_commit key value view set nonce timestamp (committed tx seq n, w) =
      after_proof key value view nonce timestamp tx seq n w (V.ledger.verified_get w.db key)

  after_connect :
      Config
      → Bytes
      → Bytes
      → String
      → Bytes
      → Text
      → Text
      → World V.ledger
      → Reply (Unit {0}) × V.ledger.State
      → Answer × World V.ledger
  unfolding after_commit
  after_connect cfg key value view set nonce timestamp w (fail f, s) =
      (response (plain_response (some false) (text_of (client f))), record w { db = s })
  after_connect cfg key value view set nonce timestamp w (ok _, s) =
      after_commit key value view set nonce timestamp
        (ordered_commit V.ledger cfg key value set (record w { db = s }))

  -- The body of the route, on the decoded key and value.
  unfoldable pub write_ordered_bytes :
      Config
      → Bytes
      → Bytes
      → String
      → Bytes
      → Text
      → Text
      → World V.ledger
      → Answer × World V.ledger
  unfolding after_connect
  write_ordered_bytes cfg key value view set nonce timestamp w = elim (refuse_ordered V key value) [
    | some refusal ↦ (bad_request refusal, w)
    | none ↦ after_connect cfg key value view set nonce timestamp w (V.ledger.connect w.db)
  ]

  -- `write_ordered`
  unfoldable pub write_ordered :
      Config → Text → Text → String → Text → Text → World V.ledger → Answer × World V.ledger
  unfolding write_ordered_bytes view_set
  write_ordered cfg key64 value64 view nonce timestamp w = elim (view_set view) [
    | none ↦ (response (plain_response (some false) (unknown_view view)), w)
    | some set ↦ elim (V.crypto.b64decode key64) [
      | none ↦ (crashed, w)
      | some key ↦ elim (V.crypto.b64decode value64) [
        | none ↦ (crashed, w)
        | some value ↦ write_ordered_bytes cfg key value view set nonce timestamp w
      ]
    ]
  ]
