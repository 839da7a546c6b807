-- ===== src/Verifier/Routes/Plain.antt =====
-- `POST /write`: the SDK's verified write, and what is known of the ledger when it raises.
use compliance_ail.Common.{ℕ, true, false, Option, none, some, Text, Bytes}
use compliance_ail.Verifier.Ledger.{Failure, Reply, ok, fail}
use compliance_ail.Verifier.Sequence.{World, client}
use compliance_ail.Verifier.Service.{
  Service, Found, present, absent, not_found, unknown, committed_tx_for, committed_tx_for_value,
  refuse_plain,
}
use compliance_ail.Verifier.Fault.{ErrorClass, Failed, Recorded, write_fault_record}
use compliance_ail.Verifier.Routes.Shapes.{
  text_of, cause_unreadable, cause_not_found, proof_failed, proof_failed_unreadable,
  proof_failed_not_found, not_attempted, Answer, response, bad_request, crashed, plain_response,
  proof_class,
}

plain_failed : Bytes → Bytes → ErrorClass → Failed
plain_failed key value class = record {
  key = key;
  value = value;
  seq = none;
  view = none;
  error_class = class;
  detail = "proof verification failed";
}

module _ (V : Service) where
  plain_fault : Option ℕ → ErrorClass → Recorded V × World V.ledger → Answer × World V.ledger
  plain_fault tx class (r, w) = (
    response (record (plain_response (some true) (proof_failed tx none r.error)) {
      tx_id = tx;
      error_class = some class;
      fault_record = r.fault_key;
      fault_record_error = r.error;
    }),
    w,
  )

  -- The proof failed, so the commit precedes it; the read names its transaction.
  after_proof_failure :
      Bytes → Bytes → Text → Text → ErrorClass → Found × World V.ledger → Answer × World V.ledger
  unfolding plain_fault plain_failed
  after_proof_failure key value nonce timestamp class (unknown, w) = (
    response (record (plain_response none proof_failed_unreadable) { error_class = some class }),
    w,
  )
  after_proof_failure key value nonce timestamp class (not_found, w) = (
    response (record (plain_response none proof_failed_not_found) { error_class = some class }),
    w,
  )
  after_proof_failure key value nonce timestamp class (absent, w) =
      plain_fault none class
        (write_fault_record V w (plain_failed key value class) none nonce timestamp)
  after_proof_failure key value nonce timestamp class (present tx, w) =
      plain_fault (some tx) class
        (write_fault_record V w (plain_failed key value class) (some tx) nonce timestamp)

  -- Any other exception: the value that was sent decides.
  after_other_failure : Failure → Found × World V.ledger → Answer × World V.ledger
  after_other_failure f (unknown, w) =
      (response (plain_response none (cause_unreadable (client f))), w)
  after_other_failure f (not_found, w) =
      (response (plain_response none (cause_not_found (client f))), w)
  after_other_failure f (absent, w) =
      (response (plain_response (some false) (text_of (client f))), w)
  after_other_failure f (present tx, w) = (
    response (record (plain_response (some true) (not_attempted f (some tx))) { tx_id = some tx }),
    w,
  )

  after_set :
      Bytes
      → Bytes
      → Text
      → Text
      → World V.ledger
      → Reply ℕ × V.ledger.State
      → Answer × World V.ledger
  unfolding proof_class after_proof_failure after_other_failure
  after_set key value nonce timestamp w (fail f, s) =
      let w' = record w { db = s } in
      elim (proof_class f) [
        | some class ↦
            after_proof_failure key value nonce timestamp class (committed_tx_for V w' key)
        | none ↦ after_other_failure f (committed_tx_for_value V w' key value)
      ]
  -- The state read that follows is only logged.
  after_set key value nonce timestamp w (ok tx, s) = (
    response (record {
      tx_id = some tx;
      seq = none;
      verified = true;
      committed = some true;
      attempts = 0;
      error_class = none;
      fault_record = none;
      fault_record_error = none;
      detail = none;
    }),
    record w { db = s },
  )

  after_login :
      Bytes
      → Bytes
      → Text
      → Text
      → World V.ledger
      → Reply (Unit {0}) × V.ledger.State
      → Answer × World V.ledger
  unfolding after_set
  after_login key value nonce timestamp w (fail f, s) =
      (response (plain_response (some false) (text_of (client f))), record w { db = s })
  after_login key value nonce timestamp w (ok _, s) =
      after_set key value nonce timestamp (record w { db = s }) (V.ledger.verified_set s key value)

  -- The body of the route, on the decoded key and value.
  unfoldable pub write_bytes :
      Bytes → Bytes → Text → Text → World V.ledger → Answer × World V.ledger
  unfolding after_login
  write_bytes key value nonce timestamp w = elim (refuse_plain V key value) [
    | some refusal ↦ (bad_request refusal, w)
    | none ↦ after_login key value nonce timestamp w (V.ledger.connect w.db)
  ]

  -- `write`
  unfoldable pub write : Text → Text → Text → Text → World V.ledger → Answer × World V.ledger
  unfolding write_bytes
  write key64 value64 nonce timestamp w = elim (V.crypto.b64decode key64) [
    | none ↦ (crashed, w)
    | some key ↦ elim (V.crypto.b64decode value64) [
      | none ↦ (crashed, w)
      | some value ↦ write_bytes key value nonce timestamp w
    ]
  ]
