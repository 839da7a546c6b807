-- ===== src/Verifier/Routes/Shapes.antt =====
-- The responses of the two write routes.
use compliance_ail.Common.{ℕ, Bool, false, Option, none, some, String, Text, ℤ}
use compliance_ail.Verifier.Ledger.{Failure, corrupted_data, bad_signature, rpc_error, other_error}
use compliance_ail.Verifier.Sequence.{Cause}
use compliance_ail.Verifier.Service.{Refusal}
use compliance_ail.Verifier.Fault.{ErrorClass, consistency_failure, signature_failure, FaultError}

pub data Detail : Type 0 where
  unknown_view : String → Detail
  -- The exception's own text.
  text_of : Cause → Detail
  cause_unreadable cause_not_found : Cause → Detail
  response_lost : Cause → ℕ → Option ℤ → Detail
  proof_failed : Option ℕ → Option ℤ → Option FaultError → Detail
  proof_failed_unreadable proof_failed_not_found : Detail
  not_attempted : Failure → Option ℕ → Detail

-- `OrderedWriteResponse`; `WriteResponse` is one with no position and no attempts.
pub record Response : Type 0 where
  pub tx_id : Option ℕ
  pub seq : Option ℤ
  pub verified : Bool
  -- `none` where the code says that it does not know.
  pub committed : Option Bool
  pub attempts : ℕ
  pub error_class : Option ErrorClass
  pub fault_record : Option Text
  pub fault_record_error : Option FaultError
  pub detail : Option Detail

-- What the route answers: a response, an HTTP error, or an exception that nothing catches.
pub data Answer : Type 0 where
  response : Response → Answer
  bad_request : Refusal → Answer
  conflict : Answer
  crashed : Answer

-- A response with none of the optional parts.
abbrev pub plain_response : Option Bool → Detail → Response
plain_response c d = record {
  tx_id = none;
  seq = none;
  verified = false;
  committed = c;
  attempts = 0;
  error_class = none;
  fault_record = none;
  fault_record_error = none;
  detail = some d;
}

-- The class of a failed proof; any other exception has none.
unfoldable pub proof_class : Failure → Option ErrorClass
proof_class f = elim f.kind [
  | corrupted_data ↦ some consistency_failure
  | bad_signature ↦ some signature_failure
  | rpc_error ↦ none
  | other_error ↦ none
]
