-- ===== src/Client.antt =====
-- ledger/immudb_ledger.py: the gateway's client of the verifier. The HTTP exchange, the JSON printer
-- and the environment's keys are the parameter `Wire`; a nonce and a timestamp are arguments.
pub mod Keys
pub mod Writes
use compliance_ail.Common.{
  ℕ, Bool, true, false, not, Option, none, some, List, [], ◌∷◌, ◌++◌, String, Text, Bytes, codes,
  bytes_eq, if◌then◌else◌, encode, ℤ, pos, int_eq,
}
use compliance_ail.Common.Json.{
  Json, null, bool, num, real, str, arr, obj, Items, nil, item, Fields, end, field, get, put,
}
use compliance_ail.Provenance.{Crypto, sign_record}
use compliance_ail.Decision.Registry.{
  Profile, observed, mediated, Exclusivity, demonstrated, declared,
}
use compliance_ail.Decision.Policy.{
  OutcomeType, policy_allow, policy_deny, schema_deny, fault, FaultClass, fault_name, Called,
  returned, crashed,
}
use compliance_ail.Decision.Decide.{ContentState, present, unavailable, Intent, CallRecord}

-- A POST that raises, also by `raise_for_status`, or the body of a response, if it parses.
pub data Posted : Type 0 where
  post_raised : Posted
  body : Option Json → Posted

pub record Wire (C : Crypto) : Type 1 where
  pub Net : Type 0
  -- POST /write-ordered: the key, the value and the view.
  pub post : Net → Text → Text → String → Posted × Net
  -- GET /health of the verifier, and `raise_for_status`.
  pub is_healthy : Net → Bool × Net
  -- The key that `get_writer_keys()` loads, if it does not raise; `load_signing_key` pairs it with
  -- its public key.
  pub writer_key : Option C.SigningKey
  -- `json.dumps(record, separators=(",", ":")).encode()`
  pub dumps : Fields → Bytes
  -- The truth of a float, by its text.
  pub is_nonzero : Text → Bool

outcome_name : OutcomeType → Text
outcome_name policy_allow = codes "policy_allow"
outcome_name policy_deny = codes "policy_deny"
outcome_name schema_deny = codes "schema_deny"
outcome_name fault = codes "fault"

content_name : ContentState → Text
content_name present = codes "present"
content_name unavailable = codes "unavailable"

profile_name : Profile → Text
profile_name observed = codes "observed"
profile_name mediated = codes "mediated"

exclusivity_name : Exclusivity → Text
exclusivity_name demonstrated = codes "demonstrated"
exclusivity_name declared = codes "declared"

fault_json : Option FaultClass → Json
fault_json none = null
fault_json (some f) = str (fault_name (some f))

text_json : Option Text → Json
text_json none = null
text_json (some t) = str t

items : List Json → Items
items [] = nil
items (x ∷ xs) = item x (items xs)

with_exclusivity : Option Exclusivity → Fields → Fields
unfolding exclusivity_name
with_exclusivity none d = d
with_exclusivity (some e) d = put "exclusivity" (str (exclusivity_name e)) d

-- `log_entry` of `log_tool_call`.
unfoldable pub decision_entry : CallRecord → Text → Fields
unfolding outcome_name content_name profile_name fault_json text_json items with_exclusivity
decision_entry r timestamp = with_exclusivity r.exclusivity (
    field "record_type" (str (codes "decision")) (
      field "agent_id" (str r.agent_id) (
        field "timestamp" (str timestamp) (
          field "tool_name" (str (codes r.tool_name)) (
            field "call_id" (str r.call_id) (
              field "input_sha256" (str r.input_sha256) (
                field "outcome_type" (str (outcome_name r.outcome.outcome_type)) (
                  field "fault_class" (fault_json r.outcome.fault_class) (
                    field "policy_revision" (text_json r.outcome.policy_revision) (
                      field "reasons" (arr (items r.outcome.reasons)) (
                        field "content_state" (str (content_name r.content_state))
                          (field "profile" (str (profile_name r.profile)) end))))))))))))

-- `log_entry` of `log_tool_intent`.
unfoldable pub intent_entry : Intent → Text → Fields
unfolding content_name profile_name text_json
intent_entry i timestamp = field "record_type" (str (codes "decision_intent")) (
    field "agent_id" (str i.agent_id) (
      field "timestamp" (str timestamp) (
        field "tool_name" (str (codes i.tool_name)) (
          field "call_id" (str i.call_id) (
            field "input_sha256" (str i.input_sha256) (
              field "policy_revision" (text_json i.policy_revision) (
                field "content_state" (str (content_name i.content_state))
                  (field "profile" (str (profile_name i.profile)) end))))))))

-- `f"{prefix}:{agent_id}:{nonce}:{tool_name}"`
unfoldable pub record_key : Text → Text → Text → String → Text
record_key prefix agent_id nonce tool_name =
    prefix ++ (agent_id ++ (codes ":" ++ (nonce ++ (codes ":" ++ codes tool_name))))

module _ {C : Crypto} (W : Wire C) where
  -- Python's truth of a JSON value.
  unfoldable pub is_truthy : Json → Bool
  is_truthy null = false
  is_truthy (bool b) = b
  is_truthy (num n) = not (int_eq n (pos 0))
  is_truthy (real r) = W.is_nonzero r
  is_truthy (str s) = not (bytes_eq s [])
  is_truthy (arr nil) = false
  is_truthy (arr (item x xs)) = true
  is_truthy (obj end) = false
  is_truthy (obj (field k v d)) = true

  -- `result.get("verified")`, and the key that is read where it holds.
  verified_tx : Option Json → Option Json → Called Json
  verified_tx none tx = crashed
  verified_tx (some v) none = crashed
  verified_tx (some v) (some tx) = if not (is_truthy v) then crashed else returned tx

  -- What a response is taken for.
  unfoldable pub answered_tx : Posted → Called Json
  unfolding verified_tx is_truthy
  answered_tx post_raised = crashed
  answered_tx (body none) = crashed
  answered_tx (body (some null)) = crashed
  answered_tx (body (some (bool b))) = crashed
  answered_tx (body (some (num n))) = crashed
  answered_tx (body (some (real r))) = crashed
  answered_tx (body (some (str s))) = crashed
  answered_tx (body (some (arr xs))) = crashed
  answered_tx (body (some (obj d))) = verified_tx (get "verified" d) (get "tx_id" d)

  answered : Posted × W.Net → Called Json × W.Net
  unfolding answered_tx
  answered (p, n) = (answered_tx p, n)

  -- Both keys and values are sent in base64.
  post_record : Option Bytes → Fields → String → W.Net → Called Json × W.Net
  unfolding answered
  post_record none signed view n = (crashed, n)
  post_record (some key) signed view n =
      answered (W.post n (C.b64encode key) (C.b64encode (W.dumps signed)) view)

  -- `_sign`, then the write.
  sign_and_post : Option C.SigningKey → Text → Fields → String → W.Net → Called Json × W.Net
  unfolding post_record
  sign_and_post none key entry view n = (crashed, n)
  sign_and_post (some sk) key entry view n =
      post_record (encode key) (sign_record C entry sk (C.public_key sk)) view n

  unfoldable pub log_tool_call : CallRecord → Text → Text → W.Net → Called Json × W.Net
  unfolding sign_and_post decision_entry record_key
  log_tool_call r timestamp nonce n =
      sign_and_post W.writer_key (record_key (codes "tool_call:") r.agent_id nonce r.tool_name)
        (decision_entry r timestamp) "decision" n

  unfoldable pub log_tool_intent : Intent → Text → Text → W.Net → Called Json × W.Net
  unfolding sign_and_post intent_entry record_key
  log_tool_intent i timestamp nonce n =
      sign_and_post W.writer_key
        (record_key (codes "tool_call_intent:") i.agent_id nonce i.tool_name)
        (intent_entry i timestamp) "intent" n

  -- `get_ledger`: whether there is an instance, made after one health check.
  unfoldable pub get_ledger : Bool → W.Net → Bool × W.Net
  get_ledger true n = (true, n)
  get_ledger false n = W.is_healthy n
