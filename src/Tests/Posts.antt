-- ===== src/Tests/Posts.antt =====
-- A verifier that answers every POST as verified at transaction 8, and the keys of the client.
use compliance_ail.Common.{
  ◌≡◌, refl, true, false, none, some, [], ◌∷◌, Bytes, codes, encode, pos, bytes_eq,
}
use compliance_ail.Common.Json.{num, bool, obj, str, Fields, end, field, get, is_text}
use compliance_ail.Decision.Registry.{observed, mediated}
use compliance_ail.Decision.Policy.{schema_deny}
use compliance_ail.Decision.Decide.{Intent, CallRecord, present}
use compliance_ail.Client.{
  Wire, body, decision_entry, intent_entry, record_key, log_tool_call, log_tool_intent, answered_tx,
  is_truthy,
}
use compliance_ail.Client.Writes.{Written, log_tool_call-Written, log_tool_intent-Written}
use compliance_ail.Client.Keys.{record_key-refuse_plain, record_key-refuse_plain_intent}
use compliance_ail.Verifier.Service.{key_prefix, refuse_plain, refuse_ordered}
use compliance_ail.Tests.Samples.{toy, toy-IsSound, service}

abbrev wire : Wire toy
wire = record {
  Net = Unit {0};
  post = λ n key value view.
      (body (some (obj (field "verified" (bool true) (field "tx_id" (num (pos 8)) end)))), n);
  is_healthy = λ n. (true, n);
  writer_key = some tt;
  dumps = λ d. [];
  is_nonzero = λ t. true;
}

abbrev denied_call : CallRecord
denied_call = record {
  agent_id = b'a' ∷ [];
  tool_name = "t";
  call_id = b'7' ∷ [];
  input_sha256 = [];
  outcome = record {
    outcome_type = schema_deny;
    fault_class = none;
    policy_revision = none;
    reasons = [];
  };
  content_state = present;
  profile = observed;
  exclusivity = none;
}

log_tool_call-Written_example :
    Written wire
      (decision_entry denied_call [])
      (record_key (codes "tool_call:") (b'a' ∷ []) (b'n' ∷ []) "t")
      "decision"
      tt
      (num (pos 8))
unfolding log_tool_call record_key encode codes answered_tx is_truthy get
log_tool_call-Written_example =
    log_tool_call-Written wire toy-IsSound denied_call [] (b'n' ∷ []) tt (num (pos 8)) refl

abbrev vault_intent : Intent
vault_intent = record {
  agent_id = b'a' ∷ [];
  tool_name = "t";
  call_id = b'7' ∷ [];
  policy_revision = some (b'r' ∷ []);
  input_sha256 = [];
  content_state = present;
  profile = mediated;
}

log_tool_intent-Written_example :
    Written wire
      (intent_entry vault_intent [])
      (record_key (codes "tool_call_intent:") (b'a' ∷ []) (b'n' ∷ []) "t")
      "intent"
      tt
      (num (pos 8))
unfolding log_tool_intent record_key encode codes answered_tx is_truthy get
log_tool_intent-Written_example =
    log_tool_intent-Written wire toy-IsSound vault_intent [] (b'n' ∷ []) tt (num (pos 8)) refl

abbrev sample_key : Bytes
sample_key = codes "tool_call:a:n:t"

abbrev sample_value : Fields
sample_value = field "record_type" (str (codes "decision")) (field "call_id" (str (b'v' ∷ [])) end)

record_key-refuse_plain_example :
    (refuse_plain (service false) sample_key (b'v' ∷ []) ≡ some (key_prefix "tool_call:"))
    × (refuse_ordered (service false) sample_key (b'v' ∷ []) ≡ none)
unfolding record_key encode codes is_text get bytes_eq
record_key-refuse_plain_example =
    record_key-refuse_plain (service false) (b'a' ∷ []) (b'n' ∷ []) "t" sample_key (b'v' ∷ []) refl
      sample_value refl refl

abbrev sample_intent_key : Bytes
sample_intent_key = codes "tool_call_intent:a:n:t"

record_key-refuse_plain_intent_example :
    (refuse_plain (service false) sample_intent_key (b'v' ∷ [])
      ≡ some (key_prefix "tool_call_intent:"))
    × (refuse_ordered (service false) sample_intent_key (b'v' ∷ []) ≡ none)
unfolding record_key encode codes is_text get bytes_eq
record_key-refuse_plain_intent_example =
    record_key-refuse_plain_intent (service false) (b'a' ∷ []) (b'n' ∷ []) "t" sample_intent_key
      (b'v' ∷ []) refl sample_value refl refl
