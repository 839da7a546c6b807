-- ===== src/Decision/Decide.antt =====
-- `decide` of decision_service/main.py. The backends are fields of a parameter: OPA, the content
-- store, the ledger client and the vault subprocess; a state stands for all of them. Logging and
-- the Prometheus counter are left out.
pub mod Laws
pub mod Results
use compliance_ail.Common.{
  ℕ, Bool, true, false, ◌&&◌, Option, none, some, is_some, List, String, ◌==ˢ◌, if◌then◌else◌, Text,
  codes,
}
use compliance_ail.Common.Json.{Json, Fields}
use compliance_ail.Decision.Registry.{
  ToolRegistration, Registry, find_tool, Profile, observed, mediated, Exclusivity, Verified,
  resolve_exclusivity,
}
use compliance_ail.Decision.Policy.{
  OutcomeType, policy_allow, policy_deny, schema_deny, fault, FaultClass, content_store_unreachable,
  intent_write_failed, tool_execution_failed, verifier_unreachable, Outcome, faulted, OpaReply,
  Called, returned, crashed, Validate, query_opa_policy, as_dict, render_message,
}

pub data ContentState : Type 0 where
  present unavailable : ContentState

-- The arguments of `log_tool_intent`.
pub record Intent : Type 0 where
  pub agent_id : Text
  pub tool_name : String
  pub call_id : Text
  pub policy_revision : Option Text
  pub input_sha256 : Text
  pub content_state : ContentState
  pub profile : Profile

-- The arguments of `log_tool_call`.
pub record CallRecord : Type 0 where
  pub agent_id : Text
  pub tool_name : String
  pub call_id : Text
  pub input_sha256 : Text
  pub outcome : Outcome
  pub content_state : ContentState
  pub profile : Profile
  pub exclusivity : Option Exclusivity

-- `none` and `false` stand for an exception.
pub record Backends : Type 1 where
  pub State : Type 0
  pub opa : State → String → Fields → OpaReply × State
  pub store_content : State → Text → Fields → Bool × State
  pub log_tool_intent : State → Intent → Option ℕ × State
  pub execute_vault_tool : State → Json → Option Text × State
  pub log_tool_call : State → CallRecord → Option ℕ × State

pub record Settings : Type 0 where
  pub tools : Registry
  pub verified : Verified
  pub validate : Validate
  -- `_canonical_hash`
  pub canonical_hash : Json → Text

-- `DecideRequest`, with the call id that the route mints.
pub record Call : Type 0 where
  pub tool_name : String
  pub tool_args : Json
  pub agent_id : Text
  pub call_id : Text

pub data Status : Type 0 where
  approved denied : Status

pub record Response : Type 0 where
  pub status : Status
  pub message : Text
  pub outcome : Outcome
  pub ledger_tx_id : Option ℕ
  pub result : Option Text

-- `reg.profile if reg else "observed"`
unfoldable pub profile_of : Option ToolRegistration → Profile
profile_of none = observed
profile_of (some reg) = reg.profile

pub status_of : OutcomeType → Status
status_of policy_allow = approved
status_of policy_deny = denied
status_of schema_deny = denied
status_of fault = denied

is_allow : OutcomeType → Bool
is_allow policy_allow = true
is_allow policy_deny = false
is_allow schema_deny = false
is_allow fault = false

pub vault_tool : String
vault_tool = "read_vault_secret"

-- The variables of the route between its steps.
pub record Progress (S : Type 0) : Type 0 where
  pub outcome : Outcome
  pub content_state : Option ContentState
  pub result : Option Text
  pub ledger_tx_id : Option ℕ
  pub state : S

module _ (B : Backends) (C : Settings) (call : Call) where
  begin : Outcome → Option ContentState → B.State → Progress B.State
  begin o c s = record {
    outcome = o;
    content_state = c;
    result = none;
    ledger_tx_id = none;
    state = s;
  }

  content_stored : Outcome → Bool × B.State → Progress B.State
  unfolding begin
  content_stored o (true, s) = begin o (some present) s
  content_stored o (false, s) = begin (faulted content_store_unreachable) none s

  -- The content store, for arguments that are an object.
  store_step : Outcome → Option Fields → B.State → Progress B.State
  unfolding content_stored
  store_step o none s = begin o (some unavailable) s
  store_step o (some d) s = content_stored o (B.store_content s call.call_id d)

  unfoldable pub intent_of : Outcome → ContentState → Intent
  unfolding profile_of
  intent_of o c = record {
    agent_id = call.agent_id;
    tool_name = call.tool_name;
    call_id = call.call_id;
    policy_revision = o.policy_revision;
    input_sha256 = C.canonical_hash call.tool_args;
    content_state = c;
    profile = profile_of (find_tool call.tool_name C.tools);
  }

  executed : Progress B.State → Option Text × B.State → Progress B.State
  executed p (some text, s) = record p { result = some text; state = s }
  executed p (none, s) = record p { outcome = faulted tool_execution_failed; state = s }

  intended : Progress B.State → Option ℕ × B.State → Progress B.State
  unfolding executed
  intended p (none, s) = record p { outcome = faulted intent_write_failed; state = s }
  intended p (some tx, s) =
      executed (record p { state = s }) (B.execute_vault_tool s call.tool_args)

  mediate_content : Progress B.State → Option ContentState → Progress B.State
  unfolding intended
  mediate_content p none = p
  mediate_content p (some c) = intended p (B.log_tool_intent p.state (intent_of p.outcome c))

  -- The mediated tool: the intent record gates the execution.
  mediate_step : Progress B.State → Progress B.State
  unfolding mediate_content is_allow vault_tool
  mediate_step p =
      if is_allow p.outcome.outcome_type && call.tool_name ==ˢ vault_tool
      then mediate_content p p.content_state
      else p

  unfoldable pub record_of : Outcome → ContentState → CallRecord
  unfolding profile_of
  record_of o c = record {
    agent_id = call.agent_id;
    tool_name = call.tool_name;
    call_id = call.call_id;
    input_sha256 = C.canonical_hash call.tool_args;
    outcome = o;
    content_state = c;
    profile = profile_of (find_tool call.tool_name C.tools);
    exclusivity = resolve_exclusivity C.tools C.verified call.tool_name;
  }

  recorded : Progress B.State → Option ℕ × B.State → Progress B.State
  recorded p (some tx, s) = record p { ledger_tx_id = some tx; state = s }
  recorded p (none, s) = record p {
    outcome = faulted verifier_unreachable;
    result = none;
    state = s;
  }

  record_content : Progress B.State → Option ContentState → Progress B.State
  unfolding recorded
  record_content p none = p
  record_content p (some c) = recorded p (B.log_tool_call p.state (record_of p.outcome c))

  -- The ledger record, wherever the content store did not fail.
  record_step : Progress B.State → Progress B.State
  unfolding record_content
  record_step p = record_content p p.content_state

  response_of : Progress B.State → Text → Response
  unfolding status_of
  response_of p message = record {
    status = status_of p.outcome.outcome_type;
    message = message;
    outcome = p.outcome;
    ledger_tx_id = p.ledger_tx_id;
    result = p.result;
  }

  pub respond : Progress B.State → Called Text → Called Response
  unfolding response_of
  respond p crashed = crashed
  respond p (returned message) = returned (response_of p message)

  -- The steps that follow the policy query.
  proceed : Outcome → B.State → Progress B.State
  unfolding store_step mediate_step record_step
  proceed o s = record_step (mediate_step (store_step o (as_dict call.tool_args) s))

  answer : Progress B.State → Called Response × B.State
  unfolding respond
  answer p = (respond p (render_message p.outcome), p.state)

  after_query : Called Outcome × B.State → Called Response × B.State
  unfolding proceed answer
  after_query (crashed, s) = (crashed, s)
  after_query (returned o, s) = answer (proceed o s)

  -- `decide`
  unfoldable pub decide : B.State → Called Response × B.State
  unfolding after_query
  decide s = after_query (query_opa_policy C.validate B.opa C.tools call.tool_name call.tool_args s)
