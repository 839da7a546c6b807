-- ===== src/Tests/Decisions.antt =====
-- One approved call of the vault tool through the gateway, and the start-up check of its registry.
use compliance_ail.Common.{
  ◌≡◌, refl, ℕ, true, none, some, [], ◌∷◌, String, Text, codes, ◌==ˢ◌, ◌+◌, if◌then◌else◌, bytes_eq,
}
use compliance_ail.Common.Json.{Fields, end, field, str, obj, arr, nil, bool, get}
use compliance_ail.Decision.Registry.{
  tool_registry, Verifiers, run_verification_pass, resolve_exclusivity, verified_of, set_verified,
  find_tool, is_verifiable, ToolRegistration, Exclusivity,
}
use compliance_ail.Decision.Registry.Laws.{Checked, resolve_exclusivity-demonstrated}
use compliance_ail.Decision.Policy.{
  answered, Validate, policy_allow, Outcome, query_opa_policy, render_message, as_dict,
}
use compliance_ail.Decision.Policy.Laws.{Cleared, query_opa_policy-Cleared}
use compliance_ail.Decision.Decide.{Backends, Settings, Call, Response, approved, decide}
use compliance_ail.Decision.Decide.Laws.{Logged, decide-approved}
use compliance_ail.Decision.Decide.Results.{Executed, decide-result}

abbrev secret_tool : String
secret_tool = "read_vault_secret"

abbrev evaluation : Fields
evaluation =
    field "allow" (bool true) (field "reasons" (arr nil) (field "revision" (str (b'r' ∷ [])) end))

-- The policy engine allows everything, and the ledger client counts its transactions.
abbrev backends : Backends
backends = record {
  State = ℕ;
  opa = λ s name args. (answered 200 (some (obj (field "result" (obj evaluation) end))), s);
  store_content = λ s id args. (true, s);
  log_tool_intent = λ s i. (some s, 1 + s);
  execute_vault_tool = λ s args. (some (b'v' ∷ []), s);
  log_tool_call = λ s r. (some s, 1 + s);
}

abbrev validate : Validate
validate = λ v args. none

abbrev settings : Settings
settings = record {
  tools = tool_registry;
  verified = [];
  validate = validate;
  canonical_hash = λ j. [];
}

abbrev secret_call : Call
secret_call = record { tool_name = secret_tool; tool_args = obj end; agent_id = []; call_id = [] }

abbrev allow_r : Outcome
allow_r = record {
  outcome_type = policy_allow;
  fault_class = none;
  policy_revision = some (b'r' ∷ []);
  reasons = [];
}

abbrev secret_out : Response
secret_out = record {
  status = approved;
  message = codes "Action approved by policy";
  outcome = allow_r;
  ledger_tx_id = some 6;
  result = some (b'v' ∷ []);
}

query_opa_policy-Cleared_example :
    (revision : Text) × (allow_r.policy_revision ≡ some revision)
    × Cleared validate backends.opa tool_registry secret_tool (obj end) 5 revision
unfolding query_opa_policy find_tool as_dict get bytes_eq
query_opa_policy-Cleared_example =
    query_opa_policy-Cleared validate backends.opa tool_registry secret_tool (obj end) 5 allow_r
      refl refl

decide-approved_example :
    ((revision : Text) × (allow_r.policy_revision ≡ some revision)
      × Cleared validate backends.opa tool_registry secret_tool (obj end) 5 revision)
    × ((tx : ℕ) × (secret_out.ledger_tx_id ≡ some tx)
        × Logged backends settings secret_call allow_r tx)
unfolding decide query_opa_policy as_dict find_tool get render_message bytes_eq
decide-approved_example = decide-approved backends settings secret_call 5 secret_out refl refl

decide-result_example :
    (secret_out.status ≡ approved) × Executed backends settings secret_call allow_r (b'v' ∷ [])
unfolding decide query_opa_policy as_dict find_tool get render_message bytes_eq
decide-result_example =
    decide-result backends settings secret_call 5 secret_out (b'v' ∷ []) refl refl

-- The check of the one verifiable mechanism passes.
verifiers : Verifiers ℕ
verifiers mechanism = if mechanism ==ˢ "mcp_stdio_secret_mount" then some (λ s. (true, s)) else none

resolve_exclusivity-demonstrated_example :
    ((reg : ToolRegistration) × (find_tool secret_tool tool_registry ≡ some reg)
      × ((claim : Exclusivity) × (reg.claimed_exclusivity ≡ some claim)))
    × Checked verifiers secret_tool tool_registry 0
unfolding run_verification_pass resolve_exclusivity verified_of set_verified find_tool is_verifiable
    verifiers
resolve_exclusivity-demonstrated_example =
    resolve_exclusivity-demonstrated verifiers tool_registry secret_tool 0 refl
