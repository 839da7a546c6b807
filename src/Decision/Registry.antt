-- ===== src/Decision/Registry.antt =====
-- decision_service/schemas.py: the tool registry, and which tools may be recorded "demonstrated".
-- A validator is a pydantic model's; the registry names the model.
pub mod Laws
use compliance_ail.Common.{
  Bool, true, false, not, Option, none, some, List, [], ◌∷◌, String, ◌==ˢ◌, if◌then◌else◌,
}

pub data Schema : Type 0 where
  cloud_server query_database deploy_to_production read_vault_secret : Schema

pub data Profile : Type 0 where
  observed mediated : Profile

pub data Exclusivity : Type 0 where
  demonstrated declared : Exclusivity

pub record ToolRegistration : Type 0 where
  pub validator : Schema
  pub authority_holder : String
  pub mechanism : String
  pub profile : Profile
  pub claimed_exclusivity : Option Exclusivity

abbrev pub Registry : Type 0
Registry = List (String × ToolRegistration)

-- `TOOL_REGISTRY.get(tool_name)`
unfoldable pub find_tool : String → Registry → Option ToolRegistration
find_tool name [] = none
find_tool name ((n, reg) ∷ rest) = if n ==ˢ name then some reg else find_tool name rest

-- `_VERIFIABLE_MECHANISMS`
unfoldable pub is_verifiable : String → Bool
is_verifiable mechanism = mechanism ==ˢ "mcp_stdio_secret_mount"

-- `_TOOL_VERIFIED`, by tool name.
abbrev pub Verified : Type 0
Verified = List (String × Bool)

unfoldable pub verified_of : String → Verified → Option Bool
verified_of name [] = none
verified_of name ((n, b) ∷ rest) = if n ==ˢ name then some b else verified_of name rest

unfoldable pub set_verified : String → Bool → Verified → Verified
set_verified name b [] = (name, b) ∷ []
set_verified name b ((n, c) ∷ rest) =
    if n ==ˢ name then (name, b) ∷ rest else (n, c) ∷ set_verified name b rest

-- `_MECHANISM_VERIFIERS`: each check runs in the process, and may answer differently each time.
abbrev pub Verifiers : Type 0 → Type 0
Verifiers S = String → Option (S → Bool × S)

module _ {S : Type 0} (verifiers : Verifiers S) where
  -- `bool(verify_fn()) if verify_fn is not None else False`
  run_check : Option (S → Bool × S) → S → Bool × S
  run_check none s = (false, s)
  run_check (some verify_fn) s = verify_fn s

  -- `run_verification_pass`
  unfoldable pub run_verification_pass : Registry → Verified → S → Verified × S
  unfolding run_check is_verifiable
  run_verification_pass [] v s = (v, s)
  run_verification_pass ((name, reg) ∷ rest) v s =
      let (result, s') = run_check (verifiers reg.mechanism) s in
      let skipped = run_verification_pass rest v s in
      let checked = run_verification_pass rest (set_verified name result v) s' in
      if not (is_verifiable reg.mechanism) then skipped else checked

is_true : Option Bool → Bool
is_true none = false
is_true (some b) = b

-- `resolve_exclusivity_for`
unfoldable pub resolve_exclusivity_for : Verified → String → ToolRegistration → Option Exclusivity
unfolding is_true
resolve_exclusivity_for v name reg = elim reg.claimed_exclusivity [
  | none ↦ none
  | some _ ↦ if is_true (verified_of name v) then some demonstrated else some declared
]

-- `resolve_exclusivity`
unfoldable pub resolve_exclusivity : Registry → Verified → String → Option Exclusivity
unfolding resolve_exclusivity_for
resolve_exclusivity tools v name = elim (find_tool name tools) [
  | none ↦ none
  | some reg ↦ resolve_exclusivity_for v name reg
]

-- `TOOL_REGISTRY`
abbrev pub tool_registry : Registry
tool_registry =
    (
      "provision_cloud_server",
      record {
        validator = cloud_server;
        authority_holder = "agent (ambient)";
        mechanism = "in_process_function";
        profile = observed;
        claimed_exclusivity = none;
      },
    )
    ∷ (
      "query_database",
      record {
        validator = query_database;
        authority_holder = "agent (ambient)";
        mechanism = "in_process_function";
        profile = observed;
        claimed_exclusivity = none;
      },
    )
    ∷ (
      "deploy_to_production",
      record {
        validator = deploy_to_production;
        authority_holder = "agent (ambient)";
        mechanism = "in_process_function";
        profile = observed;
        claimed_exclusivity = none;
      },
    )
    ∷ (
      "read_vault_secret",
      record {
        validator = read_vault_secret;
        authority_holder = "decision-service (vault_server.py subprocess, secret-mounted)";
        mechanism = "mcp_stdio_secret_mount";
        profile = mediated;
        claimed_exclusivity = some demonstrated;
      },
    )
    ∷ []
