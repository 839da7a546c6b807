-- ===== src/Decision/Policy.antt =====
-- `query_opa_policy` and `_render_message` of decision_service/main.py: schema validation, then the
-- policy engine. Pydantic and the HTTP call to OPA are parameters.

pub mod Laws
use compliance_ail.Common.{
  ℕ, Bool, true, false, not, ◌&&◌, ◌||◌, ◌==◌, Option, none, some, is_some, List, [], ◌∷◌, ◌++◌,
  String, if◌then◌else◌, Text, codes, starts_with, length, drop, bytes_eq,
}
use compliance_ail.Common.Json.{
  Json, null, bool, num, real, str, arr, obj, Items, nil, item, Fields, get,
}
use compliance_ail.Decision.Registry.{Schema, ToolRegistration, Registry, find_tool}

pub data OutcomeType : Type 0 where
  policy_allow policy_deny schema_deny fault : OutcomeType

pub data FaultClass : Type 0 where
  opa_unreachable revision_unavailable verifier_unreachable malformed_policy_response : FaultClass
  content_store_unreachable tool_execution_failed intent_write_failed : FaultClass

-- `_outcome(...)`
pub record Outcome : Type 0 where
  pub outcome_type : OutcomeType
  pub fault_class : Option FaultClass
  pub policy_revision : Option Text
  pub reasons : List Json

abbrev pub faulted : FaultClass → Outcome
faulted f = record {
  outcome_type = fault;
  fault_class = some f;
  policy_revision = none;
  reasons = [];
}

abbrev pub schema_denied : Text → Outcome
schema_denied reason = record {
  outcome_type = schema_deny;
  fault_class = none;
  policy_revision = none;
  reasons = str reason ∷ [];
}

-- `type(value).__name__`
type_name : Json → Text
type_name null = codes "NoneType"
type_name (bool b) = codes "bool"
type_name (num n) = codes "int"
type_name (real r) = codes "float"
type_name (str s) = codes "str"
type_name (arr xs) = codes "list"
type_name (obj d) = codes "dict"

elements : Items → List Json
elements nil = []
elements (item x xs) = x ∷ elements xs

-- The HTTP exchange with OPA: a request error, or a status and the parsed body if it parses.
pub data OpaReply : Type 0 where
  request_error : OpaReply
  answered : ℕ → Option Json → OpaReply

-- A call that returns, or raises an exception that its caller does not catch.
pub data Called {ℓ} (A : Type ℓ) : Type ℓ where
  returned : A → Called A
  crashed : Called A

-- A bool, a list, and a string that is not empty.
as_bool : Option Json → Option Bool
as_bool none = none
as_bool (some null) = none
as_bool (some (bool b)) = some b
as_bool (some (num n)) = none
as_bool (some (real r)) = none
as_bool (some (str s)) = none
as_bool (some (arr xs)) = none
as_bool (some (obj d)) = none

as_list : Option Json → Option (List Json)
unfolding elements
as_list none = none
as_list (some null) = none
as_list (some (bool b)) = none
as_list (some (num n)) = none
as_list (some (real r)) = none
as_list (some (str s)) = none
as_list (some (arr xs)) = some (elements xs)
as_list (some (obj d)) = none

as_revision : Option Json → Option Text
as_revision none = none
as_revision (some null) = none
as_revision (some (bool b)) = none
as_revision (some (num n)) = none
as_revision (some (real r)) = none
as_revision (some (str s)) = if bytes_eq s [] then none else some s
as_revision (some (arr xs)) = none
as_revision (some (obj d)) = none

-- The three fields of a well-formed evaluation.
verdict : Option Bool → Option (List Json) → Option Text → Outcome
verdict none reasons revision = faulted malformed_policy_response
verdict (some allow) none revision = faulted malformed_policy_response
verdict (some allow) (some reasons) none = faulted malformed_policy_response
verdict (some true) (some reasons) (some revision) = record {
  outcome_type = policy_allow;
  fault_class = none;
  policy_revision = some revision;
  reasons = [];
}
verdict (some false) (some reasons) (some revision) = record {
  outcome_type = policy_deny;
  fault_class = none;
  policy_revision = some revision;
  reasons = reasons;
}

-- `result` of the body; a value that is no dict raises at its `.get`.
unfoldable pub evaluate : Option Json → Called Outcome
unfolding verdict as_bool as_list as_revision
evaluate none = returned (faulted revision_unavailable)
evaluate (some null) = returned (faulted revision_unavailable)
evaluate (some (obj d)) =
    returned (
      verdict (as_bool (get "allow" d)) (as_list (get "reasons" d))
        (as_revision (get "revision" d)))
evaluate (some (bool b)) = crashed
evaluate (some (num n)) = crashed
evaluate (some (real r)) = crashed
evaluate (some (str s)) = crashed
evaluate (some (arr xs)) = crashed

-- `response.json().get("result")`
body_result : Option Json → Called Outcome
unfolding evaluate
body_result (some (obj d)) = evaluate (get "result" d)
body_result none = crashed
body_result (some null) = crashed
body_result (some (bool b)) = crashed
body_result (some (num n)) = crashed
body_result (some (real r)) = crashed
body_result (some (str s)) = crashed
body_result (some (arr xs)) = crashed

unfoldable pub after_reply : OpaReply → Called Outcome
unfolding body_result
after_reply request_error = returned (faulted opa_unreachable)
after_reply (answered status body) =
    if not (status == 200) then returned (faulted opa_unreachable) else body_result body

-- `isinstance(tool_args, dict)`
unfoldable pub as_dict : Json → Option Fields
as_dict null = none
as_dict (bool b) = none
as_dict (num n) = none
as_dict (real r) = none
as_dict (str s) = none
as_dict (arr xs) = none
as_dict (obj d) = some d

-- The validation error of a pydantic model, if it has one.
abbrev pub Validate : Type 0
Validate = Schema → Fields → Option Text

module _ {S : Type 0} (validate : Validate) (opa : S → String → Fields → OpaReply × S) where
  asked : OpaReply × S → Called Outcome × S
  unfolding after_reply
  asked (reply, s) = (after_reply reply, s)

  query_registered : Option ToolRegistration → String → Fields → S → Called Outcome × S
  unfolding asked
  query_registered none name args s = (
    returned (schema_denied (codes "No registered schema for tool '" ++ codes name ++ codes "'.")),
    s,
  )
  query_registered (some reg) name args s = elim (validate reg.validator args) [
    | some message ↦ (returned (schema_denied message), s)
    | none ↦ asked (opa s name args)
  ]

  query_shaped : Registry → String → Option Fields → Json → S → Called Outcome × S
  unfolding query_registered type_name
  query_shaped tools name none args s = (
    returned (
        schema_denied
          (codes "tool_args must be a JSON object; got " ++ (type_name args ++ codes "."))),
    s,
  )
  query_shaped tools name (some fields) args s =
      query_registered (find_tool name tools) name fields s

  -- `query_opa_policy`
  unfoldable pub query_opa_policy : Registry → String → Json → S → Called Outcome × S
  unfolding query_shaped
  query_opa_policy tools name args s = query_shaped tools name (as_dict args) args s

abbrev pub denied_prefix : Text
denied_prefix = codes "DENIED: "

-- `_strip_denied_prefix`
unfoldable pub strip_denied_prefix : Text → Text
strip_denied_prefix reason =
    if starts_with reason denied_prefix then drop (length denied_prefix) reason else reason

-- The reasons as strings; another value raises in `startswith` or in `join`.
unfoldable pub as_texts : List Json → Option (List Text)
as_texts [] = some []
as_texts (str s ∷ rest) = elim (as_texts rest) [ none ↦ none | some ts ↦ some (s ∷ ts) ]
as_texts (null ∷ rest) = none
as_texts (bool b ∷ rest) = none
as_texts (num n ∷ rest) = none
as_texts (real r ∷ rest) = none
as_texts (arr xs ∷ rest) = none
as_texts (obj d ∷ rest) = none

-- `"; ".join(...)`
unfoldable pub join : List Text → Text
join [] = []
join (t ∷ []) = t
join (t ∷ u ∷ rest) = t ++ (codes "; " ++ join (u ∷ rest))

strip_all : List Text → List Text
unfolding strip_denied_prefix
strip_all [] = []
strip_all (t ∷ rest) = strip_denied_prefix t ∷ strip_all rest

policy_reasons : List Text → Text
unfolding join strip_all
policy_reasons [] = codes "Action did not pass policy evaluation."
policy_reasons (t ∷ rest) = join (strip_all (t ∷ rest))

unfoldable pub fault_name : Option FaultClass → Text
fault_name none = codes "None"
fault_name (some opa_unreachable) = codes "opa_unreachable"
fault_name (some revision_unavailable) = codes "revision_unavailable"
fault_name (some verifier_unreachable) = codes "verifier_unreachable"
fault_name (some malformed_policy_response) = codes "malformed_policy_response"
fault_name (some content_store_unreachable) = codes "content_store_unreachable"
fault_name (some tool_execution_failed) = codes "tool_execution_failed"
fault_name (some intent_write_failed) = codes "intent_write_failed"

prefixed : Text → Option (List Text) → (List Text → Text) → Called Text
prefixed start none f = crashed
prefixed start (some ts) f = returned (denied_prefix ++ (start ++ f ts))

-- `_render_message`
unfoldable pub render_message : Outcome → Called Text
unfolding prefixed policy_reasons fault_name as_texts
render_message o = elim o.outcome_type [
  | policy_allow ↦ returned (codes "Action approved by policy")
  | policy_deny ↦ prefixed [] (as_texts o.reasons) policy_reasons
  | schema_deny ↦ prefixed (codes "Schema Validation Failed. ") (as_texts o.reasons) join
  | fault ↦ returned (
      denied_prefix
      ++ (codes "Compliance engine fault ("
          ++ (fault_name o.fault_class ++ codes "). Fail-closed policy enforced.")))
]
