-- ===== src/Decision/Policy/Laws.antt =====
-- What an allowed call has passed.
use compliance_ail.Common.{
  ◌≡◌, refl, sym, ap, ◌∙◌, Bool, true, false, ◌==◌, Option, none, some, List, String, Text, arith,
  Bool-cases, Option-cases, inl, inr,
}
use compliance_ail.Common.Json.{Json, null, bool, num, real, str, arr, obj, Fields, get}
use compliance_ail.Decision.Registry.{ToolRegistration, Registry, find_tool}
use compliance_ail.Decision.Policy.{
  policy_allow, FaultClass, revision_unavailable, opa_unreachable, faulted, Outcome, OpaReply,
  request_error, answered, returned, as_bool, as_list, as_revision, verdict, evaluate, body_result,
  after_reply, Validate, query_opa_policy, as_dict,
}

-- The policy engine answered 200 with a well-formed evaluation that allows, under this revision.
pub record Allows (reply : OpaReply) (revision : Text) : Type 0 where
  pub body : Fields
  pub result : Fields
  pub is_ok : reply ≡ answered 200 (some (obj body))
  pub has_result : get "result" body ≡ some (obj result)
  pub allow : get "allow" result ≡ some (bool true)
  pub has_revision : get "revision" result ≡ some (str revision)

as_bool-true : (v : Option Json) → as_bool v ≡ some true → v ≡ some (bool true)
unfolding as_bool
as_bool-true none h = absurd (cc h)
as_bool-true (some null) h = absurd (cc h)
as_bool-true (some (bool b)) h = ground arith
as_bool-true (some (num n)) h = absurd (cc h)
as_bool-true (some (real r)) h = absurd (cc h)
as_bool-true (some (str s)) h = absurd (cc h)
as_bool-true (some (arr xs)) h = absurd (cc h)
as_bool-true (some (obj d)) h = absurd (cc h)

as_revision-str : (v : Option Json) (t : Text) → as_revision v ≡ some t → v ≡ some (str t)
unfolding as_revision
as_revision-str none t h = absurd (cc h)
as_revision-str (some null) t h = absurd (cc h)
as_revision-str (some (bool b)) t h = absurd (cc h)
as_revision-str (some (num n)) t h = absurd (cc h)
as_revision-str (some (real r)) t h = absurd (cc h)
as_revision-str (some (str s)) t h = ground arith
as_revision-str (some (arr xs)) t h = absurd (cc h)
as_revision-str (some (obj d)) t h = absurd (cc h)

verdict-allow :
    (a : Option Bool) (l : Option (List Json)) (r : Option Text)
    → (verdict a l r).outcome_type ≡ policy_allow
    → (a ≡ some true) × (t : Text) × (r ≡ some t) × ((verdict a l r).policy_revision ≡ some t)
unfolding verdict
verdict-allow none l r h = absurd (cc h)
verdict-allow (some b) none r h = absurd (cc h)
verdict-allow (some b) (some l) none h = absurd (cc h)
verdict-allow (some true) (some l) (some r) h = (refl, r, refl, refl)
verdict-allow (some false) (some l) (some r) h = absurd (cc h)

pub fault-ne-allow :
    {A : Type 0} (f : FaultClass) (o : Outcome) → faulted f ≡ o → o.outcome_type ≡ policy_allow → A
fault-ne-allow f o e a = absurd (ground (arith, e, a))

-- The evaluation that an allowed outcome comes from.
evaluate-allow :
    (v : Option Json) (o : Outcome)
    → evaluate v ≡ returned o
    → o.outcome_type ≡ policy_allow
    → (result : Fields) × (v ≡ some (obj result))
      × (get "allow" result ≡ some (bool true))
      × (revision : Text) × (get "revision" result ≡ some (str revision))
      × (o.policy_revision ≡ some revision)
unfolding evaluate
evaluate-allow none o h a = fault-ne-allow revision_unavailable o (cc h) a
evaluate-allow (some null) o h a = fault-ne-allow revision_unavailable o (cc h) a
evaluate-allow (some (bool b)) o h a = absurd (cc h)
evaluate-allow (some (num n)) o h a = absurd (cc h)
evaluate-allow (some (real r)) o h a = absurd (cc h)
evaluate-allow (some (str s)) o h a = absurd (cc h)
evaluate-allow (some (arr xs)) o h a = absurd (cc h)
evaluate-allow (some (obj d)) o h a =
    let same : verdict (as_bool (get "allow" d)) (as_list (get "reasons" d))
          (as_revision (get "revision" d))
        ≡ o =
      cc h in
    let (yes_allow, t, has, names) =
      verdict-allow (as_bool (get "allow" d)) (as_list (get "reasons" d))
        (as_revision (get "revision" d)) (ap (λ x. x.outcome_type) same ∙ a) in
    (
      d,
      refl,
      as_bool-true (get "allow" d) yes_allow,
      t,
      as_revision-str (get "revision" d) t has,
      ap (λ x. x.policy_revision) (sym same) ∙ names,
    )

body_result-allow :
    (body : Option Json) (o : Outcome)
    → body_result body ≡ returned o
    → o.outcome_type ≡ policy_allow
    → (revision : Text) × (o.policy_revision ≡ some revision) × Allows (answered 200 body) revision
unfolding body_result
body_result-allow none o h a = absurd (cc h)
body_result-allow (some null) o h a = absurd (cc h)
body_result-allow (some (bool b)) o h a = absurd (cc h)
body_result-allow (some (num n)) o h a = absurd (cc h)
body_result-allow (some (real r)) o h a = absurd (cc h)
body_result-allow (some (str s)) o h a = absurd (cc h)
body_result-allow (some (arr xs)) o h a = absurd (cc h)
body_result-allow (some (obj d)) o h a =
    let (result, found, allow, t, revision, named) = evaluate-allow (get "result" d) o h a in
    (
      t,
      named,
      record {
        body = d;
        result = result;
        is_ok = refl;
        has_result = found;
        allow = allow;
        has_revision = revision;
      },
    )

-- Every allowed outcome names the revision of an evaluation that allows.
pub after_reply-Allows :
    (reply : OpaReply) (o : Outcome)
    → after_reply reply ≡ returned o
    → o.outcome_type ≡ policy_allow
    → (revision : Text) × (o.policy_revision ≡ some revision) × Allows reply revision
unfolding after_reply
after_reply-Allows request_error o h a = fault-ne-allow opa_unreachable o (cc h) a
after_reply-Allows (answered status body) o h a = elim (Bool-cases (status == 200)) [
  | inr other ↦ fault-ne-allow opa_unreachable o (ground (arith, other, h)) a
  | inl fine ↦
      let is_200 : status ≡ 200 = ground (arith, fine) in
      rw is_200 (body_result-allow body o (ground (arith, fine, h)) a)
]

module _ {S : Type 0} (validate : Validate) (opa : S → String → Fields → OpaReply × S) where
  -- What an allowed query went through: the arguments are an object, the tool is registered, its
  -- model found no error, and the policy engine, asked about this very call, allows.
  pub record Cleared (tools : Registry) (name : String) (args : Json) (s : S) (revision : Text)
      : Type 0 where
    pub fields : Fields
    pub registration : ToolRegistration
    pub is_object : args ≡ obj fields
    pub registered : find_tool name tools ≡ some registration
    pub valid : validate registration.validator fields ≡ none
    pub allowed : Allows (opa s name fields).0 revision

  as_dict-obj : (args : Json) (d : Fields) → as_dict args ≡ some d → args ≡ obj d
  unfolding as_dict
  as_dict-obj null d h = absurd (cc h)
  as_dict-obj (bool b) d h = absurd (cc h)
  as_dict-obj (num n) d h = absurd (cc h)
  as_dict-obj (real r) d h = absurd (cc h)
  as_dict-obj (str s) d h = absurd (cc h)
  as_dict-obj (arr xs) d h = absurd (cc h)
  as_dict-obj (obj e) d h = cc h

  -- An outcome "policy_allow" is reached only through all of `Cleared`, and carries the revision of
  -- that evaluation.
  pub query_opa_policy-Cleared :
      (tools : Registry) (name : String) (args : Json) (s : S) (o : Outcome)
      → (query_opa_policy validate opa tools name args s).0 ≡ returned o
      → o.outcome_type ≡ policy_allow
      → (revision : Text) × (o.policy_revision ≡ some revision) × Cleared tools name args s revision
  unfolding query_opa_policy
  query_opa_policy-Cleared tools name args s o h a = elim (Option-cases (as_dict args)) [
    | inl e ↦ absurd (ground (arith, e, h, a))
    | inr (d, e) ↦ elim (Option-cases (find_tool name tools)) [
      | inl f ↦ absurd (ground (arith, e, f, h, a))
      | inr (reg, f) ↦ elim (Option-cases (validate reg.validator d)) [
        | inr (m, v) ↦ absurd (ground (arith, e, f, v, h, a))
        | inl v ↦
            let (t, named, allows) =
              after_reply-Allows (opa s name d).0 o (ground (arith, e, f, v, h)) a in
            (
              t,
              named,
              record {
                fields = d;
                registration = reg;
                is_object = as_dict-obj args d e;
                registered = f;
                valid = v;
                allowed = allows;
              },
            )
      ]
    ]
  ]
