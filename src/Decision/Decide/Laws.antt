-- ===== src/Decision/Decide/Laws.antt =====
-- What an approval has behind it, and what a result has.
use compliance_ail.Common.{
  ◌≡◌, refl, sym, ap, ◌∙◌, ℕ, Bool, true, false, ◌&&◌, Option, none, some, ◌==ˢ◌, Text, arith, inl,
  inr, Option-cases, if◌then◌else◌,
}
use compliance_ail.Common.Json.{Fields}
use compliance_ail.Decision.Policy.{
  OutcomeType, policy_allow, policy_deny, schema_deny, fault, Outcome, faulted,
  verifier_unreachable, tool_execution_failed, intent_write_failed, content_store_unreachable,
  Called, returned, crashed, query_opa_policy, as_dict, render_message,
}
use compliance_ail.Decision.Policy.Laws.{Cleared, query_opa_policy-Cleared, fault-ne-allow}
use compliance_ail.Decision.Decide.{
  Backends, Settings, Call, approved, Response, ContentState, present, unavailable, begin, Progress,
  vault_tool, status_of, is_allow, store_step, content_stored, intent_of, executed, intended,
  mediate_content, mediate_step, record_of, recorded, record_content, record_step, response_of,
  respond, proceed, answer, after_query, decide,
}

module _ (B : Backends) (C : Settings) (call : Call) where
  -- A ledger record of this call with this outcome was written as transaction `tx`.
  pub record Logged (o : Outcome) (tx : ℕ) : Type 0 where
    pub before : B.State
    pub content : ContentState
    pub written : (B.log_tool_call before (record_of B C call o content)).0 ≡ some tx

  Logged-moved : {o p : Outcome} {tx : ℕ} → o ≡ p → Logged o tx → Logged p tx
  Logged-moved {tx = tx} e l = rw (sym e) l

  recorded-allow :
      (p : Progress B.State) (x : Option ℕ × B.State)
      → (recorded B C call p x).outcome.outcome_type ≡ policy_allow
      → ((recorded B C call p x).outcome ≡ p.outcome)
        × ((tx : ℕ) × ((recorded B C call p x).ledger_tx_id ≡ some tx) × (x.0 ≡ some tx))
  unfolding recorded
  recorded-allow p (some tx, s) a = (refl, (tx, refl, refl))
  recorded-allow p (none, s) a =
      absurd (fault-ne-allow verifier_unreachable (faulted verifier_unreachable) refl a)

  record_content-allow :
      (p : Progress B.State) (q : Option ContentState) (c : ContentState)
      → q ≡ some c
      → (record_content B C call p q).outcome.outcome_type ≡ policy_allow
      → ((record_content B C call p q).outcome ≡ p.outcome)
        × ((tx : ℕ) × ((record_content B C call p q).ledger_tx_id ≡ some tx) × Logged p.outcome tx)
  unfolding record_content
  record_content-allow p none c e a = absurd (cc e)
  record_content-allow p (some c) d e a =
      let (same, (tx, has, wrote)) =
        recorded-allow p (B.log_tool_call p.state (record_of B C call p.outcome c)) a in
      (same, (tx, has, record { before = p.state; content = c; written = wrote }))

  content_stored-allow :
      (o : Outcome) (x : Bool × B.State)
      → (content_stored B C call o x).outcome.outcome_type ≡ policy_allow
      → ((content_stored B C call o x).outcome ≡ o)
        × ((c : ContentState) × ((content_stored B C call o x).content_state ≡ some c))
  unfolding content_stored begin
  content_stored-allow o (true, s) a = (refl, (present, refl))
  content_stored-allow o (false, s) a =
      absurd (fault-ne-allow content_store_unreachable (faulted content_store_unreachable) refl a)

  store_step-allow :
      (o : Outcome) (d : Option Fields) (s : B.State)
      → (store_step B C call o d s).outcome.outcome_type ≡ policy_allow
      → ((store_step B C call o d s).outcome ≡ o)
        × ((c : ContentState) × ((store_step B C call o d s).content_state ≡ some c))
  unfolding store_step begin
  store_step-allow o none s a = (refl, (unavailable, refl))
  store_step-allow o (some d) s a = content_stored-allow o (B.store_content s call.call_id d) a

  executed-allow :
      (p : Progress B.State) (x : Option Text × B.State)
      → (executed B C call p x).outcome.outcome_type ≡ policy_allow
      → ((executed B C call p x).outcome ≡ p.outcome)
        × ((executed B C call p x).content_state ≡ p.content_state)
  unfolding executed
  executed-allow p (some text, s) a = (refl, refl)
  executed-allow p (none, s) a =
      absurd (fault-ne-allow tool_execution_failed (faulted tool_execution_failed) refl a)

  intended-allow :
      (p : Progress B.State) (x : Option ℕ × B.State)
      → (intended B C call p x).outcome.outcome_type ≡ policy_allow
      → ((intended B C call p x).outcome ≡ p.outcome)
        × ((intended B C call p x).content_state ≡ p.content_state)
  unfolding intended
  intended-allow p (none, s) a =
      absurd (fault-ne-allow intent_write_failed (faulted intent_write_failed) refl a)
  intended-allow p (some tx, s) a =
      executed-allow (record p { state = s }) (B.execute_vault_tool s call.tool_args) a

  mediate_content-allow :
      (p : Progress B.State) (q : Option ContentState)
      → (mediate_content B C call p q).outcome.outcome_type ≡ policy_allow
      → ((mediate_content B C call p q).outcome ≡ p.outcome)
        × ((mediate_content B C call p q).content_state ≡ p.content_state)
  unfolding mediate_content
  mediate_content-allow p none a = (refl, refl)
  mediate_content-allow p (some c) a =
      intended-allow p (B.log_tool_intent p.state (intent_of B C call p.outcome c)) a

  gated-allow :
      (b : Bool) (p q : Progress B.State)
      → (q.outcome.outcome_type ≡ policy_allow
          → (q.outcome ≡ p.outcome) × (q.content_state ≡ p.content_state))
      → (if b then q else p).outcome.outcome_type ≡ policy_allow
      → ((if b then q else p).outcome ≡ p.outcome)
        × ((if b then q else p).content_state ≡ p.content_state)
  gated-allow true p q h a = h a
  gated-allow false p q h a = (refl, refl)

  mediate_step-allow :
      (p : Progress B.State)
      → (mediate_step B C call p).outcome.outcome_type ≡ policy_allow
      → ((mediate_step B C call p).outcome ≡ p.outcome)
        × ((mediate_step B C call p).content_state ≡ p.content_state)
  unfolding mediate_step
  mediate_step-allow p a =
      gated-allow (is_allow p.outcome.outcome_type && call.tool_name ==ˢ vault_tool) p
        (mediate_content B C call p p.content_state) (mediate_content-allow p p.content_state) a

  record_step-allow :
      (p : Progress B.State) (c : ContentState)
      → p.content_state ≡ some c
      → (record_step B C call p).outcome.outcome_type ≡ policy_allow
      → ((record_step B C call p).outcome ≡ p.outcome)
        × ((tx : ℕ) × ((record_step B C call p).ledger_tx_id ≡ some tx) × Logged p.outcome tx)
  unfolding record_step
  record_step-allow p c e a = record_content-allow p p.content_state c e a

  none_content :
      (p : Progress B.State) → p.content_state ≡ none → (record_step B C call p).outcome ≡ p.outcome
  unfolding record_step record_content
  none_content p e = ground (arith, e)

  -- Without content the outcome of the store step is a fault, and stays one.
  proceed-content :
      (p : Progress B.State)
      → (p.outcome.outcome_type ≡ policy_allow → (c : ContentState) × (p.content_state ≡ some c))
      → (record_step B C call p).outcome.outcome_type ≡ policy_allow
      → (c : ContentState) × (p.content_state ≡ some c)
  proceed-content p h a = elim (Option-cases p.content_state) [
    | inl e ↦ h (ap (λ o. o.outcome_type) (sym (none_content p e)) ∙ a)
    | inr (c, e) ↦ (c, e)
  ]

  -- An allowed outcome at the end is the outcome of the query, and its record was written.
  proceed-allow :
      (o : Outcome) (s : B.State)
      → (proceed B C call o s).outcome.outcome_type ≡ policy_allow
      → ((proceed B C call o s).outcome ≡ o)
        × ((tx : ℕ) × ((proceed B C call o s).ledger_tx_id ≡ some tx) × Logged o tx)
  unfolding proceed
  proceed-allow o s a =
      let d : Option Fields = as_dict call.tool_args in
      let p : Progress B.State = store_step B C call o d s in
      let q : Progress B.State = mediate_step B C call p in
      let (c, e) =
        proceed-content q
          (λ b.
            let (like, kept) = mediate_step-allow p b in
            let (_, (c, has)) = store_step-allow o d s (ap (λ o. o.outcome_type) (sym like) ∙ b) in
            (c, kept ∙ has))
          a in
      let (same, (tx, has, logged)) = record_step-allow q c e a in
      let allowed : q.outcome.outcome_type ≡ policy_allow =
        ap (λ o. o.outcome_type) (sym same) ∙ a in
      let (like, _) = mediate_step-allow p allowed in
      let (is_o, _) = store_step-allow o d s (ap (λ o. o.outcome_type) (sym like) ∙ allowed) in
      let chain : q.outcome ≡ o = like ∙ is_o in
      (same ∙ chain, (tx, has, Logged-moved chain logged))

  status_of-approved : (t : OutcomeType) → status_of t ≡ approved → t ≡ policy_allow
  unfolding status_of
  status_of-approved policy_allow h = refl
  status_of-approved policy_deny h = absurd (cc h)
  status_of-approved schema_deny h = absurd (cc h)
  status_of-approved fault h = absurd (cc h)

  pub respond-parts :
      (p : Progress B.State) (m : Called Text) (r : Response)
      → respond B C call p m ≡ returned r
      → (r.status ≡ status_of p.outcome.outcome_type)
        × (r.outcome ≡ p.outcome)
        × (r.ledger_tx_id ≡ p.ledger_tx_id)
        × (r.result ≡ p.result)
  unfolding respond response_of
  respond-parts p crashed r h = absurd (cc h)
  respond-parts p (returned m) r h =
      let same : response_of B C call p m ≡ r = cc h in
      (
        ap (λ x. x.status) (sym same),
        ap (λ x. x.outcome) (sym same),
        ap (λ x. x.ledger_tx_id) (sym same),
        ap (λ x. x.result) (sym same),
      )

  after_query-approved :
      (x : Called Outcome × B.State) (r : Response)
      → (after_query B C call x).0 ≡ returned r
      → r.status ≡ approved
      → (x.0 ≡ returned r.outcome)
        × (r.outcome.outcome_type ≡ policy_allow)
        × ((tx : ℕ) × (r.ledger_tx_id ≡ some tx) × Logged r.outcome tx)
  unfolding after_query answer
  after_query-approved (crashed, s) r h a = absurd (cc h)
  after_query-approved (returned o, s) r h a =
      let p : Progress B.State = proceed B C call o s in
      let (st, out, tx, res) = respond-parts p (render_message p.outcome) r h in
      let allowed : p.outcome.outcome_type ≡ policy_allow =
        status_of-approved p.outcome.outcome_type (sym st ∙ a) in
      let (same, (t, has, logged)) = proceed-allow o s allowed in
      let is_o : r.outcome ≡ o = out ∙ same in
      (
        ap returned (sym is_o),
        ap (λ o. o.outcome_type) out ∙ allowed,
        (t, tx ∙ has, Logged-moved (sym is_o) logged),
      )

  -- An approved answer of the gateway carries the revision of an evaluation that allows this very
  -- call, of a registered tool with arguments that its model accepts, and the transaction as which
  -- the ledger client wrote the record of that outcome.
  pub decide-approved :
      (s : B.State) (r : Response)
      → (decide B C call s).0 ≡ returned r
      → r.status ≡ approved
      → ((revision : Text) × (r.outcome.policy_revision ≡ some revision)
          × Cleared C.validate B.opa C.tools call.tool_name call.tool_args s revision)
        × ((tx : ℕ) × (r.ledger_tx_id ≡ some tx) × Logged r.outcome tx)
  unfolding decide
  decide-approved s r h a =
      let (asked, allowed, written) =
        after_query-approved
          (query_opa_policy C.validate B.opa C.tools call.tool_name call.tool_args s) r h a in
      (
        query_opa_policy-Cleared C.validate B.opa C.tools call.tool_name call.tool_args s r.outcome
            asked allowed,
        written,
      )
