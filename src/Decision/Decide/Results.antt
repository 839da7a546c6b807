-- ===== src/Decision/Decide/Results.antt =====
-- What a returned result has behind it.
use compliance_ail.Common.{
  ◌≡◌, refl, sym, ◌∙◌, ℕ, Bool, true, false, ◌&&◌, Option, none, some, ◌==ˢ◌, Text, if◌then◌else◌,
}
use compliance_ail.Common.Json.{Fields}
use compliance_ail.Decision.Policy.{
  OutcomeType, policy_allow, policy_deny, schema_deny, fault, Outcome, Called, returned, crashed,
  query_opa_policy, as_dict, render_message,
}
use compliance_ail.Decision.Decide.{
  Backends, Settings, Call, approved, Response, ContentState, begin, Progress, vault_tool,
  status_of, is_allow, store_step, content_stored, intent_of, executed, intended, mediate_content,
  mediate_step, record_of, recorded, record_content, record_step, proceed, answer, after_query,
  decide,
}
use compliance_ail.Decision.Decide.Laws.{respond-parts}

and_parts : (a b : Bool) → (a && b) ≡ true → (a ≡ true) × (b ≡ true)
and_parts true b h = (refl, h)
and_parts false b h = absurd (cc h)

module _ (B : Backends) (C : Settings) (call : Call) where
  -- The vault tool returned `text` for this call after the intent record, under the outcome `o`, was
  -- written: the execution starts in the state that the writing left.
  pub record Executed (o : Outcome) (text : Text) : Type 0 where
    pub before : B.State
    pub content : ContentState
    pub intent_tx : ℕ
    pub intent_written :
        (B.log_tool_intent before (intent_of B C call o content)).0 ≡ some intent_tx
    pub ran :
        (B.execute_vault_tool
          (B.log_tool_intent before (intent_of B C call o content)).1
          call.tool_args).0
        ≡ some text
    pub is_vault : (call.tool_name ==ˢ vault_tool) ≡ true
    pub is_allowed : o.outcome_type ≡ policy_allow

  Executed-moved : {o p : Outcome} {text : Text} → o ≡ p → Executed o text → Executed p text
  Executed-moved e l = rw (sym e) l

  executed-result :
      (p : Progress B.State) (x : Option Text × B.State) (text : Text)
      → p.result ≡ none
      → (executed B C call p x).result ≡ some text
      → (x.0 ≡ some text) × ((executed B C call p x).outcome ≡ p.outcome)
  unfolding executed
  executed-result p (some t, s) text n h = (h, refl)
  executed-result p (none, s) text n h = absurd (cc (n, h))

  intended-result :
      (p : Progress B.State) (x : Option ℕ × B.State) (text : Text)
      → p.result ≡ none
      → (intended B C call p x).result ≡ some text
      → ((tx : ℕ) × (x.0 ≡ some tx))
        × ((B.execute_vault_tool x.1 call.tool_args).0 ≡ some text)
        × ((intended B C call p x).outcome ≡ p.outcome)
  unfolding intended
  intended-result p (none, s) text n h = absurd (cc (n, h))
  intended-result p (some tx, s) text n h =
      let (ran, same) =
        executed-result (record p { state = s }) (B.execute_vault_tool s call.tool_args) text n h in
      ((tx, refl), ran, same)

  mediate_content-result :
      (p : Progress B.State) (q : Option ContentState) (text : Text)
      → p.result ≡ none
      → p.outcome.outcome_type ≡ policy_allow
      → (call.tool_name ==ˢ vault_tool) ≡ true
      → (mediate_content B C call p q).result ≡ some text
      → Executed p.outcome text × ((mediate_content B C call p q).outcome ≡ p.outcome)
  unfolding mediate_content
  mediate_content-result p none text n a v h = absurd (cc (n, h))
  mediate_content-result p (some c) text n a v h =
      let ((tx, wrote), ran, same) =
        intended-result p (B.log_tool_intent p.state (intent_of B C call p.outcome c)) text n h in
      (
        record {
          before = p.state;
          content = c;
          intent_tx = tx;
          intent_written = wrote;
          ran = ran;
          is_vault = v;
          is_allowed = a;
        },
        same,
      )

  is_allow-policy_allow : (t : OutcomeType) → is_allow t ≡ true → t ≡ policy_allow
  unfolding is_allow
  is_allow-policy_allow policy_allow h = refl
  is_allow-policy_allow policy_deny h = absurd (cc h)
  is_allow-policy_allow schema_deny h = absurd (cc h)
  is_allow-policy_allow fault h = absurd (cc h)

  gated-result :
      (b : Bool) (p q : Progress B.State) (text : Text) {A : Type 0}
      → p.result ≡ none
      → (b ≡ true → q.result ≡ some text → A × (q.outcome ≡ p.outcome))
      → (if b then q else p).result ≡ some text
      → A × ((if b then q else p).outcome ≡ p.outcome)
  gated-result true p q text n k h = k refl h
  gated-result false p q text n k h = absurd (cc (n, h))

  mediate_step-result :
      (p : Progress B.State) (text : Text)
      → p.result ≡ none
      → (mediate_step B C call p).result ≡ some text
      → Executed p.outcome text × ((mediate_step B C call p).outcome ≡ p.outcome)
  unfolding mediate_step
  mediate_step-result p text n h =
      gated-result (is_allow p.outcome.outcome_type && call.tool_name ==ˢ vault_tool) p
        (mediate_content B C call p p.content_state) text n
        (λ b r.
          let (allow, vault) =
            and_parts (is_allow p.outcome.outcome_type) (call.tool_name ==ˢ vault_tool) b in
          mediate_content-result p p.content_state text n
            (is_allow-policy_allow p.outcome.outcome_type allow) vault r)
        h

  content_stored-result :
      (o : Outcome) (x : Bool × B.State) → (content_stored B C call o x).result ≡ none
  unfolding content_stored begin
  content_stored-result o (true, s) = refl
  content_stored-result o (false, s) = refl

  store_step-result :
      (o : Outcome) (d : Option Fields) (s : B.State) → (store_step B C call o d s).result ≡ none
  unfolding store_step begin
  store_step-result o none s = refl
  store_step-result o (some d) s = content_stored-result o (B.store_content s call.call_id d)

  recorded-result :
      (p : Progress B.State) (x : Option ℕ × B.State) (text : Text)
      → (recorded B C call p x).result ≡ some text
      → (p.result ≡ some text) × ((recorded B C call p x).outcome ≡ p.outcome)
  unfolding recorded
  recorded-result p (some tx, s) text h = (h, refl)
  recorded-result p (none, s) text h = absurd (cc h)

  record_content-result :
      (p : Progress B.State) (q : Option ContentState) (text : Text)
      → (record_content B C call p q).result ≡ some text
      → (p.result ≡ some text) × ((record_content B C call p q).outcome ≡ p.outcome)
  unfolding record_content
  record_content-result p none text h = (h, refl)
  record_content-result p (some c) text h =
      recorded-result p (B.log_tool_call p.state (record_of B C call p.outcome c)) text h

  record_step-result :
      (p : Progress B.State) (text : Text)
      → (record_step B C call p).result ≡ some text
      → (p.result ≡ some text) × ((record_step B C call p).outcome ≡ p.outcome)
  unfolding record_step
  record_step-result p text h = record_content-result p p.content_state text h

  proceed-result :
      (o : Outcome) (s : B.State) (text : Text)
      → (proceed B C call o s).result ≡ some text
      → Executed (proceed B C call o s).outcome text
  unfolding proceed
  proceed-result o s text h =
      let p : Progress B.State = store_step B C call o (as_dict call.tool_args) s in
      let (some_text, same) = record_step-result (mediate_step B C call p) text h in
      let (ran, like) =
        mediate_step-result p text (store_step-result o (as_dict call.tool_args) s) some_text in
      Executed-moved (sym (same ∙ like)) ran

  status_of-policy_allow : (t : OutcomeType) → t ≡ policy_allow → status_of t ≡ approved
  unfolding status_of
  status_of-policy_allow policy_allow h = refl
  status_of-policy_allow policy_deny h = absurd (cc h)
  status_of-policy_allow schema_deny h = absurd (cc h)
  status_of-policy_allow fault h = absurd (cc h)

  after_query-result :
      (x : Called Outcome × B.State) (r : Response) (text : Text)
      → (after_query B C call x).0 ≡ returned r
      → r.result ≡ some text
      → (r.status ≡ approved) × Executed r.outcome text
  unfolding after_query answer
  after_query-result (crashed, s) r text h e = absurd (cc h)
  after_query-result (returned o, s) r text h e =
      let p : Progress B.State = proceed B C call o s in
      let (st, out, tx, res) = respond-parts B C call p (render_message p.outcome) r h in
      let ran : Executed p.outcome text = proceed-result o s text (sym res ∙ e) in
      (
        st ∙ status_of-policy_allow p.outcome.outcome_type ran.is_allowed,
        Executed-moved (sym out) ran,
      )

  -- A response that holds a result is approved, is for the vault tool, and the result is what that
  -- tool returned, run after the intent record of this call, under the revision of the response's
  -- outcome, was written.
  pub decide-result :
      (s : B.State) (r : Response) (text : Text)
      → (decide B C call s).0 ≡ returned r
      → r.result ≡ some text
      → (r.status ≡ approved) × Executed r.outcome text
  unfolding decide
  decide-result s r text h e =
      after_query-result (query_opa_policy C.validate B.opa C.tools call.tool_name call.tool_args s)
        r text h e
