-- ===== src/Client/Writes.antt =====
-- A write that the client reports was signed, posted, and answered as verified.
use compliance_ail.Common.{
  ◌≡◌, refl, true, Option, none, some, inl, inr, String, Text, Bytes, codes, encode, arith,
  Bool-cases,
}
use compliance_ail.Common.Json.{Json, null, bool, num, real, str, arr, obj, Fields, get}
use compliance_ail.Provenance.{Crypto, IsSound, sign_record, verify_record}
use compliance_ail.Provenance.Laws.{verify_record-sign_record}
use compliance_ail.Decision.Policy.{returned}
use compliance_ail.Decision.Decide.{Intent, CallRecord}
use compliance_ail.Client.{
  Posted, post_raised, body, Wire, decision_entry, intent_entry, record_key, is_truthy, verified_tx,
  answered_tx, answered, post_record, sign_and_post, log_tool_call, log_tool_intent,
}

module _ {C : Crypto} (W : Wire C) where
  -- This entry was signed into a record that its key accepts, posted to the view under the key's
  -- bytes, and answered with a body that says verified and names this transaction.
  pub record Written (entry : Fields) (key : Text) (view : String) (n : W.Net) (tx : Json)
      : Type 0 where
    pub signing : C.SigningKey
    pub key_bytes : Bytes
    pub answer : Fields
    pub verdict : Json
    pub accepted :
        verify_record C (sign_record C entry signing (C.public_key signing)) (C.public_key signing)
        ≡ true
    pub encoded : encode key ≡ some key_bytes
    pub exchanged :
        (W.post n
          (C.b64encode key_bytes)
          (C.b64encode (W.dumps (sign_record C entry signing (C.public_key signing))))
          view).0
        ≡ body (some (obj answer))
    pub says_verified : get "verified" answer ≡ some verdict
    pub holds : is_truthy W verdict ≡ true
    pub names : get "tx_id" answer ≡ some tx

  -- The answer that names a transaction.
  record Said (p : Posted) (tx : Json) : Type 0 where
    answer : Fields
    verdict : Json
    is_body : p ≡ body (some (obj answer))
    says_verified : get "verified" answer ≡ some verdict
    holds : is_truthy W verdict ≡ true
    names : get "tx_id" answer ≡ some tx

  verified_tx-returned :
      (v t : Option Json) (tx : Json)
      → verified_tx W v t ≡ returned tx
      → (verdict : Json) × (v ≡ some verdict) × (is_truthy W verdict ≡ true) × (t ≡ some tx)
  unfolding verified_tx
  verified_tx-returned none t tx h = absurd (cc h)
  verified_tx-returned (some v) none tx h = absurd (cc h)
  verified_tx-returned (some v) (some t) tx h = elim (Bool-cases (is_truthy W v)) [
    | inl yes_true ↦ (v, refl, yes_true, ground (arith, yes_true, h))
    | inr not_true ↦ absurd (ground (arith, not_true, h))
  ]

  answered_tx-Said : (p : Posted) (tx : Json) → answered_tx W p ≡ returned tx → Said p tx
  unfolding answered_tx
  answered_tx-Said post_raised tx h = absurd (cc h)
  answered_tx-Said (body none) tx h = absurd (cc h)
  answered_tx-Said (body (some null)) tx h = absurd (cc h)
  answered_tx-Said (body (some (bool b))) tx h = absurd (cc h)
  answered_tx-Said (body (some (num m))) tx h = absurd (cc h)
  answered_tx-Said (body (some (real r))) tx h = absurd (cc h)
  answered_tx-Said (body (some (str s))) tx h = absurd (cc h)
  answered_tx-Said (body (some (arr xs))) tx h = absurd (cc h)
  answered_tx-Said (body (some (obj d))) tx h =
      let (verdict, says, holds, names) =
        verified_tx-returned (get "verified" d) (get "tx_id" d) tx h in
      record {
        answer = d;
        verdict = verdict;
        is_body = refl;
        says_verified = says;
        holds = holds;
        names = names;
      }

  post_record-Said :
      (k : Option Bytes) (signed : Fields) (view : String) (n : W.Net) (tx : Json)
      → (post_record W k signed view n).0 ≡ returned tx
      → (b : Bytes) × (k ≡ some b)
        × Said (W.post n (C.b64encode b) (C.b64encode (W.dumps signed)) view).0 tx
  unfolding post_record answered
  post_record-Said none signed view n tx h = absurd (cc h)
  post_record-Said (some b) signed view n tx h = (
    b,
    refl,
    answered_tx-Said (W.post n (C.b64encode b) (C.b64encode (W.dumps signed)) view).0 tx h,
  )

  sign_and_post-Written :
      (S : IsSound C) (k : Option C.SigningKey) (key : Text) (entry : Fields) (view : String)
      (n : W.Net) (tx : Json)
      → (sign_and_post W k key entry view n).0 ≡ returned tx
      → Written entry key view n tx
  unfolding sign_and_post
  sign_and_post-Written S none key entry view n tx h = absurd (cc h)
  sign_and_post-Written S (some sk) key entry view n tx h =
      let signed : Fields = sign_record C entry sk (C.public_key sk) in
      let (b, encoded, said) = post_record-Said (encode key) signed view n tx h in
      record {
        signing = sk;
        key_bytes = b;
        answer = said.answer;
        verdict = said.verdict;
        accepted = verify_record-sign_record C S entry sk;
        encoded = encoded;
        exchanged = said.is_body;
        says_verified = said.says_verified;
        holds = said.holds;
        names = said.names;
      }

  -- Over sound signatures, a transaction that `log_tool_call` returns was named by an answer that says
  -- verified, to a POST of that very decision, signed so that its key accepts it, to the view
  -- "decision" under a key that starts with "tool_call:".
  pub log_tool_call-Written :
      (S : IsSound C) (r : CallRecord) (timestamp nonce : Text) (n : W.Net) (tx : Json)
      → (log_tool_call W r timestamp nonce n).0 ≡ returned tx
      → Written
          (decision_entry r timestamp)
          (record_key (codes "tool_call:") r.agent_id nonce r.tool_name)
          "decision"
          n
          tx
  unfolding log_tool_call
  log_tool_call-Written S r timestamp nonce n tx h =
      sign_and_post-Written S W.writer_key
        (record_key (codes "tool_call:") r.agent_id nonce r.tool_name) (decision_entry r timestamp)
        "decision" n tx h

  -- Over sound signatures, a transaction that `log_tool_intent` returns was named by an answer that
  -- says verified, to a POST of that very intent, signed so that its key accepts it, to the view
  -- "intent" under a key that starts with "tool_call_intent:".
  pub log_tool_intent-Written :
      (S : IsSound C) (i : Intent) (timestamp nonce : Text) (n : W.Net) (tx : Json)
      → (log_tool_intent W i timestamp nonce n).0 ≡ returned tx
      → Written
          (intent_entry i timestamp)
          (record_key (codes "tool_call_intent:") i.agent_id nonce i.tool_name)
          "intent"
          n
          tx
  unfolding log_tool_intent
  log_tool_intent-Written S i timestamp nonce n tx h =
      sign_and_post-Written S W.writer_key
        (record_key (codes "tool_call_intent:") i.agent_id nonce i.tool_name)
        (intent_entry i timestamp) "intent" n tx h
