-- ===== src/Interceptor/Closed.antt =====
-- The shim fails closed: a decision comes only from the gateway, and only after the peer was checked
-- on a connection of its own.
use compliance_ail.Common.{
  ◌≡◌, refl, ◌⊎◌, inl, inr, Bool, true, false, ◌==◌, Option, none, some, List, String, Text, arith,
  Bool-cases,
}
use compliance_ail.Common.Json.{Json, null, bool, num, real, str, arr, obj, Fields}
use compliance_ail.Interceptor.{
  Peer, handshake_raised, no_certificate, uri_sans, Exchange, request_error, raised, answered,
  Channel, decision, has_uri, is_expected, passed, exchanged, asked, validated, with_context,
  intercept_tool_call,
}

passed-decision : (b : Option Json) (d : Fields) → passed b ≡ decision d → b ≡ some (obj d)
unfolding passed
passed-decision none d h = absurd (cc h)
passed-decision (some null) d h = absurd (cc h)
passed-decision (some (bool b)) d h = absurd (cc h)
passed-decision (some (num n)) d h = absurd (cc h)
passed-decision (some (real r)) d h = absurd (cc h)
passed-decision (some (str s)) d h = absurd (cc h)
passed-decision (some (arr xs)) d h = absurd (cc h)
passed-decision (some (obj e)) d h = cc h

exchanged-decision :
    (e : Exchange) (d : Fields) → exchanged e ≡ decision d → e ≡ answered 200 (some (obj d))
unfolding exchanged
exchanged-decision request_error d h = absurd (cc h)
exchanged-decision raised d h = absurd (cc h)
exchanged-decision (answered status body) d h = elim (Bool-cases (status == 200)) [
  | inr other ↦ absurd (ground (arith, other, h))
  | inl fine ↦
      let is_200 : status ≡ 200 = ground (arith, fine) in
      rw (is_200, passed-decision body d (ground (arith, fine, h))) refl
]

is_expected-sans :
    (id : Text) (p : Peer)
    → is_expected id p ≡ true
    → (xs : List Text) × (p ≡ uri_sans xs) × (has_uri id xs ≡ true)
unfolding is_expected
is_expected-sans id handshake_raised h = absurd (cc h)
is_expected-sans id no_certificate h = absurd (cc h)
is_expected-sans id (uri_sans xs) h = (xs, refl, h)

module _ (C : Channel) (tool : String) (args : Json) (agent : Text) (d : Fields) where
  -- Posted from here, the gateway answered this call 200 with this decision.
  pub record Answered (before : C.Net) : Type 0 where
    pub answer : (C.post before tool args agent).0 ≡ answered 200 (some (obj d))

  -- There is a context with a workload identity, the peer of a connection made with it presented the
  -- expected SPIFFE id, and the call was posted from the state that this check left.
  pub record Mutual (n : C.Net) : Type 0 where
    pub names : List Text
    pub has_context : (C.ssl_context n).0 ≡ true
    pub presents : (C.peer (C.ssl_context n).1).0 ≡ uri_sans names
    pub expected : has_uri C.expected_id names ≡ true
    pub posted : Answered (C.peer (C.ssl_context n).1).1

  asked-Answered : (n : C.Net) → (asked C (C.post n tool args agent)).0 ≡ decision d → Answered n
  unfolding asked
  asked-Answered n h = record { answer = exchanged-decision (C.post n tool args agent).0 d h }

  validated-decision :
      (x : Peer × C.Net)
      → (validated C tool args agent x).0 ≡ decision d
      → (is_expected C.expected_id x.0 ≡ true) × Answered x.1
  unfolding validated
  validated-decision (p, n) h = elim (Bool-cases (is_expected C.expected_id p)) [
    | inl fine ↦ (fine, asked-Answered n (ground (arith, fine, h)))
    | inr other ↦ absurd (ground (arith, other, h))
  ]

  with_context-decision :
      (x : Bool × C.Net)
      → (with_context C tool args agent x).0 ≡ decision d
      → (x.0 ≡ true) × (is_expected C.expected_id (C.peer x.1).0 ≡ true) × Answered (C.peer x.1).1
  unfolding with_context
  with_context-decision (false, n) h = absurd (cc h)
  with_context-decision (true, n) h =
      let (fine, answer) = validated-decision (C.peer n) h in (refl, fine, answer)

  -- A decision that the shim returns is the body of an answer 200 of the gateway to this very call.
  -- Where SPIRE is disabled it was posted at once; else there was an SSL context, the peer of a
  -- connection of its own presented the expected SPIFFE id, and the call was posted after that.
  pub intercept_tool_call-decision :
      (n : C.Net)
      → (intercept_tool_call C tool args agent n).0 ≡ decision d
      → ((C.spire_disabled ≡ true) × Answered n) ⊎ ((C.spire_disabled ≡ false) × Mutual n)
  unfolding intercept_tool_call
  intercept_tool_call-decision n h = elim (Bool-cases C.spire_disabled) [
    | inl off ↦ inl (off, asked-Answered n (ground (arith, off, h)))
    | inr on ↦
        let (context, expected, answer) =
          with_context-decision (C.ssl_context n) (ground (arith, on, h)) in
        let (names, presents, has) =
          is_expected-sans C.expected_id (C.peer (C.ssl_context n).1).0 expected in
        inr (
          on,
          record {
            names = names;
            has_context = context;
            presents = presents;
            expected = has;
            posted = answer;
          },
        )
  ]
