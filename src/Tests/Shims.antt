-- ===== src/Tests/Shims.antt =====
-- A gateway that approves, behind a peer with the expected name.
use compliance_ail.Common.{◌≡◌, refl, ◌⊎◌, true, false, some, [], ◌∷◌, bytes_eq}
use compliance_ail.Common.Json.{obj, str, Fields, end, field}
use compliance_ail.Interceptor.{Channel, uri_sans, answered, intercept_tool_call, has_uri}
use compliance_ail.Interceptor.Closed.{Answered, Mutual, intercept_tool_call-decision}

abbrev approval : Fields
approval = field "status" (str (b'A' ∷ [])) end

abbrev channel : Channel
channel = record {
  Net = Unit {0};
  spire_disabled = false;
  expected_id = b'e' ∷ [];
  ssl_context = λ n. (true, n);
  peer = λ n. (uri_sans ((b'e' ∷ []) ∷ []), n);
  post = λ n tool args agent. (answered 200 (some (obj approval)), n);
}

intercept_tool_call-decision_example :
    ((false ≡ true) × Answered channel "t" (obj end) [] approval tt)
    ⊎ ((false ≡ false) × Mutual channel "t" (obj end) [] approval tt)
unfolding intercept_tool_call has_uri bytes_eq
intercept_tool_call-decision_example =
    intercept_tool_call-decision channel "t" (obj end) [] approval tt refl
