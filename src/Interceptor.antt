-- ===== src/Interceptor.antt =====
-- interceptor/middleware.py: the agent's shim, which asks the gateway and passes its answer on. The
-- SPIFFE client, the TLS handshake and HTTP are the parameter `Channel`.
pub mod Closed
use compliance_ail.Common.{
  ℕ, Bool, true, false, not, ◌==◌, Option, none, some, List, [], ◌∷◌, String, Text, codes, bytes_eq,
  if◌then◌else◌,
}
use compliance_ail.Common.Json.{Json, null, bool, num, real, str, arr, obj, Fields}

-- What the peer presented: the handshake or the parsing raised, no certificate, or the URI names of
-- the certificate, none where it has no such extension.
pub data Peer : Type 0 where
  handshake_raised no_certificate : Peer
  uri_sans : List Text → Peer

-- The POST to the gateway; `raised` is an exception that is no `httpx.RequestError`.
pub data Exchange : Type 0 where
  request_error raised : Exchange
  answered : ℕ → Option Json → Exchange

pub record Channel : Type 1 where
  pub Net : Type 0
  pub spire_disabled : Bool
  pub expected_id : Text
  -- `_get_spiffe_ssl_context()` is not None.
  pub ssl_context : Net → Bool × Net
  pub peer : Net → Peer × Net
  pub post : Net → String → Json → Text → Exchange × Net

pub data FaultClass : Type 0 where
  spiffe_unavailable decision_service_unreachable : FaultClass

-- `_client_fault(...)`, the decision of the gateway, or an exception.
pub data Decision : Type 0 where
  client_fault : FaultClass → Decision
  decision : Fields → Decision
  crashed : Decision

unfoldable pub has_uri : Text → List Text → Bool
has_uri id [] = false
has_uri id (x ∷ xs) = if bytes_eq x id then true else has_uri id xs

is_expected : Text → Peer → Bool
unfolding has_uri
is_expected id handshake_raised = false
is_expected id no_certificate = false
is_expected id (uri_sans xs) = has_uri id xs

-- The decision, whose `.get` raises where it is no object.
passed : Option Json → Decision
passed none = client_fault decision_service_unreachable
passed (some null) = crashed
passed (some (bool b)) = crashed
passed (some (num n)) = crashed
passed (some (real r)) = crashed
passed (some (str s)) = crashed
passed (some (arr xs)) = crashed
passed (some (obj d)) = decision d

exchanged : Exchange → Decision
unfolding passed
exchanged request_error = client_fault decision_service_unreachable
exchanged raised = crashed
exchanged (answered status body) =
    if not (status == 200) then client_fault decision_service_unreachable else passed body

module _ (C : Channel) where
  asked : Exchange × C.Net → Decision × C.Net
  unfolding exchanged
  asked (e, n) = (exchanged e, n)

  -- `_validate_peer_spiffe_san`, where mTLS is on.
  validated : String → Json → Text → Peer × C.Net → Decision × C.Net
  unfolding asked is_expected
  validated tool args agent (p, n) =
      if not (is_expected C.expected_id p)
      then (client_fault spiffe_unavailable, n)
      else asked (C.post n tool args agent)

  with_context : String → Json → Text → Bool × C.Net → Decision × C.Net
  unfolding validated
  with_context tool args agent (false, n) = (client_fault spiffe_unavailable, n)
  with_context tool args agent (true, n) = validated tool args agent (C.peer n)

  -- `intercept_tool_call`
  unfoldable pub intercept_tool_call : String → Json → Text → C.Net → Decision × C.Net
  unfolding with_context asked
  intercept_tool_call tool args agent n =
      if C.spire_disabled
      then asked (C.post n tool args agent)
      else with_context tool args agent (C.ssl_context n)
