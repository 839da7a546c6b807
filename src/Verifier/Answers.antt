-- ===== src/Verifier/Answers.antt =====
-- The shapes of the read routes of verifier/main.py: the requests, the responses and the causes of a
-- failure. The SDK's proof check and the base64 decoder are the parameter `Sdk`; transaction ids are
-- naturals.
use compliance_ail.Common.{
  ℕ, Bool, length, drop, starts_with, ◌-◌, [], Option, none, some, Text, Bytes,
}
use compliance_ail.Verifier.Ledger.{FailureKind, other_error, Failure, Reply}
use compliance_ail.Verifier.Anchor.{State, Platform, Unverified, RootService, raised}

-- `AnchorState`, the checkpoint that a caller supplies.
pub record AnchorState : Type 0 where
  pub db : Text
  pub tx_id : ℕ
  pub tx_hash : Text
  pub signature : Option Text

-- What the SDK returns for a proved entry.
pub record SafeGet : Type 0 where
  pub tx_id : ℕ
  pub value : Bytes
  pub timestamp : ℕ

pub record Sdk (P : Platform) : Type 1 where
  -- `_get_client()`, whose login calls `init` of the root service.
  pub connect : RootService P → Reply (Unit {0}) × RootService P
  -- `client._vk`
  pub client_key : Option P.Key
  pub Entry : Type 0
  pub verifiable_get : P.Server → Bytes → ℕ → Reply Entry × P.Server
  -- `verifiedGet.call` on a fetched entry: the checks from this source state, and the state that it
  -- hands to `set` of the root service.
  pub check : Entry → State → Bytes → Option P.Key → Reply (SafeGet × State)
  pub b64decode : Text → Option Bytes
  -- `exc.details()`
  pub details : Failure → Text
  -- The exception that building `ProofMaterial` raises, if it raises one.
  pub unreported : State → Entry → SafeGet → Option Failure

pub data Cause : Type 0 where
  client : Failure → Cause
  root : Unverified → Cause
  -- The root service holds no state, or base64 does not decode.
  no_state not_decoded : Cause

pub data ErrorClass : Type 0 where
  anchor_signature_failure anchor_precedes_record : ErrorClass
  consistency_failure signature_failure not_found unknown : ErrorClass

pub data Source : Type 0 where
  head anchor : Source

pub data ReadStatus : Type 0 where
  ok_read unchecked : ReadStatus
  unavailable : Cause → ReadStatus

pub record StateRead : Type 0 where
  pub source : Source
  pub status : ReadStatus

-- `ProofMaterial`, less its constants and the fingerprint of the key.
pub record Material (E : Type 0) : Type 0 where
  pub source_state : State
  pub verifiable_entry : E
  pub prove_since_tx : ℕ
  pub entry_tx_id : ℕ

pub record VerifyResponse (E : Type 0) : Type 0 where
  pub verified : Bool
  pub tx_id : Option ℕ
  pub value : Option Bytes
  pub timestamp : Option ℕ
  pub state_id : Option ℕ
  pub error_class : Option ErrorClass
  pub cause : Option Cause
  pub proof_material : Option (Material E)
  pub state_read : Option StateRead

-- `signature or ""`
unfoldable pub or_empty : Option Text → Text
or_empty none = []
or_empty (some t) = t

-- `str.endswith`
unfoldable pub ends_with : Text → Text → Bool
ends_with t suffix = starts_with (drop (length t - length suffix) t) suffix

-- The class of the exception.
unfoldable pub kind_of : Cause → FailureKind
kind_of (client f) = f.kind
kind_of (root (raised f)) = f.kind
kind_of (root Unverified.no_key) = other_error
kind_of (root Unverified.not_signed) = other_error
kind_of (root (Unverified.moves_backwards a b)) = other_error
kind_of (root Unverified.not_written) = other_error
kind_of no_state = other_error
kind_of not_decoded = other_error
