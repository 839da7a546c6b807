-- ===== src/Tests/Samples.antt =====
-- Concrete parameters: a toy signature scheme, and a service over the one-shot ledger.
use compliance_ail.Common.{
  refl, ap, Bool, true, Option, none, some, [], ◌∷◌, Text, Bytes, codes, bytes_eq, bytes_eq_refl,
}
use compliance_ail.Common.Json.{Json, str, obj, end, field, get}
use compliance_ail.Provenance.{Crypto, IsSound}
use compliance_ail.Verifier.Service.{Service}
use compliance_ail.Verifier.Sequence.{Config}
use compliance_ail.Tests.OneShot.{one_shot}

unfoldable pub text_in : Option Json → Bytes
text_in (some (str s)) = s
text_in _ = []

unfoldable pub unwrap : Text → Option Bytes
unwrap [] = none
unwrap (c ∷ s) = some s

-- Signatures are the signed bytes, and the printed record is its `call_id`.
abbrev pub toy : Crypto
toy = record {
  SigningKey = Unit {0};
  VerifyingKey = Unit {0};
  public_key = λ k. k;
  to_der = λ k. [];
  sha256_hex = λ b. b;
  sign_deterministic = λ k m. m;
  verifies = λ k s m. bytes_eq s m;
  b64encode = λ b. b'=' ∷ b;
  b64decode = unwrap;
  dumps_sorted = λ d. text_in (get "call_id" d);
}

pub toy-IsSound : IsSound toy
unfolding unwrap
toy-IsSound = record {
  verifies-sign = λ k m. bytes_eq_refl m;
  decode-encode = λ b. refl;
  encode-ne-nil = λ b. unfold bytes_eq in refl;
  dumps_order = λ d e same. ap text_in (same "call_id");
}

-- Values are taken for call ids of decision records; one value is a record of a fault.
abbrev pub service : Bool → Service
service lossy = record {
  crypto = toy;
  ledger = one_shot lossy;
  loads =
      λ b. some (obj (field "record_type" (str (codes "decision")) (field "call_id" (str b) end)));
  dumps = λ d. text_in (get "call_id" d);
  decode_replace = λ b. b;
  str_of = λ j. [];
  is_nonzero = λ t. true;
  writer_keys = some (tt, tt);
}

abbrev pub config : Config
config = record { reserved_positions = 1000; max_cas_attempts = 3; seq_cache_enabled = true }
