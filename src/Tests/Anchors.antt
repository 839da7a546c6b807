-- ===== src/Tests/Anchors.antt =====
-- A platform whose signature on a state is the byte `s`, an anchor that moves once, and two reads.
use compliance_ail.Common.{
  ◌≡◌, refl, sym, ℕ, true, none, some, List, [], ◌∷◌, bytes_eq, if◌then◌else◌, arith,
}
use compliance_ail.Verifier.Ledger.{ok}
use compliance_ail.Verifier.Anchor.{
  State, Loaded, missing, loaded, good, bad_signature, Platform, IsFileSystem, RootService, checked,
  init, get_anchor, set_anchor, Call, calls_get, calls_set, run, put_state, ensure,
}
use compliance_ail.Verifier.Anchor.Checked.{of_signed, of_missing, Trusted, run-Trusted}
use compliance_ail.Verifier.Anchor.Order.{is_steady, Reaches, run-Reaches, init-set_anchor}
use compliance_ail.Verifier.Answers.{AnchorState, Sdk}
use compliance_ail.Verifier.Reads.{verify, held, state_read, state_of}
use compliance_ail.Verifier.Reads.Proved.{Proof, verify-Proof}
use compliance_ail.Verifier.Reads.Pinned.{Unmoved, verify-Unmoved}

abbrev ledger_at : ℕ → State
ledger_at n = record { db = []; tx_id = n; tx_hash = []; signature = b's' ∷ [] }

abbrev platform : Platform
platform = record {
  Key = Unit {0};
  verify = λ k s. if bytes_eq s.signature (b's' ∷ []) then good else bad_signature;
  Files = Loaded;
  load = λ f. f;
  dump = λ f states. (true, loaded states);
  Server = Unit {0};
  current_state = λ v. (ok (ledger_at 9), v);
}

platform-IsFileSystem : IsFileSystem platform
platform-IsFileSystem = record {
  dump_ok = λ f states e. refl;
  dump_raised = λ f states e. absurd (cc e);
}

abbrev at_five : RootService platform
at_five = record {
  verifying_key = some tt;
  dbname = some [];
  cache = some (ledger_at 5);
  files = missing;
  server = tt;
}

at_five-Trusted : Trusted platform at_five
unfolding bytes_eq
at_five-Trusted = record {
  cache_checked =
      λ s e. let same : ledger_at 5 ≡ s = cc e in rw (sym same) (of_signed tt refl refl);
  file_checked = of_missing;
}

abbrev calls : List (Call platform)
calls = calls_get ∷ calls_set (ledger_at 7) ∷ calls_set (ledger_at 6) ∷ []

run-Trusted_example : Trusted platform (run platform at_five calls)
run-Trusted_example = run-Trusted platform platform-IsFileSystem at_five calls at_five-Trusted

run-Reaches_example : Reaches platform 5 (run platform at_five calls)
unfolding is_steady
run-Reaches_example =
    run-Reaches platform 5 at_five calls refl
      (record { anchor = ledger_at 5; cached = refl; not_before = omega arith })

abbrev restarted : RootService platform
restarted = record {
  verifying_key = some tt;
  dbname = none;
  cache = none;
  files = loaded (([], ledger_at 7) ∷ []);
  server = tt;
}

init-set_anchor_example :
    ((init platform restarted []).0 ≡ none)
    × ((init platform restarted []).1.cache ≡ some (ledger_at 7))
    × ((init platform restarted []).1.server ≡ tt)
unfolding set_anchor checked bytes_eq put_state
init-set_anchor_example =
    init-set_anchor platform platform-IsFileSystem at_five restarted (ledger_at 7) [] refl refl refl

-- Every entry is at transaction 4, and the SDK hands the head to `set`.
abbrev sdk : Sdk platform
sdk = record {
  connect = λ r. (ok tt, r);
  client_key = some tt;
  Entry = Unit {0};
  verifiable_get = λ v key tx. (ok tt, v);
  check = λ e s key k. ok (record { tx_id = 4; value = b'v' ∷ []; timestamp = 1 }, ledger_at 9);
  b64decode = λ t. some t;
  details = λ f. [];
  unreported = λ s e g. none;
}

abbrev checkpoint : AnchorState
checkpoint = record { db = []; tx_id = 5; tx_hash = []; signature = some (b's' ∷ []) }

verify-Proof_example :
    Proof sdk
      (b'k' ∷ [])
      (some checkpoint)
      at_five
      (verify sdk (b'k' ∷ []) (some checkpoint) at_five).0.tx_id
unfolding verify state_of bytes_eq state_read held get_anchor ensure
verify-Proof_example = verify-Proof sdk (b'k' ∷ []) (some checkpoint) at_five refl

verify-Unmoved_example : Unmoved sdk at_five (verify sdk (b'k' ∷ []) (some checkpoint) at_five).1
verify-Unmoved_example = verify-Unmoved sdk (b'k' ∷ []) checkpoint at_five (ledger_at 5) refl
