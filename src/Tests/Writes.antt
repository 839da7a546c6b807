-- ===== src/Tests/Writes.antt =====
-- The write routes over the one-shot ledger.
use compliance_ail.Common.{
  ◌≡◌, refl, ℕ, Bool, true, false, Option, none, some, [], ◌∷◌, codes, Text, pos, below, show,
  starts_with, bytes_eq, contains,
}
use compliance_ail.Common.Json.{is_text, get}
use compliance_ail.Verifier.Ledger.{ExecAllRequest, is_precondition_failed}
use compliance_ail.Verifier.Reserve.{max_position}
use compliance_ail.Verifier.Sequence.{
  World, Counter, ordered_commit, commit_request, sequence_key, budget_exhausted, client, attempt,
  read_bound_reserve, observe, record_key_present,
}
use compliance_ail.Verifier.Sequence.Recorded.{Recorded}
use compliance_ail.Verifier.Sequence.Positions.{Follows, ordered_commit-successor}
use compliance_ail.Verifier.Service.{refuse_ordered, committed_tx_for_value}
use compliance_ail.Verifier.Routes.Shapes.{Response, Answer, plain_response, text_of, response_lost}
use compliance_ail.Verifier.Routes.Ordered.{write_ordered, committed_position_for}
use compliance_ail.Verifier.Routes.Ordered.Denials.{write_ordered-denies}
use compliance_ail.Verifier.Routes.Ordered.Facts.{write_ordered-confirms}
use compliance_ail.Tests.OneShot.{one_shot, one_shot-IsLedger, one_get, one_exec, entry_of, timeout}
use compliance_ail.Tests.Samples.{service, config, unwrap}

abbrev key64 : Text
key64 = b'=' ∷ b'k' ∷ []

abbrev value64 : Text
value64 = b'=' ∷ b'v' ∷ []

abbrev empty : (lossy : Bool) → World (one_shot lossy)
empty lossy = record { db = none; seq_cache = none; reserve_cache = none }

-- One write, and with it all that a run of it computes.
run : (lossy : Bool) → World (one_shot lossy) → Answer
unfolding write_ordered one_get one_exec ordered_commit commit_request codes unwrap entry_of
    refuse_ordered starts_with is_text get bytes_eq attempt read_bound_reserve observe
    is_precondition_failed contains record_key_present committed_tx_for_value committed_position_for
run lossy w = (write_ordered (service lossy) config key64 value64 "decision" [] [] w).0

-- A ledger that already took another transaction, so that it refuses every request.
abbrev taken : World (one_shot false)
taken = record {
  db = some (record { operations = []; preconditions = [] });
  seq_cache = none;
  reserve_cache = none;
}

abbrev given_up : Response
given_up = record (plain_response (some false) (text_of (budget_exhausted 3))) { attempts = 3 }

write_ordered-denies_example :
    (one_shot-IsLedger false).applied
      (write_ordered (service false) config key64 value64 "decision" [] [] taken).1.db
    ≡ (one_shot-IsLedger false).applied taken.db
unfolding run
write_ordered-denies_example =
    write_ordered-denies (service false) (one_shot-IsLedger false) config key64 value64 "decision"
      [] [] taken given_up refl refl

-- The answer of a lossy ledger is lost, and the record is found by the read-back.
abbrev recovered : Response
recovered = record (plain_response (some true) (response_lost (client timeout) 7 none)) {
  tx_id = some 7;
  attempts = 1;
}

write_ordered-confirms_example :
    (tx : ℕ) × (recovered.tx_id ≡ some tx)
    × (one_shot-IsLedger true).Holds
        (write_ordered (service true) config key64 value64 "decision" [] [] (empty true)).1.db
        (b'k' ∷ [])
        (b'v' ∷ [])
        tx
unfolding run
write_ordered-confirms_example =
    write_ordered-confirms (service true) (one_shot-IsLedger true) (b'k' ∷ []) (b'v' ∷ []) config
      key64 value64 "decision" [] [] (empty true) recovered refl refl refl refl

-- The first commit of a ledger takes the position above the reserve.
abbrev after_first : World (one_shot false)
after_first = record {
  db = some (commit_request config (b'k' ∷ []) (b'v' ∷ []) [] none none);
  seq_cache = some (record { seq = pos 1001; tx = 7 });
  reserve_cache = some 1000;
}

ordered_commit-successor_example :
    (below (pos 1001) max_position ≡ true)
    × (one_shot-IsLedger false).Holds after_first.db sequence_key (show (pos 1001)) 7
    × ((before : Option ExecAllRequest) × (bound : Option ℕ) × (c : Option Counter)
        × (after_first.db
            ≡ ((one_shot false).exec_all before
                (commit_request config (b'k' ∷ []) (b'v' ∷ []) [] bound c)).1)
        × Follows
            (one_shot false)
            (one_shot-IsLedger false)
            config
            (b'k' ∷ [])
            (b'v' ∷ [])
            []
            before
            (pos 1001)
            c)
    × Recorded (one_shot false) (one_shot-IsLedger false) after_first.db after_first.seq_cache
unfolding run
ordered_commit-successor_example =
    ordered_commit-successor (one_shot false) (one_shot-IsLedger false) config (b'k' ∷ [])
      (b'v' ∷ []) [] (empty false) after_first 7 (pos 1001) 1 tt refl
