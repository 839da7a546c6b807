-- ===== src/Tests/Heads.antt =====
-- One head at transaction 5, a log that takes every request, and a control plane that records.
use compliance_ail.Common.{refl, true, Option, none, some, [], ℤ, pos, int_le}
use compliance_ail.Common.Json.{Json, num, str, obj, end, field, get}
use compliance_ail.AnchorService.Anchoring.{
  Services, anchor_once, rounds, tx_of, is_old, request_of, checkpoint_of, sigstore_config,
}
use compliance_ail.AnchorService.Anchoring.Newer.{
  Posted, IsRequest, Increases, anchor_once-Posted, rounds-Increases,
}
use compliance_ail.Tests.Samples.{toy, toy-IsSound}

unfoldable whole_number : Json → Option ℤ
whole_number (num n) = some n
whole_number _ = none

abbrev services : Services toy
services = record {
  Net = Unit {0};
  Time = Unit {0};
  SigstoreConfig = Unit {0};
  int_of = whole_number;
  text_of = λ j. [];
  sha256 = λ b. b;
  is_fresh = λ now fetched. true;
  monotonic = λ n. (tt, n);
  fetch_state = λ n. (
    some (
        field "db" (str []) (
          field "tx_id" (num (pos 5)) (field "tx_hash" (str []) (field "signature" (str []) end)))),
    n,
  );
  fetch_sigstore_config = λ n. (some tt, n);
  discover_log_url = λ n config. some ([], []);
  submit = λ n url request. (some end, n);
  record_anchor = λ n checkpoint external. (some (obj end), n);
}

anchor_once-Posted_example :
    (p : Posted services tt tt (some (pos 3)) none tt (pos 5)) × IsRequest services tt tt
      p.checkpoint
      (request_of services tt tt p.checkpoint)
unfolding anchor_once whole_number tx_of is_old int_le get checkpoint_of sigstore_config
anchor_once-Posted_example =
    anchor_once-Posted services tt tt toy-IsSound refl (some (pos 3)) none tt (pos 5) refl

rounds-Increases_example :
    Increases (some (pos 3)) (rounds services tt tt (λ n. n) 2 (some (pos 3)) none tt)
rounds-Increases_example = rounds-Increases services tt tt (λ n. n) 2 (some (pos 3)) none tt
