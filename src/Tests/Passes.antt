-- ===== src/Tests/Passes.antt =====
-- Passes over a decision view with one row, with natural numbers as scores.
use compliance_ail.Common.{
  ◌≡◌, ◌≢◌, ◌↔◌, refl, sym, ℕ, ◌==◌, ==_iff, ltb, Option, none, some, [], ◌∷◌, Text, codes, pos,
  arith, take, filter, In, inl, inr,
}
use mathlib.Core.Path.{subst}
use compliance_ail.Common.Json.{Json, num, str, obj, end, field, get}
use compliance_ail.AnchorService.Collect.{
  Host, ViewRead, Answer, entries, out_of_fuel, returned, decision_view, decision_prefix, row_key,
  collect_view, empty_read, score_of,
}
use compliance_ail.AnchorService.Collect.Steps.{AreScored}
use compliance_ail.AnchorService.Collect.Ends.{collect_view-ends}
use compliance_ail.AnchorService.Reconcile.{clean, examine}
use compliance_ail.AnchorService.Reconcile.Clean.{IsClean, examine-IsClean}
use compliance_ail.AnchorService.Reconcile.Rows.{Indexed, IsReadable, rows_of, at_least}
use compliance_ail.AnchorService.Reconcile.Full.{collect_view-unclean}

unfoldable natural_score : Json → Option ℕ
natural_score (num (pos n)) = some n
natural_score _ = none

abbrev host : Host
host = record {
  F = ℕ;
  eq = λ a b. a == b;
  lt = ltb;
  is_above = λ reserve s. ltb reserve s;
  as_whole = λ s. some (pos s);
  zero_score = 0;
  parse = natural_score;
  b64decode = some;
  decode_replace = λ b. b;
}

abbrev item : Indexed host
item = record {
  score = 101;
  key = codes "tool_call:a";
  row =
      field "score" (num (pos 101))
        (field "entry" (obj (field "key" (str (codes "tool_call:a")) end)) end);
}

abbrev one_row : Unit {0} → Text → Option ℕ → Answer × Unit {0}
one_row net view min =
    (entries (rows_of host (take 1 (filter (at_least host min) (item ∷ [])))), net)

item-IsReadable : IsReadable host item
unfolding natural_score row_key get
item-IsReadable = record { json = num (pos 101); present_score = refl; parsed = refl; keyed = refl }

collect_view-unclean_example :
    (v : ViewRead ℕ) × ((collect_view host one_row 1 2 decision_view decision_prefix none
        (empty_read host one_row 1)
        tt).0
      ≡ returned v)
    × ((examine host 100 (pos 101) v (empty_read host one_row 1)).state ≢ clean)
collect_view-unclean_example =
    collect_view-unclean host one_row 1 decision_view (item ∷ []) ==_iff
      (record {
        readable = λ x i. elim i [
          | inl e ↦ subst (IsReadable host) (sym e) item-IsReadable
          | inr j ↦ elim j [ ]
        ];
        irreflexive = λ s. ground arith;
        answers = λ n m. refl;
      })
      2 100 decision_prefix (pos 101) (empty_read host one_row 1) tt (omega arith) (omega arith)
      (omega arith)

-- One row, shown again and again.
abbrev repeating : Unit {0} → Text → Option ℕ → Answer × Unit {0}
repeating net view min = (entries (item.row ∷ []), net)

scored : AreScored host (λ s. In s (101 ∷ [])) (item.row ∷ [])
unfolding natural_score score_of get
scored = (λ s h. let e : 101 ≡ s = cc h in inl (sym e), tt)

collect_view-ends_example :
    (collect_view host repeating 1 2 decision_view decision_prefix none
      (empty_read host repeating 1)
      tt).0
    ≢ out_of_fuel
collect_view-ends_example =
    collect_view-ends host ==_iff repeating 1 (101 ∷ []) decision_view
      (λ n m rows e.
        let same_rows : item.row ∷ [] ≡ rows = cc e in
        subst (AreScored host (λ s. In s (101 ∷ []))) same_rows scored)
      2 decision_prefix tt (omega arith)

examine-IsClean_example :
    ((examine host 100
        (pos 101)
        (record { positions = (101, codes "tool_call:a" ∷ []) ∷ []; foreign = []; malformed = [] })
        (empty_read host one_row 1)).state
      ≡ clean)
    ↔ IsClean host 100
        (pos 101)
        (record { positions = (101, codes "tool_call:a" ∷ []) ∷ []; foreign = []; malformed = [] })
        (empty_read host one_row 1)
examine-IsClean_example =
    examine-IsClean host 100 ==_iff (pos 101)
      (record { positions = (101, codes "tool_call:a" ∷ []) ∷ []; foreign = []; malformed = [] })
      (empty_read host one_row 1)
