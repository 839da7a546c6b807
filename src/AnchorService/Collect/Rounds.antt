-- ===== src/AnchorService/Collect/Rounds.antt =====
-- How one round of the loop over the pages ends.
use compliance_ail.Common.{
  ◌≡◌, refl, ℕ, suc, true, false, Option, none, some, List, Text, inl, inr, ◌⊎◌, Bool-cases,
  Option-cases, take,
}
use compliance_ail.Common.Json.{Fields}
use compliance_ail.AnchorService.Collect.{
  Host, ViewRead, Answer, lost, refused, entries, Called, raised, returned, Cursor, no_rows,
  unparseable, from, read_rows, cursor, is_last, collect_view, report, zscan_failed,
  unparseable_page_cursor,
}

module _ (H : Host) {Net : Type 0} (zscan : Net → Text → Option H.F → Answer × Net)
    (limit : ℕ) where
  -- A page that was read.
  pub record IsRead (prefix : Text) (min : Option H.F) (answer : Answer) (acc after : ViewRead H.F)
      (rows : List Fields) : Type 0 where
    pub answered : answer ≡ entries rows
    pub read : read_rows H prefix min rows acc ≡ some after

  -- The result of a round, with `fuel` left behind it.
  pub data IsRound (fuel : ℕ) (view prefix : Text) (min : Option H.F) (acc : ViewRead H.F)
      (net : Net) (result : Called (ViewRead H.F)) : Type 0 where
    raises :
        ((zscan net view min).0 ≡ lost)
          ⊎ ((rows : List Fields) × ((zscan net view min).0 ≡ entries rows)
              × (read_rows H prefix min rows acc ≡ none))
        → result ≡ raised
        → IsRound fuel view prefix min acc net result
    stops :
        (v : ViewRead H.F)
        → (n : ℕ) (t : Text) → (zscan net view min).0 ≡ refused n t
        → result ≡ returned v
        → acc.positions ≡ v.positions
        → IsRound fuel view prefix min acc net result
    ends :
        (rows : List Fields) (after v : ViewRead H.F)
        → IsRead prefix min (zscan net view min).0 acc after rows
        → (cursor H rows ≡ no_rows)
          ⊎ (cursor H rows ≡ unparseable)
          ⊎ (is_last H limit rows acc after ≡ true)
        → result ≡ returned v
        → after.positions ≡ v.positions
        → IsRound fuel view prefix min acc net result
    goes_on :
        (rows : List Fields) (after : ViewRead H.F) (s : H.F)
        → IsRead prefix min (zscan net view min).0 acc after rows
        → cursor H rows ≡ from s
        → is_last H limit rows acc after ≡ false
        → result
          ≡ (collect_view H zscan limit fuel view prefix (some s) after (zscan net view min).1).0
        → IsRound fuel view prefix min acc net result

  Answer-cases :
      (a : Answer)
      → (a ≡ lost)
        ⊎ ((n : ℕ) × (t : Text) × (a ≡ refused n t))
        ⊎ ((rows : List Fields) × (a ≡ entries rows))
  Answer-cases lost = inl refl
  Answer-cases (refused n t) = inr (inl (n, t, refl))
  Answer-cases (entries rows) = inr (inr (rows, refl))

  Cursor-cases : (c : Cursor H.F) → (c ≡ no_rows) ⊎ (c ≡ unparseable) ⊎ ((s : H.F) × (c ≡ from s))
  Cursor-cases no_rows = inl refl
  Cursor-cases unparseable = inr (inl refl)
  Cursor-cases (from s) = inr (inr (s, refl))

  pub collect_view-IsRound :
      (fuel : ℕ) (view prefix : Text) (min : Option H.F) (acc : ViewRead H.F) (net : Net)
      → IsRound fuel view prefix min acc net
          (collect_view H zscan limit (suc fuel) view prefix min acc net).0
  unfolding collect_view report
  collect_view-IsRound fuel view prefix min acc net = elim (Answer-cases (zscan net view min).0) [
    | inl a ↦ raises (inl a) (rw (a, collect_view) refl)
    | inr (inl (n, t, a)) ↦
        stops (report H (zscan_failed n (take 200 t)) acc) n t a (rw (a, collect_view) refl) refl
    | inr (inr (rows, a)) ↦ elim (Option-cases (read_rows H prefix min rows acc)) [
      | inl gone ↦ raises (inr (rows, a, gone)) (rw (a, collect_view, gone) refl)
      | inr (after, e) ↦
          let page : IsRead prefix min (zscan net view min).0 acc after rows = record {
            answered = a;
            read = e;
          } in
          elim (Cursor-cases (cursor H rows)) [
            | inl c ↦ ends rows after after page (inl c) (rw (a, collect_view, e, c) refl) refl
            | inr (inl c) ↦
                ends rows after (report H unparseable_page_cursor after) page (inr (inl c))
                  (rw (a, collect_view, e, c) refl) refl
            | inr (inr (s, c)) ↦ elim (Bool-cases (is_last H limit rows acc after)) [
              | inl last ↦
                  ends rows after after page (inr (inr last))
                    (rw (a, collect_view, e, c, last) refl) refl
              | inr more ↦ goes_on rows after s page c more (rw (a, collect_view, e, c, more) refl)
            ]
          ]
    ]
  ]
