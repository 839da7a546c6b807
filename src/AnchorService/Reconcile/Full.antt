-- ===== src/AnchorService/Reconcile/Full.antt =====
-- A view that fills a page never reads clean: the next page starts at the last page's last score, so a
-- row of it is read again, and its key stands at two places.
use compliance_ail.Common.{
  ◌≡◌, ◌≢◌, refl, ap, ◌↔◌, ℕ, zero, suc, ◌≤◌, ◌<◌, true, Option, none, List, [], ◌∷◌, Text, arith,
  inl, inr, ◌⊎◌, length, filter, In, In-filter, ℤ,
}
use mathlib.Core.Path.{subst}
use compliance_ail.Common.Json.{get}
use compliance_ail.AnchorService.Collect.{
  Host, ViewRead, Answer, Called, raised, out_of_fuel, returned, collect_view, empty_read,
}
use compliance_ail.AnchorService.Collect.Steps.{AreScored}
use compliance_ail.AnchorService.Collect.Ends.{IsBounded, collect_view-ends}
use compliance_ail.AnchorService.Reconcile.{clean, examine}
use compliance_ail.AnchorService.Reconcile.Clean.{examine-IsClean}
use compliance_ail.AnchorService.Reconcile.Rows.{Indexed, rows_of, at_least, score_of-some}
use compliance_ail.AnchorService.Reconcile.Pages.{
  IsServed, In-take, page, collect_view-returns, first_page,
}

module _ (H : Host) where
  module _ {Net : Type 0} (zscan : Net → Text → Option H.F → Answer × Net) (limit : ℕ) (view : Text)
      (held : List (Indexed H)) where
    scores_of : List (Indexed H) → List H.F
    scores_of [] = []
    scores_of (x ∷ xs) = x.score ∷ scores_of xs

    length-scores_of : (xs : List (Indexed H)) → length (scores_of xs) ≡ length xs
    unfolding scores_of
    length-scores_of [] = refl
    length-scores_of (x ∷ xs) = ap suc (length-scores_of xs)

    In-scores_of : (xs : List (Indexed H)) (x : Indexed H) → In x xs → In x.score (scores_of xs)
    unfolding scores_of
    In-scores_of [] x i = elim i [ ]
    In-scores_of (y ∷ xs) x (inl e) = inl (ap (λ q. q.score) e)
    In-scores_of (y ∷ xs) x (inr i) = inr (In-scores_of xs x i)

    AreScored-held :
        (I : IsServed H zscan limit view held) (xs : List (Indexed H))
        → ((x : Indexed H) → In x xs → In x held)
        → AreScored H (λ s. In s (scores_of held)) (rows_of H xs)
    AreScored-held I [] h = tt
    AreScored-held I (x ∷ xs) h = (
      λ s e.
          let r = I.readable x (h x (inl refl)) in
          let same_score : x.score ≡ s =
            cc (e, score_of-some H (get "score" x.row) r.json r.present_score, r.parsed) in
          subst (λ k. In k (scores_of held)) same_score (In-scores_of held x (h x (inl refl))),
      AreScored-held I xs (λ y i. h y (inr i)),
    )

    Called-cases :
        (c : Called (ViewRead H.F))
        → (c ≡ raised) ⊎ (c ≡ out_of_fuel) ⊎ ((v : ViewRead H.F) × (c ≡ returned v))
    Called-cases raised = inl refl
    Called-cases out_of_fuel = inr (inl refl)
    Called-cases (returned v) = inr (inr (v, refl))

    -- Where a view stays as it is, can be read, and has as many rows as a page H zscan limit view held or more, its pages are
    -- collected within one round more than it has rows, and no pass over what was collected for the
    -- decision view reads clean, whatever the view holds, the counter, the reserve and the other view.
    pub collect_view-unclean :
        (eq_iff : (a b : H.F) → (H.eq a b ≡ true) ↔ (a ≡ b)) (I : IsServed H zscan limit view held)
        (fuel reserve : ℕ) (prefix : Text) (allocated : ℤ) (other : ViewRead H.F) (net : Net)
        → 0 < limit
        → limit ≤ length held
        → length held < fuel
        → (v : ViewRead H.F) × ((collect_view H zscan limit fuel view prefix none
              (empty_read H zscan limit)
              net).0
            ≡ returned v)
          × ((examine H reserve allocated v other).state ≢ clean)
    unfolding page
    collect_view-unclean eq_iff I zero reserve prefix allocated other net l full f =
        absurd (omega (arith, f))
    collect_view-unclean eq_iff I (suc zero) reserve prefix allocated other net l full f =
        absurd (omega (arith, l, full, f))
    collect_view-unclean eq_iff I (suc (suc fuel)) reserve prefix allocated other net l full f =
        let result =
          collect_view H zscan limit (suc (suc fuel)) view prefix none (empty_read H zscan limit)
            net in
        let count = length-scores_of held in
        let bounded_by : IsBounded H eq_iff zscan limit view (scores_of held) = λ n min rows a.
          let same_rows : rows_of H (page H zscan limit view held min) ≡ rows =
            cc (a, I.answers n min) in
          subst (AreScored H (λ s. In s (scores_of held))) same_rows (
            AreScored-held I (page H zscan limit view held min) (λ x i.
              ((In-filter (at_least H min) x held).0
                (In-take H zscan limit view held limit (filter (at_least H min) held) x i)).0)) in
        elim (Called-cases result.0) [
          | inl gone ↦ absurd (
              collect_view-returns H zscan limit view held I (suc (suc fuel)) prefix none
                (empty_read H zscan limit) net gone)
          | inr (inl out) ↦ absurd (
              collect_view-ends H eq_iff zscan limit (scores_of held) view bounded_by
                (suc (suc fuel)) prefix net (omega (arith, count, f)) out)
          | inr (inr (v, e)) ↦ (
            v,
            e,
            λ reads_clean.
                first_page H zscan limit view held I fuel prefix v net l full e
                  ((examine-IsClean H reserve eq_iff allocated v other).0 reads_clean).once.0,
          )
        ]
