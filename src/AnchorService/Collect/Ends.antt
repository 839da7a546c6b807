-- ===== src/AnchorService/Collect/Ends.antt =====
-- The loop over the pages of a view ends.
use compliance_ail.Common.{
  ◌≡◌, refl, sym, ap, ◌∙◌, ◌↔◌, ℕ, zero, suc, ◌+◌, ◌≤◌, ◌<◌, Bool, true, false, not, ◌||◌, Option,
  none, some, List, [], ◌∷◌, ◌++◌, Text, arith, inl, inr, ◌≢◌, Bool-cases, length, length-append,
  has, minus, filter, In, if◌then◌else◌,
}
use mathlib.Core.Path.{subst}
use compliance_ail.Common.Json.{Fields}
use compliance_ail.AnchorService.Collect.{
  Host, ViewRead, Answer, entries, out_of_fuel, add_key, scores, is_last, collect_view, empty_read,
}
use compliance_ail.AnchorService.Collect.Rounds.{raises, stops, ends, goes_on, collect_view-IsRound}
use compliance_ail.AnchorService.Collect.Steps.{
  IsAdded, same, and_key, AreScored, read_rows-IsAdded,
}

module _ (H : Host) (eq_iff : (a b : H.F) → (H.eq a b ≡ true) ↔ (a ≡ b)) where
  has-snoc : (y s : H.F) (xs : List H.F) → has H.eq y (xs ++ s ∷ []) ≡ (has H.eq y xs || H.eq y s)
  unfolding has
  has-snoc y s [] = elim (Bool-cases (H.eq y s)) [ inl e ↦ rw e refl | inr e ↦ rw e refl ]
  has-snoc y s (x ∷ xs) = elim (Bool-cases (H.eq y x)) [
    | inl e ↦ rw e refl
    | inr e ↦ rw e (has-snoc y s xs)
  ]

  minus-snoc :
      (s : H.F) (all xs : List H.F)
      → length (minus H.eq all (xs ++ s ∷ [])) ≤ length (minus H.eq all xs)
  unfolding minus filter
  minus-snoc s [] xs = omega arith
  minus-snoc s (y ∷ all) xs =
      let later = minus-snoc s all xs in
      elim (Bool-cases (has H.eq y xs)) [
        | inl old ↦ rw (has-snoc y s xs, old) later
        | inr new ↦ elim (Bool-cases (H.eq y s)) [
          | inl e ↦ rw (has-snoc y s xs, new, e) (omega (arith, later))
          | inr e ↦ rw (has-snoc y s xs, new, e) (omega (arith, later))
        ]
      ]

  minus-less :
      (s : H.F) (all xs : List H.F)
      → In s all
      → has H.eq s xs ≡ false
      → length (minus H.eq all (xs ++ s ∷ [])) < length (minus H.eq all xs)
  unfolding minus filter
  minus-less s [] xs i h = elim i [ ]
  minus-less s (y ∷ all) xs (inl e) h =
      let later = minus-snoc s all xs in
      let new : has H.eq y xs ≡ false = subst (λ z. has H.eq z xs ≡ false) e h in
      let equal : H.eq y s ≡ true = (eq_iff y s).1 (sym e) in
      rw (has-snoc y s xs, new, equal) (omega (arith, later))
  minus-less s (y ∷ all) xs (inr i) h =
      let later = minus-less s all xs i h in
      elim (Bool-cases (has H.eq y xs)) [
        | inl old ↦ rw (has-snoc y s xs, old) later
        | inr new ↦ elim (Bool-cases (H.eq y s)) [
          | inl e ↦ rw (has-snoc y s xs, new, e) (omega (arith, later))
          | inr e ↦ rw (has-snoc y s xs, new, e) (omega (arith, later))
        ]
      ]

  eq-flip : (a b : H.F) → H.eq a b ≡ H.eq b a
  eq-flip a b = elim (Bool-cases (H.eq a b)) [
    | inl e ↦ e ∙ sym ((eq_iff b a).1 (sym ((eq_iff a b).0 e)))
    | inr e ↦ elim (Bool-cases (H.eq b a)) [
      | inl f ↦ absurd (ground (arith, e, (eq_iff a b).1 (sym ((eq_iff b a).0 f))))
      | inr f ↦ e ∙ sym f
    ]
  ]

  -- A key at a score that is there leaves the scores as they are; another score is put behind them.
  scores-add_key :
      (s : H.F) (k : Text) (ps : List (H.F × List Text))
      → scores H (add_key H s k ps)
        ≡ (if has H.eq s (scores H ps) then scores H ps else scores H ps ++ s ∷ [])
  unfolding scores add_key has
  scores-add_key s k [] = refl
  scores-add_key s k ((t, keys) ∷ ps) = elim (Bool-cases (H.eq t s)) [
    | inl e ↦ rw (eq-flip s t, e) refl
    | inr e ↦ elim (Bool-cases (has H.eq s (scores H ps))) [
      | inl old ↦ rw (eq-flip s t, e, scores-add_key s k ps, old) refl
      | inr new ↦ rw (eq-flip s t, e, scores-add_key s k ps, new) refl
    ]
  ]

  length-scores : (ps : List (H.F × List Text)) → length (scores H ps) ≡ length ps
  unfolding scores
  length-scores [] = refl
  length-scores ((s, keys) ∷ ps) = ap suc (length-scores ps)

  length-filter : (p : H.F → Bool) (xs : List H.F) → length (filter p xs) ≤ length xs
  unfolding filter
  length-filter p [] = omega arith
  length-filter p (x ∷ xs) =
      let later = length-filter p xs in
      elim (Bool-cases (p x)) [
        | inl e ↦ rw e (omega (arith, later))
        | inr e ↦ rw e (omega (arith, later))
      ]

  -- The scores of `all` at which nothing is held yet.
  left : List H.F → List (H.F × List Text) → ℕ
  left all ps = length (minus H.eq all (scores H ps))

  -- A new score of `all` takes one of those that are left.
  add_key-left :
      (all : List H.F) (s : H.F) (k : Text) (ps : List (H.F × List Text))
      → In s all
      → (length ps ≤ length (add_key H s k ps))
        × (length (add_key H s k ps) + left all (add_key H s k ps) ≤ length ps + left all ps)
  unfolding left
  add_key-left all s k ps i =
      let here = length-scores ps in
      let there = length-scores (add_key H s k ps) in
      elim (Bool-cases (has H.eq s (scores H ps))) [
        | inl old ↦
            let kept : scores H (add_key H s k ps) ≡ scores H ps =
              scores-add_key s k ps
              ∙ ap (λ b. if b then scores H ps else scores H ps ++ s ∷ []) old in
            let long = ap (λ xs. length xs) kept in
            let count = ap (λ xs. length (minus H.eq all xs)) kept in
            (omega (arith, here, there, long), omega (arith, here, there, long, count))
        | inr new ↦
            let grown : scores H (add_key H s k ps) ≡ scores H ps ++ s ∷ [] =
              scores-add_key s k ps
              ∙ ap (λ b. if b then scores H ps else scores H ps ++ s ∷ []) new in
            let long = ap (λ xs. length xs) grown ∙ length-append (scores H ps) (s ∷ []) in
            let count = ap (λ xs. length (minus H.eq all xs)) grown in
            let fewer = minus-less s all (scores H ps) i new in
            (omega (arith, here, there, long), omega (arith, here, there, long, count, fewer))
      ]

  IsAdded-left :
      (all : List H.F) {ps qs : List (H.F × List Text)}
      → IsAdded H (λ s. In s all) ps qs
      → (length ps ≤ length qs) × (length qs + left all qs ≤ length ps + left all ps)
  IsAdded-left all same = (omega arith, omega arith)
  IsAdded-left all (and_key {ps} {qs} s k i rest) =
      let (longer, fewer) = add_key-left all s k ps i in
      let (longer', fewer') = IsAdded-left all rest in
      (omega (arith, longer, longer'), omega (arith, fewer, fewer'))

  module _ {Net : Type 0} (zscan : Net → Text → Option H.F → Answer × Net) (limit : ℕ) where
    -- Every page of the view consists of rows whose scores, where they parse, are in this list.
    abbrev pub IsBounded : Text → List H.F → Type 0
    IsBounded view all =
        (net : Net) (min : Option H.F) (rows : List Fields)
        → (zscan net view min).0 ≡ entries rows
        → AreScored H (λ s. In s all) rows

    -- A page that is not the last has brought a new score.
    is_last-grows :
        (rows : List Fields) (acc after : ViewRead H.F)
        → is_last H limit rows acc after ≡ false
        → length after.positions ≢ length acc.positions
    unfolding is_last
    is_last-grows rows acc after h = λ e. ground (arith, h, e)

    collect_view-left :
        (all : List H.F) (view : Text)
        → IsBounded view all
        → (fuel : ℕ) (prefix : Text) (min : Option H.F) (acc : ViewRead H.F) (net : Net)
        → left all acc.positions < fuel
        → (collect_view H zscan limit fuel view prefix min acc net).0 ≢ out_of_fuel
    unfolding collect_view
    collect_view-left all view B zero prefix min acc net f = absurd (omega (arith, f))
    collect_view-left all view B (suc fuel) prefix min acc net f =
        elim (collect_view-IsRound H zscan limit fuel view prefix min acc net) [
          | raises w r ↦ λ e. absurd (cc (r, e))
          | stops v n t a r p ↦ λ e. absurd (cc (r, e))
          | ends rows after v page w r p ↦ λ e. absurd (cc (r, e))
          | goes_on rows after s page c more r ↦ λ e.
              let added =
                read_rows-IsAdded H prefix min rows acc after (B net min rows page.answered)
                  page.read in
              let (longer, fewer) = IsAdded-left all added in
              let grown = is_last-grows rows acc after more in
              collect_view-left all view B fuel prefix (some s) after (zscan net view min).1
                (omega (arith, f, longer, fewer, grown)) (sym r ∙ e)
        ]

    -- Where equality of floats is an equation and the server's rows take their scores from a list, the
    -- pages of a view come to an end: with more fuel than that list is long, the loop never runs out.
    pub collect_view-ends :
        (all : List H.F) (view : Text)
        → IsBounded view all
        → (fuel : ℕ) (prefix : Text) (net : Net) → length all < fuel
        → (collect_view H zscan limit fuel view prefix none (empty_read H zscan limit) net).0
          ≢ out_of_fuel
    unfolding empty_read left scores
    collect_view-ends all view B fuel prefix net f =
        let every = length-filter (λ x. not (has H.eq x [])) all in
        collect_view-left all view B fuel prefix none (empty_read H zscan limit) net
          (unfold minus in omega (arith, f, every))
