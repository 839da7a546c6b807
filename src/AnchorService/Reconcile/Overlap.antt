-- ===== src/AnchorService/Reconcile/Overlap.antt =====
-- A view that fills a page: the next page starts with a row that was read before.
use compliance_ail.Common.{
  ◌≡◌, refl, sym, ap, ◌∙◌, ℕ, zero, suc, Option, some, List, [], ◌∷◌, ◌++◌, Text, inl, inr, ◌⊎◌,
  Bool-cases, In, In-append,
}
use mathlib.Core.Path.{subst}
use compliance_ail.Common.Json.{Fields}
use compliance_ail.AnchorService.Collect.{Host, ViewRead, Answer, returned, add_key, collect_view}
use compliance_ail.AnchorService.Collect.Steps.{
  IsAdded, same, and_key, AreScored, read_rows-IsAdded,
}
use compliance_ail.AnchorService.Collect.Rounds.{raises, stops, ends, goes_on, collect_view-IsRound}
use compliance_ail.AnchorService.Reconcile.Repeats.{Once, keys_of}

Once-split :
    (xs ys : List Text) → Once (xs ++ ys) → Once xs × Once ys × ((x : Text) → In x xs → ¬ In x ys)
Once-split [] ys o = (tt, o, λ x i. elim i [ ])
Once-split (x ∷ xs) ys (absent, o) =
    let (a, b, apart) = Once-split xs ys o in
    (
      (λ i. absent ((In-append x xs ys).1 (inl i)), a),
      b,
      λ y i j. elim i [
        | inl e ↦ absent ((In-append x xs ys).1 (inr (subst (λ z. In z ys) e j)))
        | inr k ↦ apart y k j
      ],
    )

Once-join :
    (xs ys : List Text) → Once xs → Once ys → ((x : Text) → In x xs → ¬ In x ys) → Once (xs ++ ys)
Once-join [] ys a b apart = b
Once-join (x ∷ xs) ys (absent, a) b apart = (
  λ i. elim ((In-append x xs ys).0 i) [ inl j ↦ absent j | inr j ↦ apart x (inl refl) j ],
  Once-join xs ys a b (λ y i. apart y (inr i)),
)

-- Put into the middle, a text is at no other place.
Once-insert :
    (xs : List Text) (k : Text) (ys : List Text)
    → Once ((xs ++ k ∷ []) ++ ys)
    → Once (xs ++ ys) × ¬ In k (xs ++ ys)
Once-insert [] k ys (absent, o) = (o, absent)
Once-insert (x ∷ xs) k ys (absent, o) =
    let (rest, out) = Once-insert xs k ys o in
    let later : (y : Text) → In y (xs ++ ys) → In y ((xs ++ k ∷ []) ++ ys) = λ y i.
      elim ((In-append y xs ys).0 i) [
        | inl a ↦ (In-append y (xs ++ k ∷ []) ys).1 (inl ((In-append y xs (k ∷ [])).1 (inl a)))
        | inr b ↦ (In-append y (xs ++ k ∷ []) ys).1 (inr b)
      ] in
    let here : In k ((xs ++ k ∷ []) ++ ys) =
      (In-append k (xs ++ k ∷ []) ys).1 (inl ((In-append k xs (k ∷ [])).1 (inr (inl refl)))) in
    (
      (λ i. absent (later x i), rest),
      λ i. elim i [
        | inl e ↦ absent (subst (λ z. In z ((xs ++ k ∷ []) ++ ys)) e here)
        | inr j ↦ out j
      ],
    )

module _ (H : Host) where
  pub In-add_key :
      (s : H.F) (k : Text) (ps : List (H.F × List Text)) (x : Text)
      → In x (keys_of H ps) ⊎ (x ≡ k)
      → In x (keys_of H (add_key H s k ps))
  unfolding add_key
  In-add_key s k [] x (inl i) = elim i [ ]
  In-add_key s k [] x (inr e) = inl e
  In-add_key s k ((t, keys) ∷ ps) x o = elim (Bool-cases (H.eq t s)) [
    | inl here ↦ rw here (
        (In-append x (keys ++ k ∷ []) (keys_of H ps)).1 (elim o [
          | inl i ↦ elim ((In-append x keys (keys_of H ps)).0 i) [
            | inl a ↦ inl ((In-append x keys (k ∷ [])).1 (inl a))
            | inr b ↦ inr b
          ]
          | inr e ↦ inl ((In-append x keys (k ∷ [])).1 (inr (inl e)))
        ]))
    | inr there ↦ rw there (
        (In-append x keys (keys_of H (add_key H s k ps))).1 (elim o [
          | inl i ↦ elim ((In-append x keys (keys_of H ps)).0 i) [
            | inl a ↦ inl a
            | inr b ↦ inr (In-add_key s k ps x (inl b))
          ]
          | inr e ↦ inr (In-add_key s k ps x (inr e))
        ]))
  ]

  pub Once-add_key :
      (s : H.F) (k : Text) (ps : List (H.F × List Text))
      → Once (keys_of H (add_key H s k ps))
      → Once (keys_of H ps) × ¬ In k (keys_of H ps)
  unfolding add_key
  Once-add_key s k [] o = (tt, λ i. elim i [ ])
  Once-add_key s k ((t, keys) ∷ ps) o = elim (Bool-cases (H.eq t s)) [
    | inl here ↦
        let at_key : add_key H s k ((t, keys) ∷ ps) ≡ (t, keys ++ k ∷ []) ∷ ps = rw here refl in
        Once-insert keys k (keys_of H ps) (subst (λ q. Once (keys_of H q)) at_key o)
    | inr there ↦
        let behind : add_key H s k ((t, keys) ∷ ps) ≡ (t, keys) ∷ add_key H s k ps =
          rw there refl in
        let (a, b, apart) =
          Once-split keys (keys_of H (add_key H s k ps))
            (subst (λ q. Once (keys_of H q)) behind o) in
        let (c, out) = Once-add_key s k ps b in
        (
          Once-join keys (keys_of H ps) a c (λ x i j. apart x i (In-add_key s k ps x (inl j))),
          λ i. elim ((In-append k keys (keys_of H ps)).0 i) [
            | inl j ↦ apart k j (In-add_key s k ps k (inr refl))
            | inr j ↦ out j
          ],
        )
  ]

  pub IsAdded-Once :
      {P : H.F → Type 0} {ps qs : List (H.F × List Text)}
      → IsAdded H P ps qs
      → Once (keys_of H qs)
      → Once (keys_of H ps)
  IsAdded-Once same o = o
  IsAdded-Once (and_key {ps} s k p rest) o = (Once-add_key s k ps (IsAdded-Once rest o)).0

  pub IsAdded-In :
      {P : H.F → Type 0} {ps qs : List (H.F × List Text)} (x : Text)
      → IsAdded H P ps qs
      → In x (keys_of H ps)
      → In x (keys_of H qs)
  IsAdded-In x same i = i
  IsAdded-In x (and_key {ps} s k p rest) i = IsAdded-In x rest (In-add_key s k ps x (inl i))

  pub AreScored-any : (rows : List Fields) → AreScored H (λ s. Unit {0}) rows
  AreScored-any [] = tt
  AreScored-any (row ∷ rest) = (λ s e. tt, AreScored-any rest)

  module _ {Net : Type 0} (zscan : Net → Text → Option H.F → Answer × Net) (limit : ℕ) where
    -- What the loop returns has what was collected before it.
    pub collect_view-Once :
        (fuel : ℕ) (view prefix : Text) (min : Option H.F) (acc v : ViewRead H.F) (net : Net)
        → (collect_view H zscan limit fuel view prefix min acc net).0 ≡ returned v
        → Once (keys_of H v.positions)
        → Once (keys_of H acc.positions)
    unfolding collect_view
    collect_view-Once zero view prefix min acc v net h o = absurd (cc h)
    collect_view-Once (suc fuel) view prefix min acc v net h o =
        elim (collect_view-IsRound H zscan limit fuel view prefix min acc net) [
          | raises w r ↦ absurd (cc (r, h))
          | stops u n t a r p ↦
              let e : u ≡ v = cc (r, h) in
              subst (λ q. Once (keys_of H q)) (sym (p ∙ ap (λ q. q.positions) e)) o
          | ends rows after u page w r p ↦
              let e : u ≡ v = cc (r, h) in
              IsAdded-Once
                (read_rows-IsAdded H prefix min rows acc after (AreScored-any rows) page.read)
                (subst (λ q. Once (keys_of H q)) (sym (p ∙ ap (λ q. q.positions) e)) o)
          | goes_on rows after s page c more r ↦
              IsAdded-Once
                (read_rows-IsAdded H prefix min rows acc after (AreScored-any rows) page.read)
                (collect_view-Once fuel view prefix (some s) after v (zscan net view min).1
                  (sym r ∙ h) o)
        ]
