-- ===== src/AnchorService/Reconcile/Rows.antt =====
-- The rows of a view that can be read: what a page of them does to what is collected.
use compliance_ail.Common.{
  ◌≡◌, refl, sym, ap, ◌∙◌, suc, Bool, true, not, Option, none, some, List, [], ◌∷◌, ◌++◌, Text,
  arith, inl, inr, Bool-cases, length, filter, In,
}
use mathlib.Core.Path.{subst}
use compliance_ail.Common.Json.{Json, Fields, get}
use compliance_ail.AnchorService.Collect.{
  Host, ViewRead, from, score_of, row_key, placed, read_scored, read_rows, bounded, present, cursor,
}
use compliance_ail.AnchorService.Collect.Steps.{read_rows-IsAdded}
use compliance_ail.AnchorService.Reconcile.Repeats.{Once, keys_of}
use compliance_ail.AnchorService.Reconcile.Overlap.{
  In-add_key, Once-add_key, IsAdded-Once, IsAdded-In, AreScored-any,
}

module _ (H : Host) where
  -- A row of a view, with its score and its key.
  pub record Indexed : Type 0 where
    pub score : H.F
    pub key : Text
    pub row : Fields

  abbrev pub rows_of : List Indexed → List Fields
  rows_of [] = []
  rows_of (x ∷ xs) = x.row ∷ rows_of xs

  pub length-rows_of : (xs : List Indexed) → length (rows_of xs) ≡ length xs
  length-rows_of [] = refl
  length-rows_of (x ∷ xs) = ap suc (length-rows_of xs)

  -- The row has a score and a key that can be read.
  pub record IsReadable (x : Indexed) : Type 0 where
    pub json : Json
    pub present_score : get "score" x.row ≡ some json
    pub parsed : H.parse json ≡ some x.score
    pub keyed : row_key H (get "entry" x.row) ≡ some x.key

  -- `minScore`
  unfoldable pub at_least : Option H.F → Indexed → Bool
  at_least none x = true
  at_least (some min) x = not (H.lt x.score min)

  pub bounded_inside :
      (min : Option H.F) (x : Indexed) (acc : ViewRead H.F)
      → at_least min x ≡ true
      → bounded H min x.score x.row acc ≡ some acc
  unfolding bounded at_least
  bounded_inside none x acc b = refl
  bounded_inside (some min) x acc b = elim (Bool-cases (H.lt x.score min)) [
    | inl below ↦ absurd (ground (arith, b, below))
    | inr inside ↦ rw inside refl
  ]

  pub present-some :
      (o : Option Json) (j : Json) (row : Fields) (acc : ViewRead H.F)
      → o ≡ some j
      → present H o row acc ≡ some acc
  unfolding present
  present-some none j row acc h = absurd (cc h)
  present-some (some i) j row acc h = refl

  pub score_of-some : (o : Option Json) (j : Json) → o ≡ some j → score_of H o ≡ H.parse j
  unfolding score_of
  score_of-some o j h = ap (score_of H) h

  pub read_scored-placed :
      (prefix : Text) (min : Option H.F) (row : Fields) (s : H.F) (acc : ViewRead H.F)
      → bounded H min s row acc ≡ some acc
      → present H (get "score" row) row acc ≡ some acc
      → read_scored H prefix min row (some s) acc
        ≡ some (placed H prefix s (row_key H (get "entry" row)) acc)
  unfolding read_scored
  read_scored-placed prefix min row s acc b c = rw (b, read_scored, c) refl

  pub read_one :
      (prefix : Text) (min : Option H.F) (x : Indexed) (acc : ViewRead H.F)
      → IsReadable x
      → at_least min x ≡ true
      → read_scored H prefix min x.row (score_of H (get "score" x.row)) acc
        ≡ some (placed H prefix x.score (some x.key) acc)
  read_one prefix min x acc r b =
      let score = score_of-some (get "score" x.row) r.json r.present_score ∙ r.parsed in
      ap (λ o. read_scored H prefix min x.row o acc) score
      ∙ read_scored-placed prefix min x.row x.score acc (bounded_inside min x acc b)
          (present-some (get "score" x.row) r.json x.row acc r.present_score)
      ∙ ap (λ o. some (placed H prefix x.score o acc)) r.keyed

  -- The rows can be read, and are inside the bound.
  abbrev pub AreReadable : Option H.F → List Indexed → Type 0
  AreReadable min xs = (x : Indexed) → In x xs → IsReadable x × (at_least min x ≡ true)

  pub record Read (prefix : Text) (min : Option H.F) (xs : List Indexed) (acc : ViewRead H.F)
      : Type 0 where
    pub after : ViewRead H.F
    pub read : read_rows H prefix min (rows_of xs) acc ≡ some after
    pub has_keys : (x : Indexed) → In x xs → In x.key (keys_of H after.positions)

  pub Read-all :
      (prefix : Text) (min : Option H.F) (xs : List Indexed) (acc : ViewRead H.F)
      → AreReadable min xs
      → Read prefix min xs acc
  unfolding read_rows placed
  Read-all prefix min [] acc r = record { after = acc; read = refl; has_keys = λ x i. elim i [ ] }
  Read-all prefix min (x ∷ xs) acc r =
      let (readable, inside) = r x (inl refl) in
      let next : ViewRead H.F = placed H prefix x.score (some x.key) acc in
      let rest = Read-all prefix min xs next (λ y i. r y (inr i)) in
      record {
        after = rest.after;
        read =
            ap
              (λ q. elim q as (λ z. Option (ViewRead H.F)) [
                | none ↦ none
                | some n ↦ read_rows H prefix min (rows_of xs) n
              ])
              (read_one prefix min x acc readable inside)
            ∙ rest.read;
        has_keys = λ y i. elim i [
          | inl e ↦
              let here : In x.key (keys_of H next.positions) =
                In-add_key H x.score x.key acc.positions x.key (inr refl) in
              subst (λ z. In z (keys_of H rest.after.positions)) (ap (λ z. z.key) (sym e))
                (IsAdded-In H x.key
                  (read_rows-IsAdded H prefix min (rows_of xs) next rest.after
                    (AreScored-any H (rows_of xs)) rest.read)
                  here)
          | inr j ↦ rest.has_keys y j
        ];
      }

  -- The first row of a page goes to a key that is not there, if no key is repeated in the end.
  pub first_new :
      (prefix : Text) (min : Option H.F) (x : Indexed) (xs : List Indexed)
      (acc after : ViewRead H.F)
      → IsReadable x
      → at_least min x ≡ true
      → read_rows H prefix min (rows_of (x ∷ xs)) acc ≡ some after
      → Once (keys_of H after.positions)
      → ¬ In x.key (keys_of H acc.positions)
  unfolding read_rows placed
  first_new prefix min x xs acc after r b h o =
      let next : ViewRead H.F = placed H prefix x.score (some x.key) acc in
      let rest : read_rows H prefix min (rows_of xs) next ≡ some after =
        subst
          (λ q.
            elim q as (λ z. Option (ViewRead H.F)) [
              | none ↦ none
              | some n ↦ read_rows H prefix min (rows_of xs) n
            ]
            ≡ some after)
          (read_one prefix min x acc r b) h in
      (Once-add_key H x.score x.key acc.positions (
        IsAdded-Once H
          (read_rows-IsAdded H prefix min (rows_of xs) next after (AreScored-any H (rows_of xs))
            rest)
          o)).1

  pub cursor-last :
      (x : Indexed) (xs : List Indexed)
      → ((y : Indexed) → In y (x ∷ xs) → IsReadable y)
      → (y : Indexed) × In y (x ∷ xs) × (cursor H (rows_of (x ∷ xs)) ≡ from y.score)
  unfolding cursor score_of
  cursor-last x [] r =
      let here = r x (inl refl) in
      (x, inl refl, rw (here.present_score, score_of, here.parsed) refl)
  cursor-last x (z ∷ xs) r = let (y, i, c) = cursor-last z xs (λ y i. r y (inr i)) in (y, inr i, c)

  -- What is behind a list does not change the first element of it that a filter keeps.
  pub filter-first :
      (p : Indexed → Bool) (xs rest : List Indexed) (x : Indexed)
      → In x xs
      → p x ≡ true
      → (y : Indexed) × (ys : List Indexed) × (filter p (xs ++ rest) ≡ y ∷ ys)
        × In y xs
        × (p y ≡ true)
  unfolding filter
  filter-first p [] rest x i h = elim i [ ]
  filter-first p (z ∷ xs) rest x i h = elim (Bool-cases (p z)) [
    | inl kept ↦ (z, filter p (xs ++ rest), rw kept refl, inl refl, kept)
    | inr dropped ↦ elim i [
      | inl e ↦ absurd (ground (arith, dropped, h, ap p e))
      | inr j ↦
          let (y, ys, e, k, q) = filter-first p xs rest x j h in (y, ys, rw dropped e, inr k, q)
    ]
  ]
