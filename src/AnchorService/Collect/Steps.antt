-- ===== src/AnchorService/Collect/Steps.antt =====
-- What a row and a page do to the positions collected: each key is added, or nothing is.
use compliance_ail.Common.{
  ◌≡◌, refl, sym, ap, ◌∙◌, Option, none, some, List, [], ◌∷◌, ◌++◌, Text, arith, inl, inr,
  Bool-cases, Option-cases, if◌then◌else◌,
}
use compliance_ail.Common.Json.{Json, Fields, get}
use mathlib.Core.Path.{subst}
use compliance_ail.AnchorService.Collect.{
  Host, ViewRead, Malformed, score_of, row_key, reported_key, add_key, report, placed, read_rows,
  reported, bounded, present, read_scored, score_outside_requested_bound, score_absent_or_zero,
  unparseable_score,
}

module _ (H : Host) where
  -- Positions after some keys were added at scores that satisfy `P`.
  pub data IsAdded (P : H.F → Type 0)
      : List (H.F × List Text) → List (H.F × List Text) → Type 0 where
    same : {ps : List (H.F × List Text)} → IsAdded P ps ps
    and_key :
        {ps qs : List (H.F × List Text)} (s : H.F) (k : Text)
        → P s
        → IsAdded P (add_key H s k ps) qs
        → IsAdded P ps qs

  pub IsAdded-trans :
      {P : H.F → Type 0} {ps qs rs : List (H.F × List Text)}
      → IsAdded P ps qs
      → IsAdded P qs rs
      → IsAdded P ps rs
  IsAdded-trans same b = b
  IsAdded-trans (and_key s k p a) b = and_key s k p (IsAdded-trans a b)

  -- The row's score, if it has one, satisfies `P`.
  abbrev pub IsScored : (H.F → Type 0) → Fields → Type 0
  IsScored P row = (s : H.F) → score_of H (get "score" row) ≡ some s → P s

  reported-positions :
      (m : Json → Malformed H.F) (key : Option Json) (acc next : ViewRead H.F)
      → reported H m key acc ≡ some next
      → acc.positions ≡ next.positions
  unfolding reported report
  reported-positions m none acc next h = absurd (cc h)
  reported-positions m (some key) acc next h =
      let e : record acc { malformed = acc.malformed ++ m key ∷ [] } ≡ next = cc h in
      ap (λ v. v.positions) e

  bounded-positions :
      (min : Option H.F) (s : H.F) (row : Fields) (acc next : ViewRead H.F)
      → bounded H min s row acc ≡ some next
      → acc.positions ≡ next.positions
  unfolding bounded
  bounded-positions none s row acc next h = let e : acc ≡ next = cc h in ap (λ v. v.positions) e
  bounded-positions (some min) s row acc next h = elim (Bool-cases (H.lt s min)) [
    | inl outside ↦
        reported-positions (score_outside_requested_bound s min) (reported_key H (get "entry" row))
          acc next
          (subst
            (λ b.
              (if b
                then reported H (score_outside_requested_bound s min)
                    (reported_key H (get "entry" row)) acc
                else some acc)
              ≡ some next)
            outside h)
    | inr inside ↦
        let e : acc ≡ next = cc (
          subst
            (λ b.
              (if b
                then reported H (score_outside_requested_bound s min)
                    (reported_key H (get "entry" row)) acc
                else some acc)
              ≡ some next)
            inside h) in
        ap (λ v. v.positions) e
  ]

  present-positions :
      (score : Option Json) (row : Fields) (acc next : ViewRead H.F)
      → present H score row acc ≡ some next
      → acc.positions ≡ next.positions
  unfolding present
  present-positions none row acc next h =
      reported-positions score_absent_or_zero (reported_key H (get "entry" row)) acc next h
  present-positions (some j) row acc next h = let e : acc ≡ next = cc h in ap (λ v. v.positions) e

  placed-IsAdded :
      {P : H.F → Type 0} (prefix : Text) (s : H.F) (key : Option Text) (acc : ViewRead H.F)
      → P s
      → IsAdded P acc.positions (placed H prefix s key acc).positions
  unfolding placed report
  placed-IsAdded prefix s none acc p = same
  placed-IsAdded prefix s (some k) acc p = and_key s k p same

  read_scored-IsAdded :
      {P : H.F → Type 0} (prefix : Text) (min : Option H.F) (row : Fields) (score : Option H.F)
      (acc next : ViewRead H.F)
      → ((s : H.F) → score ≡ some s → P s)
      → read_scored H prefix min row score acc ≡ some next
      → IsAdded P acc.positions next.positions
  unfolding read_scored report
  read_scored-IsAdded {P} prefix min row none acc next p h =
      let e : report H unparseable_score acc ≡ next = cc h in
      subst (λ v. IsAdded P acc.positions v.positions) e same
  read_scored-IsAdded {P} prefix min row (some s) acc next p h =
      elim (Option-cases (bounded H min s row acc)) [
        | inl gone ↦ absurd (ground (arith, gone, h))
        | inr (within, b) ↦ elim (Option-cases (present H (get "score" row) row within)) [
          | inl gone ↦ absurd (ground (arith, b, gone, h))
          | inr (whole, c) ↦
              let e : placed H prefix s (row_key H (get "entry" row)) whole ≡ next =
                ground (arith, b, c, h) in
              let kept : whole.positions ≡ acc.positions = sym (
                bounded-positions min s row acc within b
                ∙ present-positions (get "score" row) row within whole c) in
              subst (λ v. IsAdded P acc.positions v.positions) e
                (subst
                  (λ q.
                    IsAdded P q (placed H prefix s (row_key H (get "entry" row)) whole).positions)
                  kept (placed-IsAdded prefix s (row_key H (get "entry" row)) whole (p s refl)))
        ]
      ]

  abbrev pub AreScored : (H.F → Type 0) → List Fields → Type 0
  AreScored P [] = Unit {0}
  AreScored P (row ∷ rest) = IsScored P row × AreScored P rest

  pub read_rows-IsAdded :
      {P : H.F → Type 0} (prefix : Text) (min : Option H.F) (rows : List Fields)
      (acc after : ViewRead H.F)
      → AreScored P rows
      → read_rows H prefix min rows acc ≡ some after
      → IsAdded P acc.positions after.positions
  unfolding read_rows
  read_rows-IsAdded {P} prefix min [] acc after p h =
      let e : acc ≡ after = cc h in subst (λ v. IsAdded P acc.positions v.positions) e same
  read_rows-IsAdded {P} prefix min (row ∷ rest) acc after (p, ps) h =
      elim (Option-cases (read_scored H prefix min row (score_of H (get "score" row)) acc)) [
        | inl gone ↦ absurd (ground (arith, gone, h))
        | inr (next, e) ↦
            let later : read_rows H prefix min rest next ≡ some after = ground (arith, e, h) in
            IsAdded-trans
              (read_scored-IsAdded prefix min row (score_of H (get "score" row)) acc next p e)
              (read_rows-IsAdded prefix min rest next after ps later)
      ]
