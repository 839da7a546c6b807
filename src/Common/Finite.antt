-- ===== src/Common/Finite.antt =====
-- Finite sets and filters of lists, over a Boolean equality.
use mathlib.Core.Path.{◌≡◌, refl, ap, ◌∙◌, subst}
use mathlib.Core.Logic.{◌↔◌, ◌⊎◌, inl, inr}
use mathlib.Core.Bool.{Bool, true, false, not}
use mathlib.Core.List.{List, [], ◌∷◌, ◌++◌}
use native.Mathlib.Omega.{arith}
use compliance_ail.Common.Tests.{Bool-cases, if◌then◌else◌}

unfoldable pub filter {ℓ} : {A : Type ℓ} → (A → Bool) → List A → List A
filter p [] = []
filter p (x ∷ xs) = let rest = filter p xs in if p x then x ∷ rest else rest

module _ {A : Type 0} where
  abbrev pub In : A → List A → Type 0
  In x [] = ⊥
  In x (y ∷ ys) = (x ≡ y) ⊎ In x ys

  pub In-append : (x : A) (xs ys : List A) → In x (xs ++ ys) ↔ (In x xs ⊎ In x ys)
  In-append x [] ys = (inr, λ h. elim h [ inl none_in ↦ elim none_in [ ] | inr i ↦ i ])
  In-append x (y ∷ xs) ys =
      let (to, from) = In-append x xs ys in
      (
        λ h. elim h [
          | inl e ↦ inl (inl e)
          | inr i ↦ elim (to i) [ inl a ↦ inl (inr a) | inr b ↦ inr b ]
        ],
        λ h. elim h [
          | inl (inl e) ↦ inl e
          | inl (inr a) ↦ inr (from (inl a))
          | inr b ↦ inr (from (inr b))
        ],
      )

  pub In-filter :
      (p : A → Bool) (x : A) (xs : List A) → In x (filter p xs) ↔ (In x xs × (p x ≡ true))
  unfolding filter
  In-filter p x [] = (λ h. elim h [ ], λ h. elim (h.0) [ ])
  In-filter p x (y ∷ xs) =
      let (to, from) = In-filter p x xs in
      elim (Bool-cases (p y)) [
        | inl good ↦ rw good (
          λ h. elim h [ inl e ↦ (inl e, ap p e ∙ good) | inr i ↦ (inr (to i).0, (to i).1) ],
          λ h. elim (h.0) [ inl e ↦ inl e | inr i ↦ inr (from (i, h.1)) ],
        )
        | inr bad ↦ rw bad (
          λ h. (inr (to h).0, (to h).1),
          λ h. elim (h.0) [
            | inl e ↦ absurd (ground (arith, bad, h.1, ap p e))
            | inr i ↦ from (i, h.1)
          ],
        )
      ]

  pub nil-of_no_In : (xs : List A) → ((x : A) → ¬ In x xs) → xs ≡ []
  nil-of_no_In [] h = refl
  nil-of_no_In (x ∷ xs) h = absurd (h x (inl refl))

  module _ (eq : A → A → Bool) where
    unfoldable pub has : A → List A → Bool
    has x [] = false
    has x (y ∷ ys) = let rest = has x ys in if eq x y then true else rest

    -- The elements of the first that are not in the second.
    unfoldable pub minus : List A → List A → List A
    unfolding has filter
    minus xs ys = filter (λ x. not (has x ys)) xs

    unfoldable pub common : List A → List A → List A
    unfolding has filter
    common xs ys = filter (λ x. has x ys) xs

    unfoldable pub union : List A → List A → List A
    unfolding minus
    union xs ys = xs ++ minus ys xs

    module _ (eq_iff : (a b : A) → (eq a b ≡ true) ↔ (a ≡ b)) where
      pub has_iff : (x : A) (xs : List A) → (has x xs ≡ true) ↔ In x xs
      unfolding has
      has_iff x [] = (λ h. absurd (ground (arith, h)), λ h. elim h [ ])
      has_iff x (y ∷ ys) =
          let (to, from) = has_iff x ys in
          elim (Bool-cases (eq x y)) [
            | inl same ↦ rw same (λ h. inl ((eq_iff x y).0 same), λ h. refl)
            | inr other ↦ rw other (
              λ h. inr (to h),
              λ h. elim h [
                | inl e ↦ absurd (ground (arith, other, (eq_iff x y).1 e))
                | inr i ↦ from i
              ],
            )
          ]

      pub In-union : (x : A) (xs ys : List A) → In x (union xs ys) ↔ (In x xs ⊎ In x ys)
      unfolding union minus
      In-union x xs ys = (
        λ h. elim ((In-append x xs (minus ys xs)).0 h) [
          | inl a ↦ inl a
          | inr b ↦ inr ((In-filter (λ z. not (has z xs)) x ys).0 b).0
        ],
        λ h. elim h [
          | inl a ↦ (In-append x xs (minus ys xs)).1 (inl a)
          | inr b ↦ elim (Bool-cases (has x xs)) [
            | inl old ↦ (In-append x xs (minus ys xs)).1 (inl ((has_iff x xs).0 old))
            | inr new ↦
                (In-append x xs (minus ys xs)).1
                  (inr ((In-filter (λ z. not (has z xs)) x ys).1 (b, ap not new)))
          ]
        ],
      )

      pub minus-nil : (xs ys : List A) → (minus xs ys ≡ []) ↔ ((x : A) → In x xs → In x ys)
      unfolding minus
      minus-nil xs ys = (
        λ h x i. elim (Bool-cases (has x ys)) [
          | inl found ↦ (has_iff x ys).0 found
          | inr lost ↦
              absurd (subst (In x) h ((In-filter (λ z. not (has z ys)) x xs).1 (i, ap not lost)))
        ],
        λ h. nil-of_no_In (minus xs ys) (λ x i.
            let (j, p) = (In-filter (λ z. not (has z ys)) x xs).0 i in
            let found : has x ys ≡ true = (has_iff x ys).1 (h x j) in ground (arith, p, found)),
      )

      pub common-nil : (xs ys : List A) → (common xs ys ≡ []) ↔ ((x : A) → In x xs → In x ys → ⊥)
      unfolding common
      common-nil xs ys = (
        λ h x i j. subst (In x) h ((In-filter (λ z. has z ys) x xs).1 (i, (has_iff x ys).1 j)),
        λ h. nil-of_no_In (common xs ys) (λ x i.
            let (j, p) = (In-filter (λ z. has z ys) x xs).0 i in h x j ((has_iff x ys).0 p)),
      )
