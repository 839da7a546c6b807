-- ===== src/ControlPlane/Order/Descending.antt =====
-- The check of neighbours is a check of every pair.
use compliance_ail.Common.{
  ◌≡◌, refl, ◌↔◌, ℕ, ◌<◌, true, none, List, [], ◌∷◌, arith, Bool-cases, inl, inr,
}
use compliance_ail.ControlPlane.Order.{Positions, allocated, follows, first_fault, check_order}

module _ (P : Positions) where
  -- A row is above another, in position and in transaction.
  abbrev pub Exceeds : P.F × ℕ → P.F × ℕ → Type 0
  Exceeds (a, tx_a) (b, tx_b) = (P.above a b ≡ true) × (tx_b < tx_a)

  follows-Exceeds : (x y : P.F × ℕ) → (follows P x y ≡ true) ↔ Exceeds x y
  unfolding follows
  follows-Exceeds (a, m) (b, n) =
      (λ h. (ground (arith, h), ground (arith, h)), λ (h, l). ground (arith, h, l))

  -- A row is above every row of a list, in position and in transaction.
  pub data IsAbove (x : P.F × ℕ) : List (P.F × ℕ) → Type 0 where
    above_nil : IsAbove x []
    above_cons :
        (y : P.F × ℕ) (rest : List (P.F × ℕ)) → Exceeds x y → IsAbove x rest → IsAbove x (y ∷ rest)

  -- Each row is above every later one.
  pub data Descends : List (P.F × ℕ) → Type 0 where
    descends_nil : Descends []
    descends_cons :
        (x : P.F × ℕ) (rest : List (P.F × ℕ)) → IsAbove x rest → Descends rest → Descends (x ∷ rest)

  head-IsAbove : (y : P.F × ℕ) (rest : List (P.F × ℕ)) → Descends (y ∷ rest) → IsAbove y rest
  head-IsAbove y rest (descends_cons _ _ a d) = a

  module _
      (trans : (a b c : P.F) → P.above a b ≡ true → P.above b c ≡ true → P.above a c ≡ true) where
    Exceeds-trans : (x y z : P.F × ℕ) → Exceeds x y → Exceeds y z → Exceeds x z
    Exceeds-trans (a, m) (b, n) (c, k) (h, l) (i, j) = (trans a b c h i, omega (arith, l, j))

    IsAbove-trans :
        (x y : P.F × ℕ) (rest : List (P.F × ℕ)) → Exceeds x y → IsAbove y rest → IsAbove x rest
    IsAbove-trans x y [] h above_nil = above_nil
    IsAbove-trans x y (z ∷ rest) h (above_cons _ _ f a) =
        above_cons z rest (Exceeds-trans x y z h f) (IsAbove-trans x y rest h a)

    first_fault-Descends : (rows : List (P.F × ℕ)) → first_fault P rows ≡ none → Descends rows
    unfolding first_fault
    first_fault-Descends [] h = descends_nil
    first_fault-Descends (x ∷ []) h = descends_cons x [] above_nil descends_nil
    first_fault-Descends (x ∷ y ∷ rest) h = elim (Bool-cases (follows P x y)) [
      | inr wrong ↦ absurd (ground (arith, wrong, h))
      | inl fine ↦
          let later : Descends (y ∷ rest) =
            first_fault-Descends (y ∷ rest) (ground (arith, fine, h)) in
          descends_cons x (y ∷ rest)
            (above_cons y rest ((follows-Exceeds x y).0 fine)
              (IsAbove-trans x y rest ((follows-Exceeds x y).0 fine) (head-IsAbove y rest later)))
            later
    ]

  Descends-first_fault : (rows : List (P.F × ℕ)) → Descends rows → first_fault P rows ≡ none
  unfolding first_fault
  Descends-first_fault [] d = refl
  Descends-first_fault (x ∷ []) d = refl
  Descends-first_fault (x ∷ y ∷ rest) (descends_cons _ _ (above_cons _ _ f a) d) =
      rw ((follows-Exceeds x y).1 f) (Descends-first_fault (y ∷ rest) d)

  -- Over a transitive comparison of positions, the check of neighbours finds nothing exactly where,
  -- among the rows at allocated positions, each is above every later one both in position and in
  -- transaction.
  pub check_order-Descends :
      (trans : (a b c : P.F) → P.above a b ≡ true → P.above b c ≡ true → P.above a c ≡ true)
      (rows : List (P.F × ℕ))
      → (check_order P rows ≡ none) ↔ Descends (allocated P rows)
  unfolding check_order
  check_order-Descends trans rows =
      (first_fault-Descends trans (allocated P rows), Descends-first_fault (allocated P rows))
