-- ===== src/ControlPlane/Order.antt =====
-- `_assert_score_order_matches_commit_order` of control_plane/main.py. Positions are floats, of which
-- the check uses only the two comparisons that are parameters.
pub mod Descending
use compliance_ail.Common.{
  ℕ, Bool, true, false, ◌&&◌, ltb, Option, none, some, List, [], ◌∷◌, if◌then◌else◌,
}

-- `higher` and `lower` of OrderingFault.
pub record OrderingFault (F : Type 0) : Type 0 where
  pub higher : F × ℕ
  pub lower : F × ℕ

pub record Positions : Type 1 where
  pub F : Type 0
  -- `a > b`
  pub above : F → F → Bool
  -- `s >= _FIRST_ALLOCATED_POSITION`
  pub is_allocated : F → Bool

module _ (P : Positions) where
  unfoldable pub allocated : List (P.F × ℕ) → List (P.F × ℕ)
  allocated [] = []
  allocated ((s, tx) ∷ rest) =
      let kept = allocated rest in if P.is_allocated s then (s, tx) ∷ kept else kept

  -- `score_a > score_b and tx_a > tx_b`
  unfoldable pub follows : P.F × ℕ → P.F × ℕ → Bool
  follows (a, tx_a) (b, tx_b) = P.above a b && ltb tx_b tx_a

  -- The first neighbours out of order.
  unfoldable pub first_fault : List (P.F × ℕ) → Option (OrderingFault P.F)
  unfolding follows
  first_fault [] = none
  first_fault (x ∷ []) = none
  first_fault (x ∷ y ∷ rest) =
      let later = first_fault (y ∷ rest) in
      if follows x y then later else some (record { higher = x; lower = y })

  unfoldable pub check_order : List (P.F × ℕ) → Option (OrderingFault P.F)
  unfolding allocated first_fault
  check_order rows = first_fault (allocated rows)
