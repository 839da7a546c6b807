-- ===== src/ControlPlane/Window/Order.antt =====
-- The order of byte strings is strict.
use compliance_ail.Common.{◌≡◌, refl, true, false, [], ◌∷◌, Bytes, arith, Bool-cases, inl, inr}
use compliance_ail.ControlPlane.Window.{bytes_lt}

pub bytes_lt_irrefl : (xs : Bytes) → bytes_lt xs xs ≡ false
unfolding bytes_lt
bytes_lt_irrefl [] = refl
bytes_lt_irrefl (x ∷ xs) = ground (arith, bytes_lt_irrefl xs)

pub bytes_lt_trans :
    (xs ys zs : Bytes) → bytes_lt xs ys ≡ true → bytes_lt ys zs ≡ true → bytes_lt xs zs ≡ true
unfolding bytes_lt
bytes_lt_trans [] [] zs h i = absurd (cc h)
bytes_lt_trans [] (y ∷ ys) [] h i = absurd (cc i)
bytes_lt_trans [] (y ∷ ys) (z ∷ zs) h i = refl
bytes_lt_trans (x ∷ xs) [] zs h i = absurd (cc h)
bytes_lt_trans (x ∷ xs) (y ∷ ys) [] h i = absurd (cc i)
bytes_lt_trans (x ∷ xs) (y ∷ ys) (z ∷ zs) h i = ground (arith, h, i, bytes_lt_trans xs ys zs)

pub bytes_lt_asym : (xs ys : Bytes) → bytes_lt xs ys ≡ true → bytes_lt ys xs ≡ false
bytes_lt_asym xs ys h = elim (Bool-cases (bytes_lt ys xs)) [
  | inr e ↦ e
  | inl e ↦
      let loop = bytes_lt_trans xs ys xs h e in
      let no_loop = bytes_lt_irrefl xs in absurd (ground (arith, loop, no_loop))
]
