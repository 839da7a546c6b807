-- ===== src/ControlPlane/Window/Suffix.antt =====
-- The rows of a sorted ledger behind a row of a window are the window behind that row.
use compliance_ail.Common.{
  ◌≡◌, refl, sym, ap, ◌∙◌, Bool, true, false, ◌&&◌, List, [], ◌∷◌, ◌++◌, Bytes, arith, inl, inr,
  Bool-cases, if◌then◌else◌,
}
use compliance_ail.Common.Json.{Fields}
use compliance_ail.ControlPlane.Window.{bytes_lt, from_seek, in_window}
use compliance_ail.ControlPlane.Window.Order.{bytes_lt_irrefl, bytes_lt_trans, bytes_lt_asym}

-- The rows under a prefix of the ledger, with their keys.
abbrev pub Ledger : Type 0
Ledger = List (Bytes × Fields)

-- This key is below every key of the list.
abbrev pub IsBelow : Bytes → Ledger → Type 0
IsBelow k [] = Unit {0}
IsBelow k ((x, r) ∷ rest) = (bytes_lt k x ≡ true) × IsBelow k rest

-- Every key is below the later ones.
abbrev pub Ascends : Ledger → Type 0
Ascends [] = Unit {0}
Ascends ((k, r) ∷ rest) = IsBelow k rest × Ascends rest

unfoldable pub within : Bytes → Bool → Bytes → Ledger → Ledger
within seek inclusive end [] = []
within seek inclusive end ((k, r) ∷ rest) =
    let later = within seek inclusive end rest in
    if in_window seek inclusive end k then (k, r) ∷ later else later

from_seek_above :
    (seek a x : Bytes) (inclusive : Bool)
    → from_seek seek inclusive a ≡ true
    → bytes_lt a x ≡ true
    → from_seek seek inclusive x ≡ true
unfolding from_seek
from_seek_above seek a x true h l = elim (Bool-cases (bytes_lt x seek)) [
  | inr e ↦ rw e refl
  | inl e ↦ let less = bytes_lt_trans a x seek l e in absurd (ground (arith, less, h))
]
from_seek_above seek a x false h l = bytes_lt_trans seek a x h l

in_window-above :
    (seek a end x : Bytes) (inclusive : Bool)
    → from_seek seek inclusive a ≡ true
    → bytes_lt a x ≡ true
    → in_window a false end x ≡ in_window seek inclusive end x
unfolding in_window from_seek
in_window-above seek a end x inclusive h l =
    ap (λ b. b && bytes_lt x end) (l ∙ sym (from_seek_above seek a x inclusive h l))

-- Behind a row of the window only the lower end of the window moves.
within-above :
    (seek a end : Bytes) (inclusive : Bool) (rest : Ledger)
    → from_seek seek inclusive a ≡ true
    → IsBelow a rest
    → within a false end rest ≡ within seek inclusive end rest
unfolding within
within-above seek a end inclusive [] h b = refl
within-above seek a end inclusive ((x, r) ∷ rest) h (l, b) =
    rw (in_window-above seek a end x inclusive h l, within-above seek a end inclusive rest h b) refl

-- A key that is not below the seek of an exclusive window is not in it.
not_in_window : (k a end : Bytes) → bytes_lt a k ≡ true → in_window k false end a ≡ false
unfolding in_window from_seek
not_in_window k a end h = rw (bytes_lt_asym a k h) refl

not_in_own : (k end : Bytes) → in_window k false end k ≡ false
unfolding in_window from_seek
not_in_own k end = rw (bytes_lt_irrefl k) refl

in_window-from_seek :
    (seek end k : Bytes) (inclusive : Bool)
    → in_window seek inclusive end k ≡ true
    → from_seek seek inclusive k ≡ true
unfolding in_window
in_window-from_seek seek end k inclusive h = ground (arith, h)

abbrev first_key : Ledger → Bytes
first_key [] = []
first_key ((k, r) ∷ rest) = k

-- A row of the window is a row of the ledger.
IsBelow-within :
    (a seek end : Bytes) (inclusive : Bool) (rest pre post : Ledger) (k : Bytes) (r : Fields)
    → IsBelow a rest
    → within seek inclusive end rest ≡ pre ++ (k, r) ∷ post
    → bytes_lt a k ≡ true
unfolding within
IsBelow-within a seek end inclusive [] [] post k r b h = absurd (cc h)
IsBelow-within a seek end inclusive [] (p ∷ pre) post k r b h = absurd (cc h)
IsBelow-within a seek end inclusive ((x, q) ∷ rest) [] post k r (l, b) h =
    elim (Bool-cases (in_window seek inclusive end x)) [
      | inr out ↦ IsBelow-within a seek end inclusive rest [] post k r b (ground (arith, out, h))
      | inl member ↦
          let shape : (x, q) ∷ within seek inclusive end rest ≡ (k, r) ∷ post =
            ground (arith, member, h) in
          rw (sym (ap first_key shape)) l
    ]
IsBelow-within a seek end inclusive ((x, q) ∷ rest) (p ∷ pre) post k r (l, b) h =
    elim (Bool-cases (in_window seek inclusive end x)) [
      | inr out ↦
          IsBelow-within a seek end inclusive rest (p ∷ pre) post k r b (ground (arith, out, h))
      | inl member ↦
          let shape : (x, q) ∷ within seek inclusive end rest ≡ p ∷ (pre ++ (k, r) ∷ post) =
            ground (arith, member, h) in
          IsBelow-within a seek end inclusive rest pre post k r b (cc shape)
    ]

-- The rows behind a row of a window are the window that starts behind its key.
pub within-suffix :
    (seek end : Bytes) (inclusive : Bool) (ledger pre post : Ledger) (k : Bytes) (r : Fields)
    → Ascends ledger
    → within seek inclusive end ledger ≡ pre ++ (k, r) ∷ post
    → within k false end ledger ≡ post
unfolding within
within-suffix seek end inclusive [] [] post k r s h = absurd (cc h)
within-suffix seek end inclusive [] (p ∷ pre) post k r s h = absurd (cc h)
within-suffix seek end inclusive ((x, q) ∷ rest) [] post k r (b, s) h =
    elim (Bool-cases (in_window seek inclusive end x)) [
      | inr out ↦
          let shape : within seek inclusive end rest ≡ (k, r) ∷ post = ground (arith, out, h) in
          let less = IsBelow-within x seek end inclusive rest [] post k r b shape in
          rw (not_in_window k x end less)
            (within-suffix seek end inclusive rest [] post k r s shape)
      | inl member ↦
          let shape : (x, q) ∷ within seek inclusive end rest ≡ (k, r) ∷ post =
            ground (arith, member, h) in
          let behind : within seek inclusive end rest ≡ post = cc shape in
          let same : x ≡ k = ap first_key shape in
          let own : within x false end ((x, q) ∷ rest) ≡ post = rw (not_in_own x end) (
            within-above seek x end inclusive rest (in_window-from_seek seek end x inclusive member)
              b
            ∙ behind) in
          ap (λ z. within z false end ((x, q) ∷ rest)) (sym same) ∙ own
    ]
within-suffix seek end inclusive ((x, q) ∷ rest) (p ∷ pre) post k r (b, s) h =
    elim (Bool-cases (in_window seek inclusive end x)) [
      | inr out ↦
          let shape : within seek inclusive end rest ≡ p ∷ (pre ++ (k, r) ∷ post) =
            ground (arith, out, h) in
          let less = IsBelow-within x seek end inclusive rest (p ∷ pre) post k r b shape in
          rw (not_in_window k x end less)
            (within-suffix seek end inclusive rest (p ∷ pre) post k r s shape)
      | inl member ↦
          let shape : (x, q) ∷ within seek inclusive end rest ≡ p ∷ (pre ++ (k, r) ∷ post) =
            ground (arith, member, h) in
          let tail : within seek inclusive end rest ≡ pre ++ (k, r) ∷ post = cc shape in
          let less = IsBelow-within x seek end inclusive rest pre post k r b tail in
          rw (not_in_window k x end less)
            (within-suffix seek end inclusive rest pre post k r s tail)
    ]
