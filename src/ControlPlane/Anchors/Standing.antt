-- ===== src/ControlPlane/Anchors/Standing.antt =====
-- The first anchor of a transaction stands.
use compliance_ail.Common.{
  ◌≡◌, refl, ap, ◌∙◌, Bool, true, false, Option, none, some, List, [], ◌∷◌, ◌++◌, ℤ, int_eq,
  int_eq_refl, inl, inr, Bool-cases, or_else, if◌then◌else◌,
}
use compliance_ail.ControlPlane.Anchors.{
  StateAnchor, find_anchor, recorded, add_anchor, unless_found, record_anchor,
}

find_anchor-append :
    (tx : ℤ) (rows : List StateAnchor) (a : StateAnchor)
    → find_anchor tx (rows ++ a ∷ [])
      ≡ or_else (find_anchor tx rows) (if int_eq a.checkpoint_tx_id tx then some a else none)
unfolding find_anchor
find_anchor-append tx [] a = refl
find_anchor-append tx (b ∷ rows) a = elim (Bool-cases (int_eq b.checkpoint_tx_id tx)) [
  | inl here ↦ rw here refl
  | inr there ↦ rw there (find_anchor-append tx rows a)
]

-- What is recorded at a transaction is not replaced.
abbrev pub Stands : List StateAnchor → List StateAnchor → Type 0
Stands before after =
    (tx : ℤ) (a : StateAnchor) → find_anchor tx before ≡ some a → find_anchor tx after ≡ some a

unless_found-Stands :
    (o : Option StateAnchor) (a : StateAnchor) (rows : List StateAnchor) (commits : Bool)
    → find_anchor a.checkpoint_tx_id rows ≡ o
    → Stands rows (unless_found o a rows commits).1
      × (((unless_found o a rows commits).0 ≡ recorded)
          → find_anchor a.checkpoint_tx_id (unless_found o a rows commits).1 ≡ some a)
unfolding unless_found add_anchor
unless_found-Stands (some b) a rows commits e = (λ tx c h. h, λ h. absurd (cc h))
unless_found-Stands none a rows false e = (λ tx c h. h, λ h. absurd (cc h))
unless_found-Stands none a rows true e = (
  λ tx c h.
      find_anchor-append tx rows a
      ∙ ap (λ o. or_else o (if int_eq a.checkpoint_tx_id tx then some a else none)) h,
  λ h.
      find_anchor-append a.checkpoint_tx_id rows a
      ∙ ap (λ o. or_else o (if int_eq a.checkpoint_tx_id a.checkpoint_tx_id then some a else none))
          e
      ∙ ap (λ b. if b then some a else none) (int_eq_refl a.checkpoint_tx_id),
)

-- POST /anchors replaces no anchor, whatever it answers, and where it answers that it recorded, the
-- anchor at the checkpoint's transaction is the one that was sent.
pub record_anchor-Stands :
    (a : StateAnchor) (rows : List StateAnchor) (commits : Bool)
    → Stands rows (record_anchor a rows commits).1
      × (((record_anchor a rows commits).0 ≡ recorded)
          → find_anchor a.checkpoint_tx_id (record_anchor a rows commits).1 ≡ some a)
unfolding record_anchor
record_anchor-Stands a rows commits =
    unless_found-Stands (find_anchor a.checkpoint_tx_id rows) a rows commits refl
