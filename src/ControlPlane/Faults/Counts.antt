-- ===== src/ControlPlane/Faults/Counts.antt =====
-- What the page's dictionary holds for a record's key: how many of its faults the window has, and the
-- newest of them.
use compliance_ail.Common.{
  ◌≡◌, refl, sym, ap, ◌∙◌, ℕ, ◌+◌, ◌≤◌, false, ltb, Option, none, some, List, [], ◌∷◌, Text, length,
  bytes_eq, bytes_eq_iff, bytes_eq_refl, arith, inl, inr, Bool-cases, Option-cases, if◌then◌else◌,
}
use compliance_ail.Common.Json.{Fields, get}
use compliance_ail.Provenance.{Crypto}
use compliance_ail.ControlPlane.Faults.{
  Reader, Rendered, rendered_fault, Merged, PageFaults, find_fault, merged, merge_fault, merged_row,
  page_step, page_faults,
}

-- One of the faults, with the transaction of its row.
pub data Among (r : Rendered) (tx : ℕ) : List (Rendered × ℕ) → Type 0 where
  first : (rest : List (Rendered × ℕ)) → Among r tx ((r, tx) ∷ rest)
  later : (x : Rendered × ℕ) (rest : List (Rendered × ℕ)) → Among r tx rest → Among r tx (x ∷ rest)

-- No transaction is above this one.
pub data Within (tx : ℕ) : List (Rendered × ℕ) → Type 0 where
  within_nil : Within tx []
  within_cons :
      (x : Rendered × ℕ) (rest : List (Rendered × ℕ))
      → x.1 ≤ tx
      → Within tx rest
      → Within tx (x ∷ rest)

-- The entry of a key sums up its faults: there is one where there are any, its count is their number,
-- and what it shows is of the fault at the highest transaction.
pub data Sums : List (Rendered × ℕ) → Option Merged → Type 0 where
  sums_none : Sums [] none
  sums_some :
      (faults : List (Rendered × ℕ)) (m : Merged)
      → m.count ≡ length faults
      → Among m.rendered m.tx faults
      → Within m.tx faults
      → Sums faults (some m)

Within-le : (a b : ℕ) (xs : List (Rendered × ℕ)) → a ≤ b → Within a xs → Within b xs
Within-le a b [] h within_nil = within_nil
Within-le a b (x ∷ xs) h (within_cons _ _ l w) =
    within_cons x xs (omega (arith, h, l)) (Within-le a b xs h w)

merged-Sums :
    (faults : List (Rendered × ℕ)) (o : Option Merged) (r : Rendered) (tx : ℕ)
    → Sums faults o
    → Sums ((r, tx) ∷ faults) (some (merged o r tx 1))
unfolding merged
merged-Sums [] none r tx sums_none =
    sums_some ((r, tx) ∷ []) (record { rendered = r; count = 1; tx = tx }) refl (first [])
      (within_cons (r, tx) [] (omega arith) within_nil)
merged-Sums (x ∷ xs) none r tx h = elim h [ ]
merged-Sums faults (some m) r tx (sums_some _ _ c a w) = elim (Bool-cases (ltb m.tx tx)) [
  | inl newer ↦ rw newer (
      sums_some ((r, tx) ∷ faults) (record { rendered = r; count = m.count + 1; tx = tx })
        (omega (arith, c)) (first faults)
        (within_cons (r, tx) faults (omega arith)
          (Within-le m.tx tx faults (ground (arith, newer)) w)))
  | inr older ↦ rw older (
      sums_some ((r, tx) ∷ faults)
        (record { rendered = m.rendered; count = m.count + 1; tx = m.tx }) (omega (arith, c))
        (later (r, tx) faults a) (within_cons (r, tx) faults (ground (arith, older)) w))
]

find_fault-merge_same :
    (key : Text) (r : Rendered) (tx : ℕ) (faults : PageFaults)
    → find_fault key (merge_fault key r tx 1 faults) ≡ some (merged (find_fault key faults) r tx 1)
unfolding find_fault merge_fault
find_fault-merge_same key r tx [] = rw (bytes_eq_refl key) refl
find_fault-merge_same key r tx ((k, m) ∷ rest) = elim (Bool-cases (bytes_eq k key)) [
  | inl e ↦ rw (e, e) refl
  | inr e ↦ rw (e, e) (find_fault-merge_same key r tx rest)
]

find_fault-merge_other :
    (key other : Text) (r : Rendered) (tx : ℕ) (faults : PageFaults)
    → bytes_eq other key ≡ false
    → find_fault key (merge_fault other r tx 1 faults) ≡ find_fault key faults
unfolding find_fault merge_fault
find_fault-merge_other key other r tx [] n = rw n refl
find_fault-merge_other key other r tx ((k, m) ∷ rest) n = elim (Bool-cases (bytes_eq k other)) [
  | inl e ↦
      let same : k ≡ other = (bytes_eq_iff k other).0 e in
      let apart : bytes_eq k key ≡ false = rw same n in rw (e, apart) refl
  | inr e ↦ elim (Bool-cases (bytes_eq k key)) [
    | inl f ↦ rw (e, f) refl
    | inr f ↦ rw (e, f) (find_fault-merge_other key other r tx rest n)
  ]
]

module _ {C : Crypto} (R : Reader C) (key : Text) where
  -- A row's fault put before the others, where it is one of this key.
  add_fault : List (Rendered × ℕ) → Option (Text × Rendered) → Option ℕ → List (Rendered × ℕ)
  add_fault faults none tx = faults
  add_fault faults (some (k, r)) none = faults
  add_fault faults (some (k, r)) (some tx) = if bytes_eq k key then (r, tx) ∷ faults else faults

  -- The faults of the key among the rows, the last one first, before those of `faults`.
  pub faults_onto : List (Rendered × ℕ) → List Fields → List (Rendered × ℕ)
  unfolding add_fault
  faults_onto faults [] = faults
  faults_onto faults (raw ∷ rest) =
      faults_onto (add_fault faults (rendered_fault R raw) (R.tx_of (get "tx" raw))) rest

  merged_row-Sums :
      (faults : List (Rendered × ℕ)) (before after : PageFaults) (placed : Text × Rendered)
      (tx : Option ℕ)
      → Sums faults (find_fault key before)
      → merged_row R before placed tx ≡ some after
      → Sums (add_fault faults (some placed) tx) (find_fault key after)
  unfolding merged_row add_fault
  merged_row-Sums faults before after (k, r) none s h = absurd (cc h)
  merged_row-Sums faults before after (k, r) (some tx) s h =
      let is_after : merge_fault k r tx 1 before ≡ after = cc h in
      elim (Bool-cases (bytes_eq k key)) [
        | inl e ↦
            let same : k ≡ key = (bytes_eq_iff k key).0 e in
            let found : find_fault key after ≡ some (merged (find_fault key before) r tx 1) =
              ap (find_fault key) (sym is_after)
              ∙ ap (λ n. find_fault key (merge_fault n r tx 1 before)) same
              ∙ find_fault-merge_same key r tx before in
            rw (e, found) (merged-Sums faults (find_fault key before) r tx s)
        | inr e ↦
            let found : find_fault key after ≡ find_fault key before =
              ap (find_fault key) (sym is_after) ∙ find_fault-merge_other key k r tx before e in
            rw (e, found) s
      ]

  page_step-Sums :
      (faults : List (Rendered × ℕ)) (before after : PageFaults) (raw : Fields)
      (o : Option (Text × Rendered))
      → Sums faults (find_fault key before)
      → page_step R before raw o ≡ some after
      → Sums (add_fault faults o (R.tx_of (get "tx" raw))) (find_fault key after)
  unfolding page_step add_fault
  page_step-Sums faults before after raw none s h =
      let same : before ≡ after = cc h in rw (sym same) s
  page_step-Sums faults before after raw (some placed) s h =
      merged_row-Sums faults before after placed (R.tx_of (get "tx" raw)) s h

  page_faults-Sums_onto :
      (rows : List Fields) (faults : List (Rendered × ℕ)) (before after : PageFaults)
      → Sums faults (find_fault key before)
      → page_faults R before rows ≡ some after
      → Sums (faults_onto faults rows) (find_fault key after)
  unfolding page_faults faults_onto
  page_faults-Sums_onto [] faults before after s h =
      let same : before ≡ after = cc h in rw (sym same) s
  page_faults-Sums_onto (raw ∷ rest) faults before after s h =
      elim (Option-cases (page_step R before raw (rendered_fault R raw))) [
        | inl e ↦ absurd (ground (arith, e, h))
        | inr (next, e) ↦
            page_faults-Sums_onto rest
              (add_fault faults (rendered_fault R raw) (R.tx_of (get "tx" raw))) next after
              (page_step-Sums faults before next raw (rendered_fault R raw) s e)
              (ground (arith, e, h))
      ]

  -- Where a page's dictionary of faults is built, the entry of each record's key sums up that key's
  -- faults in the window: none where there are none; else their number, and what it shows is of one
  -- of them at the highest transaction.
  pub page_faults-Sums :
      (rows : List Fields) (faults : PageFaults)
      → page_faults R [] rows ≡ some faults
      → Sums (faults_onto [] rows) (find_fault key faults)
  unfolding find_fault
  page_faults-Sums rows faults h = page_faults-Sums_onto rows [] [] faults sums_none h
