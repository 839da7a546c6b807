-- ===== src/ControlPlane/Window/Complete.antt =====
-- The pages of a scan, put together, are the window of the ledger, and the loop ends.
use compliance_ail.Common.{
  ◌≡◌, refl, sym, ap, ◌∙◌, ℕ, zero, suc, ◌+◌, ◌≤◌, ◌<◌, Bool, true, false, ltb, Option, some, List,
  [], ◌∷◌, ◌++◌, Bytes, length, take, arith, inl, inr, Bool-cases,
}
use mathlib.Core.List.{append_assoc}
use compliance_ail.Common.Json.{Fields}
use compliance_ail.Provenance.{Crypto}
use compliance_ail.ControlPlane.Faults.{Reader}
use compliance_ail.ControlPlane.Window.{
  in_window, fine, row_key, check_rows, last_key, rows, window, tx_bound, faults_in_tx_window,
}
use compliance_ail.ControlPlane.Window.Suffix.{Ledger, Ascends, within, within-suffix}

-- The rows without their keys.
abbrev pub rows_of : Ledger → List Fields
rows_of [] = []
rows_of ((k, r) ∷ rest) = r ∷ rows_of rest

rows_of-append : (xs ys : Ledger) → rows_of (xs ++ ys) ≡ rows_of xs ++ rows_of ys
rows_of-append [] ys = refl
rows_of-append ((k, r) ∷ xs) ys = ap (λ t. r ∷ t) (rows_of-append xs ys)

length-rows_of : (xs : Ledger) → length (rows_of xs) ≡ length xs
length-rows_of [] = refl
length-rows_of ((k, r) ∷ xs) = ap suc (length-rows_of xs)

take-short : (n : ℕ) (xs : Ledger) → length (take n xs) < n → take n xs ≡ xs
take-short zero xs h = absurd (omega (arith, h))
take-short (suc n) [] h = refl
take-short (suc n) (x ∷ xs) h = ap (λ t. x ∷ t) (take-short n xs (omega (arith, h)))

-- A full page ends in a row, behind which the rest follows.
record Split (n : ℕ) (xs : Ledger) : Type 0 where
  before : Ledger
  key : Bytes
  row : Fields
  after : Ledger
  page : take n xs ≡ before ++ (key, row) ∷ []
  whole : xs ≡ before ++ (key, row) ∷ after
  shorter : length after < length xs

full-Split : (n : ℕ) (xs : Ledger) → n < length (take (suc n) xs) → Split (suc n) xs
full-Split n [] h = absurd (omega (arith, h))
full-Split zero ((k, r) ∷ xs) h = record {
  before = [];
  key = k;
  row = r;
  after = xs;
  page = refl;
  whole = refl;
  shorter = omega arith;
}
full-Split (suc n) (x ∷ xs) h =
    let s = full-Split n xs (omega (arith, h)) in
    record {
      before = x ∷ s.before;
      key = s.key;
      row = s.row;
      after = s.after;
      page = ap (λ t. x ∷ t) s.page;
      whole = ap (λ t. x ∷ t) s.whole;
      shorter = let l = s.shorter in omega (arith, l);
    }

full_page : (n : ℕ) (xs : Ledger) → 0 < n → n ≤ length (take n xs) → Split n xs
full_page zero xs l h = absurd (omega (arith, l))
full_page (suc n) xs l h = full-Split n xs (omega (arith, h))

-- The page and what is behind it are the whole.
Split-append : {n : ℕ} {xs : Ledger} (s : Split n xs) → take n xs ++ s.after ≡ xs
Split-append s =
    ap (λ t. t ++ s.after) s.page
    ∙ append_assoc s.before ((s.key, s.row) ∷ []) s.after
    ∙ sym s.whole

module _ {C : Crypto} (R : Reader C) where
  -- Each row decodes to its key.
  abbrev pub Decodes : Ledger → Type 0
  Decodes [] = Unit {0}
  Decodes ((k, r) ∷ rest) = (row_key R r ≡ some k) × Decodes rest

  -- Each key is in the window.
  abbrev Inside : Bytes → Bool → Bytes → Ledger → Type 0
  Inside seek inclusive end [] = Unit {0}
  Inside seek inclusive end ((k, r) ∷ rest) =
      (in_window seek inclusive end k ≡ true) × Inside seek inclusive end rest

  within-Inside :
      (seek end : Bytes) (inclusive : Bool) (xs : Ledger)
      → Decodes xs
      → Inside seek inclusive end (within seek inclusive end xs)
        × Decodes (within seek inclusive end xs)
  unfolding within
  within-Inside seek end inclusive [] d = (tt, tt)
  within-Inside seek end inclusive ((k, r) ∷ xs) (e, d) =
      let (inside, decodes) = within-Inside seek end inclusive xs d in
      elim (Bool-cases (in_window seek inclusive end k)) [
        | inl yes_in ↦ rw yes_in ((yes_in, inside), (e, decodes))
        | inr not_in ↦ rw not_in (inside, decodes)
      ]

  check_rows-take :
      (n : ℕ) (seek end : Bytes) (inclusive : Bool) (xs : Ledger)
      → Inside seek inclusive end xs
      → Decodes xs
      → check_rows R seek inclusive end (rows_of (take n xs)) ≡ fine
  unfolding check_rows
  check_rows-take zero seek end inclusive xs i d = refl
  check_rows-take (suc n) seek end inclusive [] i d = refl
  check_rows-take (suc n) seek end inclusive ((k, r) ∷ xs) (i, is) (d, ds) =
      rw (d, check_rows, i) (check_rows-take n seek end inclusive xs is ds)

  last_key-append :
      (xs : Ledger) (k : Bytes) (r : Fields)
      → row_key R r ≡ some k
      → last_key R (rows_of (xs ++ (k, r) ∷ [])) ≡ some k
  unfolding last_key
  last_key-append [] k r d = d
  last_key-append ((a, q) ∷ []) k r d = d
  last_key-append ((a, q) ∷ (b, p) ∷ xs) k r d = last_key-append ((b, p) ∷ xs) k r d

  Decodes-at :
      (pre post : Ledger) (k : Bytes) (r : Fields)
      → Decodes (pre ++ (k, r) ∷ post)
      → row_key R r ≡ some k
  Decodes-at [] post k r (d, ds) = d
  Decodes-at ((a, q) ∷ pre) post k r (d, ds) = Decodes-at pre post k r ds

  module _ {Net : Type 0} (scan : Net → Bytes → Bool → Bytes → Option (List Fields) × Net)
      (limit : ℕ) (ledger : Ledger) where
    -- The ledger stays as it is, and answers a scan with the first rows of the window, `limit` at
    -- most, in the order of their keys.
    pub record IsScan : Type 0 where
      pub sorted : Ascends ledger
      pub decodes : Decodes ledger
      pub answers :
          (net : Net) (seek : Bytes) (inclusive : Bool) (end : Bytes)
          → (scan net seek inclusive end).0
            ≡ some (rows_of (take limit (within seek inclusive end ledger)))

    window-within :
        (I : IsScan) (fuel : ℕ) (seek end : Bytes) (inclusive : Bool) (entries : List Fields)
        (net : Net)
        → 0 < limit
        → length (within seek inclusive end ledger) < fuel
        → window R scan limit fuel seek inclusive end entries net
          ≡ rows (entries ++ rows_of (within seek inclusive end ledger))
    unfolding window
    window-within I zero seek end inclusive entries net l f = absurd (omega (arith, f))
    window-within I (suc fuel) seek end inclusive entries net l f =
        let found : Ledger = within seek inclusive end ledger in
        let page : Ledger = take limit found in
        let (inside, decodes) = within-Inside seek end inclusive ledger I.decodes in
        let checked = check_rows-take limit seek end inclusive found inside decodes in
        let long : length (rows_of page) ≡ length page = length-rows_of page in
        elim (Bool-cases (ltb (length (rows_of page)) limit)) [
          | inl short ↦
              let all_of : page ≡ found = take-short limit found (ground (arith, short, long)) in
              rw (I.answers net seek inclusive end, window, checked, short)
                (ap (λ x. rows (entries ++ rows_of x)) all_of)
          | inr full ↦
              let s : Split limit found = full_page limit found l (ground (arith, full, long)) in
              let behind =
                within-suffix seek end inclusive ledger s.before s.after s.key s.row I.sorted
                  s.whole in
              let shorter = s.shorter in
              let decoded : row_key R s.row ≡ some s.key =
                Decodes-at s.before s.after s.key s.row (rw (sym s.whole) decodes) in
              let last : last_key R (rows_of page) ≡ some s.key =
                ap (λ x. last_key R (rows_of x)) s.page
                ∙ last_key-append s.before s.key s.row decoded in
              let later =
                window-within I fuel s.key end false (entries ++ rows_of page)
                  (scan net seek inclusive end).1 l (rw behind (omega (arith, shorter, f))) in
              rw (I.answers net seek inclusive end, window, checked, full, last)
                (later
                  ∙ ap rows (
                      ap (λ x. (entries ++ rows_of page) ++ rows_of x) behind
                      ∙ append_assoc entries (rows_of page) (rows_of s.after)
                      ∙ ap (λ x. entries ++ x)
                          (sym (rows_of-append page s.after) ∙ ap rows_of (Split-append s))))
        ]

    -- Over a ledger that stays as it is, in the order of its keys, and that answers scans as asked, one
    -- round more than the window has rows is enough, and the read is exactly the rows whose keys are
    -- from the bound of the lowest transaction up to that behind the highest.
    pub faults_in_tx_window-within :
        (I : IsScan) (fuel min_tx max_tx : ℕ) (net : Net)
        → 0 < limit
        → length (within (tx_bound min_tx) true (tx_bound (max_tx + 1)) ledger) < fuel
        → faults_in_tx_window R scan limit fuel min_tx max_tx net
          ≡ rows (rows_of (within (tx_bound min_tx) true (tx_bound (max_tx + 1)) ledger))
    unfolding faults_in_tx_window
    faults_in_tx_window-within I fuel min_tx max_tx net l f =
        window-within I fuel (tx_bound min_tx) (tx_bound (max_tx + 1)) true [] net l f
