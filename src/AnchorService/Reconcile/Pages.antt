-- ===== src/AnchorService/Reconcile/Pages.antt =====
-- A view that a server keeps and pages out: where the first page is full, the second repeats a key.
use compliance_ail.Common.{
  ◌≡◌, ◌≢◌, refl, sym, ap, ◌∙◌, ℕ, zero, suc, ◌≤◌, ◌<◌, true, false, not, Option, none, some, List,
  [], ◌∷◌, ◌++◌, Text, arith, inl, inr, ◌⊎◌, length, take, drop, filter, In, In-filter,
}
use mathlib.Core.Path.{subst}
use compliance_ail.Common.Json.{Fields}
use compliance_ail.AnchorService.Collect.{
  Host, ViewRead, Answer, entries, raised, returned, no_rows, unparseable, from, read_rows, cursor,
  is_last, collect_view, empty_read,
}
use compliance_ail.AnchorService.Collect.Rounds.{raises, stops, ends, goes_on, collect_view-IsRound}
use compliance_ail.AnchorService.Reconcile.Repeats.{Once, keys_of}
use compliance_ail.AnchorService.Reconcile.Overlap.{collect_view-Once}
use compliance_ail.AnchorService.Reconcile.Rows.{
  Indexed, rows_of, length-rows_of, IsReadable, at_least, AreReadable, Read-all, first_new,
  cursor-last, filter-first,
}

module _ (H : Host) where
  module _ {Net : Type 0} (zscan : Net → Text → Option H.F → Answer × Net) (limit : ℕ) (view : Text)
      (held : List (Indexed H)) where
    -- The view stays as it is, and answers a scan with its first rows that are not below the bound.
    pub record IsServed : Type 0 where
      pub readable : (x : Indexed H) → In x held → IsReadable H x
      pub irreflexive : (s : H.F) → H.lt s s ≡ false
      pub answers :
          (net : Net) (min : Option H.F)
          → (zscan net view min).0 ≡ entries (rows_of H (take limit (filter (at_least H min) held)))

    pub In-take : (n : ℕ) (xs : List (Indexed H)) (x : Indexed H) → In x (take n xs) → In x xs
    In-take zero xs x i = elim i [ ]
    In-take (suc n) [] x i = elim i [ ]
    In-take (suc n) (y ∷ xs) x (inl e) = inl e
    In-take (suc n) (y ∷ xs) x (inr i) = inr (In-take n xs x i)

    unfoldable pub page : Option H.F → List (Indexed H)
    page min = take limit (filter (at_least H min) held)

    pub page-AreReadable : (I : IsServed) (min : Option H.F) → AreReadable H min (page min)
    unfolding page
    page-AreReadable I min x i =
        let (j, b) =
          (In-filter (at_least H min) x held).0
            (In-take limit (filter (at_least H min) held) x i) in
        (I.readable x j, b)

    -- Nothing that the server sends raises.
    pub collect_view-returns :
        (I : IsServed) (fuel : ℕ) (prefix : Text) (min : Option H.F) (acc : ViewRead H.F)
        (net : Net)
        → (collect_view H zscan limit fuel view prefix min acc net).0 ≢ raised
    unfolding collect_view page
    collect_view-returns I zero prefix min acc net = λ e. absurd (cc e)
    collect_view-returns I (suc fuel) prefix min acc net =
        elim (collect_view-IsRound H zscan limit fuel view prefix min acc net) [
          | raises (inl gone) r ↦ λ e. absurd (cc (gone, I.answers net min))
          | raises (inr (rows, a, gone)) r ↦ λ e.
              let R = Read-all H prefix min (page min) acc (page-AreReadable I min) in
              let same_rows : rows ≡ rows_of H (page min) = cc (a, I.answers net min) in
              absurd (cc (gone, R.read, ap (λ q. read_rows H prefix min q acc) same_rows))
          | stops v n t a r p ↦ λ e. absurd (cc (r, e))
          | ends rows after v q w r p ↦ λ e. absurd (cc (r, e))
          | goes_on rows after s q c more r ↦ λ e.
              collect_view-returns I fuel prefix (some s) after (zscan net view min).1 (sym r ∙ e)
        ]

    pub filter-all : (xs : List (Indexed H)) → filter (at_least H none) xs ≡ xs
    unfolding filter at_least
    filter-all [] = refl
    filter-all (x ∷ xs) = ap (λ q. x ∷ q) (filter-all xs)

    pub take-drop : (n : ℕ) (xs : List (Indexed H)) → xs ≡ take n xs ++ drop n xs
    take-drop zero xs = refl
    take-drop (suc n) [] = refl
    take-drop (suc n) (x ∷ xs) = ap (λ q. x ∷ q) (take-drop n xs)

    pub length-take : (n : ℕ) (xs : List (Indexed H)) → n ≤ length xs → length (take n xs) ≡ n
    length-take zero xs h = refl
    length-take (suc n) [] h = absurd (omega (arith, h))
    length-take (suc n) (x ∷ xs) h = ap suc (length-take n xs (omega (arith, h)))

    -- A page that starts with a key that is there repeats it.
    pub second_page :
        (I : IsServed) (fuel : ℕ) (prefix : Text) (min : Option H.F) (acc v : ViewRead H.F)
        (net : Net) (z : Indexed H) (zs : List (Indexed H))
        → page min ≡ z ∷ zs
        → In z.key (keys_of H acc.positions)
        → (collect_view H zscan limit (suc fuel) view prefix min acc net).0 ≡ returned v
        → ¬ Once (keys_of H v.positions)
    unfolding page
    second_page I fuel prefix min acc v net z zs starts old h =
        let (readable, inside) = page-AreReadable I min z (subst (In z) (sym starts) (inl refl)) in
        let again : (rows : List Fields) (after : ViewRead H.F)
            → (zscan net view min).0 ≡ entries rows
            → read_rows H prefix min rows acc ≡ some after
            → ¬ Once (keys_of H after.positions) =
          λ rows after a e o.
            let same_rows : rows ≡ rows_of H (page min) = cc (a, I.answers net min) in
            first_new H prefix min z zs acc after readable inside
              (subst (λ q. read_rows H prefix min q acc ≡ some after)
                (same_rows ∙ ap (rows_of H) starts) e)
              o old in
        elim (collect_view-IsRound H zscan limit fuel view prefix min acc net) [
          | raises w r ↦ absurd (cc (r, h))
          | stops u n t a r p ↦ absurd (cc (a, I.answers net min))
          | ends rows after u q w r p ↦ λ o.
              let e : u ≡ v = cc (r, h) in
              again rows after q.answered q.read
                (subst (λ k. Once (keys_of H k)) (sym (p ∙ ap (λ k. k.positions) e)) o)
          | goes_on rows after s q c more r ↦ λ o. again rows after q.answered q.read (
              collect_view-Once H zscan limit fuel view prefix (some s) after v
                (zscan net view min).1 (sym r ∙ h) o)
        ]

    pub length-held : (ps : List (H.F × List Text)) (k : Text) → In k (keys_of H ps) → length ps ≢ 0
    length-held [] k i = elim i [ ]
    length-held (p ∷ ps) k i = λ e. absurd (omega (arith, e))

    pub is_last-full :
        (rows : List Fields) (after : ViewRead H.F)
        → length rows ≡ limit
        → length after.positions ≢ 0
        → is_last H limit rows (empty_read H zscan limit) after ≡ true
        → ⊥
    unfolding is_last empty_read
    is_last-full rows after full grown h = ground (arith, full, grown, h)

    pub nonempty_of :
        (xs : List (Indexed H))
        → length xs ≡ limit
        → 0 < limit
        → (y : Indexed H) × (ys : List (Indexed H)) × (xs ≡ y ∷ ys)
    nonempty_of [] e l = absurd (omega (arith, e, l))
    nonempty_of (y ∷ ys) e l = (y, ys, refl)

    pub take-nonempty :
        (n : ℕ) (z : Indexed H) (zs xs : List (Indexed H))
        → 0 < n
        → xs ≡ z ∷ zs
        → (ys : List (Indexed H)) × (take n xs ≡ z ∷ ys)
    take-nonempty zero z zs xs l e = absurd (omega (arith, l))
    take-nonempty (suc n) z zs xs l e = (take n zs, ap (take (suc n)) e)

    -- What the first page leaves: its keys, a bound, and a next page that starts with one of them.
    pub record Opening (prefix : Text) : Type 0 where
      pub after : ViewRead H.F
      pub read :
          read_rows H prefix none (rows_of H (page none)) (empty_read H zscan limit) ≡ some after
      pub full : length (rows_of H (page none)) ≡ limit
      pub score : H.F
      pub bound : cursor H (rows_of H (page none)) ≡ from score
      pub next : Indexed H
      pub others : List (Indexed H)
      pub starts : page (some score) ≡ next ∷ others
      pub old : In next.key (keys_of H after.positions)

    pub opening : (I : IsServed) (prefix : Text) → 0 < limit → limit ≤ length held → Opening prefix
    unfolding page
    opening I prefix l full =
        let start : ViewRead H.F = empty_read H zscan limit in
        let shown : page none ≡ take limit held = ap (take limit) (filter-all held) in
        let long : length (take limit held) ≡ limit = length-take limit held full in
        let R = Read-all H prefix none (page none) start (page-AreReadable I none) in
        let (x, xs, opens) = nonempty_of (page none) (ap length shown ∙ long) l in
        let (y, i, at_end) =
          cursor-last H x xs (λ z j. (page-AreReadable I none z (subst (In z) (sym opens) j)).0) in
        let y_shown : In y (take limit held) = subst (In y) (sym opens ∙ shown) i in
        let y_kept : at_least H (some y.score) y ≡ true =
          unfold at_least in ap not (I.irreflexive y.score) in
        let (z, zs, kept, z_shown, z_kept) =
          filter-first H (at_least H (some y.score)) (take limit held) (drop limit held) y y_shown
            y_kept in
        let opens_next : (ys : List (Indexed H)) × (page (some y.score) ≡ z ∷ ys) =
          take-nonempty limit z zs (filter (at_least H (some y.score)) held) l
            (ap (filter (at_least H (some y.score))) (take-drop limit held) ∙ kept) in
        let z_key : In z.key (keys_of H R.after.positions) =
          R.has_keys z (subst (In z) (sym shown) z_shown) in
        let found_cursor : cursor H (rows_of H (page none)) ≡ from y.score =
          ap (λ q. cursor H (rows_of H q)) opens ∙ at_end in
        let rows_long : length (rows_of H (page none)) ≡ limit =
          length-rows_of H (page none) ∙ ap length shown ∙ long in
        record {
          after = R.after;
          read = R.read;
          full = rows_long;
          score = y.score;
          bound = found_cursor;
          next = z;
          others = opens_next.0;
          starts = opens_next.1;
          old = z_key;
        }

    pub not_last :
        {prefix : Text} (O : Opening prefix) (rows : List Fields) (after : ViewRead H.F)
        → rows ≡ rows_of H (page none)
        → after ≡ O.after
        → (cursor H rows ≡ no_rows)
          ⊎ (cursor H rows ≡ unparseable)
          ⊎ (is_last H limit rows (empty_read H zscan limit) after ≡ true)
        → ⊥
    not_last O rows after r a (inl c) = absurd (cc (c, O.bound, ap (cursor H) r))
    not_last O rows after r a (inr (inl c)) = absurd (cc (c, O.bound, ap (cursor H) r))
    not_last O rows after r a (inr (inr last)) =
        is_last-full rows after (ap length r ∙ O.full)
          (length-held after.positions O.next.key
            (subst (λ k. In O.next.key (keys_of H k.positions)) (sym a) O.old))
          last

    -- The first page is full, so there is a second one, which starts inside the first.
    pub first_page :
        (I : IsServed) (fuel : ℕ) (prefix : Text) (v : ViewRead H.F) (net : Net)
        → 0 < limit
        → limit ≤ length held
        → (collect_view H zscan limit
            (suc (suc fuel))
            view
            prefix
            none
            (empty_read H zscan limit)
            net).0
          ≡ returned v
        → ¬ Once (keys_of H v.positions)
    first_page I fuel prefix v net l full h =
        let O = opening I prefix l full in
        let pages : (rows : List Fields)
            → (zscan net view none).0 ≡ entries rows
            → rows ≡ rows_of H (page none) =
          λ rows a. unfold page in cc (a, I.answers net none) in
        let reads : (rows : List Fields) (after : ViewRead H.F)
            → (zscan net view none).0 ≡ entries rows
            → read_rows H prefix none rows (empty_read H zscan limit) ≡ some after
            → after ≡ O.after =
          λ rows after a e. cc (
            e,
            O.read,
            ap (λ q. read_rows H prefix none q (empty_read H zscan limit)) (pages rows a),
          ) in
        elim (collect_view-IsRound H zscan limit (suc fuel) view prefix none
          (empty_read H zscan limit) net) [
            | raises w r ↦ absurd (cc (r, h))
            | stops u n t a r p ↦ absurd (cc (a, I.answers net none))
            | ends rows after u q w r p ↦ absurd (
                not_last O rows after (pages rows q.answered) (reads rows after q.answered q.read)
                  w)
            | goes_on rows after s q c more r ↦
                let bound : s ≡ O.score = cc (c, O.bound, ap (cursor H) (pages rows q.answered)) in
                let same_after = reads rows after q.answered q.read in
                second_page I fuel prefix (some s) after v (zscan net view none).1 O.next O.others
                  (ap (λ k. page (some k)) bound ∙ O.starts)
                  (subst (λ k. In O.next.key (keys_of H k.positions)) (sym same_after) O.old)
                  (sym r ∙ h)
          ]
