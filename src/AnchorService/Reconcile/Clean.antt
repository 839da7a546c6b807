-- ===== src/AnchorService/Reconcile/Clean.antt =====
-- When a reconciliation pass reads clean.
use compliance_ail.Common.{
  ◌≡◌, refl, ◌↔◌, ℕ, Bool, true, false, ◌&&◌, some, List, [], ◌∷◌, ◌++◌, arith, inl, inr, ◌⊎◌,
  Bool-cases, Option-cases, filter, In, In-filter, In-union, minus-nil, common-nil, nil-of_no_In,
  union, minus, common, ℤ, int_eq, if◌then◌else◌,
}
use mathlib.Core.Path.{subst}
use compliance_ail.AnchorService.Collect.{Host, ViewRead, scores}
use compliance_ail.AnchorService.Reconcile.{
  clean, findings, is_empty, handed_out, live_of, is_fractional_above, duplicated_in, examine,
}
use compliance_ail.AnchorService.Reconcile.Repeats.{Once, keys_of, duplicated_in-Once}
use compliance_ail.AnchorService.Reconcile.Live.{
  int_eq_iff, IsHandedOut, In-handed_out, IsLive, In-live_of, In-lives,
}

is_empty_iff : {A : Type 0} (xs : List A) → (is_empty xs ≡ true) ↔ (xs ≡ [])
unfolding is_empty
is_empty_iff [] = (λ h. refl, λ h. refl)
is_empty_iff (x ∷ xs) = (λ h. absurd (ground (arith, h)), λ h. absurd (cc h))

module _ (H : Host) (reserve : ℕ) where
  -- Every score above the reserve is a position that the counter handed out.
  abbrev pub AreAccounted : ℤ → List H.F → Type 0
  AreAccounted allocated ss =
      (s : H.F)
      → In s ss
      → H.is_above reserve s ≡ true
      → (z : ℤ) × (H.as_whole s ≡ some z) × IsHandedOut reserve allocated z

  -- What a clean pass says of the two views.
  pub record IsClean (allocated : ℤ) (d i : ViewRead H.F) : Type 0 where
    pub covered :
        (z : ℤ)
        → IsHandedOut reserve allocated z
        → IsLive H reserve (scores H d.positions) z ⊎ IsLive H reserve (scores H i.positions) z
    pub accounted :
        AreAccounted allocated (scores H d.positions)
        × AreAccounted allocated (scores H i.positions)
    pub unshared :
        (z : ℤ)
        → IsLive H reserve (scores H d.positions) z
        → IsLive H reserve (scores H i.positions) z
        → ⊥
    pub once : Once (keys_of H d.positions) × Once (keys_of H i.positions)
    pub native : (d.foreign ≡ []) × (i.foreign ≡ [])
    pub readable : (d.malformed ≡ []) × (i.malformed ≡ [])

  append-nil : {A : Type 0} (xs ys : List A) → (xs ++ ys ≡ []) ↔ ((xs ≡ []) × (ys ≡ []))
  append-nil [] ys = (λ h. (refl, h), λ h. h.1)
  append-nil (x ∷ xs) ys = (λ h. absurd (cc h), λ h. absurd (cc h.0))

  both_empty :
      {A : Type 0} (xs ys : List A) → (is_empty (xs ++ ys) ≡ true) ↔ ((xs ≡ []) × (ys ≡ []))
  both_empty xs ys =
      let (to, from) = is_empty_iff (xs ++ ys) in
      let (split, join) = append-nil xs ys in (λ h. split (to h), λ h. from (join h))

  state-clean :
      (a b c d e f g : Bool)
      → ((if a && b && c && d && e && f && g then clean else findings) ≡ clean)
        ↔ ((a ≡ true) × (b ≡ true) × (c ≡ true) × (d ≡ true) × (e ≡ true) × (f ≡ true) × (g ≡ true))
  state-clean a b c d e f g = ground arith

  -- The pass finds no position without a record.
  missing-empty :
      (allocated : ℤ) (d i : List H.F)
      → (is_empty (
            minus int_eq
              (handed_out reserve allocated)
              (union int_eq (live_of H reserve d) (live_of H reserve i)))
          ≡ true)
        ↔ ((z : ℤ) → IsHandedOut reserve allocated z → IsLive H reserve d z ⊎ IsLive H reserve i z)
  missing-empty allocated d i =
      let live = union int_eq (live_of H reserve d) (live_of H reserve i) in
      let handed = handed_out reserve allocated in
      let (to, from) = is_empty_iff (minus int_eq handed live) in
      let (all_in, none_out) = minus-nil int_eq int_eq_iff handed live in
      (
        λ h z o.
            (In-lives H reserve d i z).0
              (all_in (to h) z ((In-handed_out reserve allocated z).1 o)),
        λ h. from (
            none_out (λ z o.
              (In-lives H reserve d i z).1 (h z ((In-handed_out reserve allocated z).0 o)))),
      )

  unallocated-empty :
      (allocated : ℤ) (d i : List H.F)
      → (is_empty (
            minus int_eq
              (union int_eq (live_of H reserve d) (live_of H reserve i))
              (handed_out reserve allocated))
          ≡ true)
        ↔ ((z : ℤ) → IsLive H reserve d z ⊎ IsLive H reserve i z → IsHandedOut reserve allocated z)
  unallocated-empty allocated d i =
      let live = union int_eq (live_of H reserve d) (live_of H reserve i) in
      let handed = handed_out reserve allocated in
      let (to, from) = is_empty_iff (minus int_eq live handed) in
      let (all_in, none_out) = minus-nil int_eq int_eq_iff live handed in
      (
        λ h z o.
            (In-handed_out reserve allocated z).0
              (all_in (to h) z ((In-lives H reserve d i z).1 o)),
        λ h. from (
            none_out (λ z o.
              (In-handed_out reserve allocated z).1 (h z ((In-lives H reserve d i z).0 o)))),
      )

  shared-empty :
      (d i : List H.F)
      → (is_empty (common int_eq (live_of H reserve d) (live_of H reserve i)) ≡ true)
        ↔ ((z : ℤ) → IsLive H reserve d z → IsLive H reserve i z → ⊥)
  shared-empty d i =
      let (to, from) = is_empty_iff (common int_eq (live_of H reserve d) (live_of H reserve i)) in
      let (apart, none_in) =
        common-nil int_eq int_eq_iff (live_of H reserve d) (live_of H reserve i) in
      (
        λ h z a b. apart (to h) z ((In-live_of H reserve d z).1 a) ((In-live_of H reserve i z).1 b),
        λ h. from (
            none_in
              (λ z a b. h z ((In-live_of H reserve d z).0 a) ((In-live_of H reserve i z).0 b))),
      )

  -- A score above the reserve is whole, or the pass finds it.
  is_fractional_above-whole :
      (s : H.F)
      → H.is_above reserve s ≡ true
      → (is_fractional_above H reserve s ≡ false) ↔ ((z : ℤ) × (H.as_whole s ≡ some z))
  unfolding is_fractional_above
  is_fractional_above-whole s a = elim (Option-cases (H.as_whole s)) [
    | inl between ↦ rw (a, between) (λ h. absurd (ground (arith, h)), λ (z, e). absurd (cc e))
    | inr (z, e) ↦ rw (a, e) (λ h. (z, refl), λ h. refl)
  ]

  is_fractional_above-above :
      (s : H.F) → is_fractional_above H reserve s ≡ true → H.is_above reserve s ≡ true
  unfolding is_fractional_above
  is_fractional_above-above s h = ground (arith, h)

  filter-nil :
      {A : Type 0} (p : A → Bool) (xs : List A) → filter p xs ≡ [] → (x : A) → In x xs → p x ≡ false
  filter-nil p xs h x i = elim (Bool-cases (p x)) [
    | inl good ↦ absurd (subst (In x) h ((In-filter p x xs).1 (i, good)))
    | inr bad ↦ bad
  ]

  live-of_accounted :
      (allocated : ℤ) (d i : List H.F)
      → AreAccounted allocated d × AreAccounted allocated i
      → (z : ℤ) → IsLive H reserve d z ⊎ IsLive H reserve i z
      → IsHandedOut reserve allocated z
  live-of_accounted allocated d i (in_d, in_i) z (inl (s, o, a, w)) =
      let (y, v, out) = in_d s o a in subst (IsHandedOut reserve allocated) (cc (v, w)) out
  live-of_accounted allocated d i (in_d, in_i) z (inr (s, o, a, w)) =
      let (y, v, out) = in_i s o a in subst (IsHandedOut reserve allocated) (cc (v, w)) out

  fractional-empty :
      (eq_iff : (a b : H.F) → (H.eq a b ≡ true) ↔ (a ≡ b)) (allocated : ℤ) (d i : List H.F)
      → ((z : ℤ) → IsLive H reserve d z ⊎ IsLive H reserve i z → IsHandedOut reserve allocated z)
      → (is_empty (filter (is_fractional_above H reserve) (union H.eq d i)) ≡ true)
        ↔ (AreAccounted allocated d × AreAccounted allocated i)
  fractional-empty eq_iff allocated d i live =
      let p = is_fractional_above H reserve in
      let all = union H.eq d i in
      let (to, from) = is_empty_iff (filter p all) in
      (
        λ h.
            let whole : (s : H.F)
                → In s d ⊎ In s i
                → H.is_above reserve s ≡ true
                → (z : ℤ) × (H.as_whole s ≡ some z) =
              λ s o a.
                (is_fractional_above-whole s a).0
                  (filter-nil p all (to h) s ((In-union H.eq eq_iff s d i).1 o)) in
            (
              λ s o a. let (z, w) = whole s (inl o) a in (z, w, live z (inl (s, o, a, w))),
              λ s o a. let (z, w) = whole s (inr o) a in (z, w, live z (inr (s, o, a, w))),
            ),
        λ (in_d, in_i). from (
            nil-of_no_In (filter p all) (λ s o.
              let (j, fractional) = (In-filter p s all).0 o in
              let above : H.is_above reserve s ≡ true = is_fractional_above-above s fractional in
              let accounted : (z : ℤ) × (H.as_whole s ≡ some z) =
                elim ((In-union H.eq eq_iff s d i).0 j) [
                  | inl k ↦ let (z, w, _) = in_d s k above in (z, w)
                  | inr k ↦ let (z, w, _) = in_i s k above in (z, w)
                ] in
              ground (arith, fractional, (is_fractional_above-whole s above).1 accounted))),
      )

  -- Where equality of floats is an equation, a pass reads clean exactly if the two views together hold
  -- each position that the counter handed out, hold no other score above the reserve, share none, have
  -- each key at one place, and nothing foreign or unreadable was collected.
  pub examine-IsClean :
      (eq_iff : (a b : H.F) → (H.eq a b ≡ true) ↔ (a ≡ b)) (allocated : ℤ) (d i : ViewRead H.F)
      → ((examine H reserve allocated d i).state ≡ clean) ↔ IsClean allocated d i
  unfolding examine
  examine-IsClean eq_iff allocated d i =
      let sd = scores H d.positions in
      let si = scores H i.positions in
      let (missing_to, missing_from) = missing-empty allocated sd si in
      let (unallocated_to, unallocated_from) = unallocated-empty allocated sd si in
      let (shared_to, shared_from) = shared-empty sd si in
      let (foreign_to, foreign_from) = both_empty d.foreign i.foreign in
      let (malformed_to, malformed_from) = both_empty d.malformed i.malformed in
      let (duplicated_to, duplicated_from) = both_empty (duplicated_in H d) (duplicated_in H i) in
      let (once_d_to, once_d_from) = duplicated_in-Once H d in
      let (once_i_to, once_i_from) = duplicated_in-Once H i in
      (
        λ h.
            let (m, u, r, f, s, b, t) = (state-clean _ _ _ _ _ _ _).0 h in
            let (t_d, t_i) = duplicated_to t in
            record {
              covered = missing_to m;
              accounted = (fractional-empty eq_iff allocated sd si (unallocated_to u)).0 r;
              unshared = shared_to s;
              once = (once_d_to t_d, once_i_to t_i);
              native = foreign_to f;
              readable = malformed_to b;
            },
        λ c.
            let live = live-of_accounted allocated sd si c.accounted in
            (state-clean _ _ _ _ _ _ _).1 (
              missing_from c.covered,
              unallocated_from live,
              (fractional-empty eq_iff allocated sd si live).1 c.accounted,
              foreign_from c.native,
              shared_from c.unshared,
              malformed_from c.readable,
              duplicated_from (once_d_from c.once.0, once_i_from c.once.1),
            ),
      )
