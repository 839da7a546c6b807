-- ===== src/AnchorService/Reconcile/Live.antt =====
-- What is live, and what was handed out, as sets of integers.
use compliance_ail.Common.{
  ◌≡◌, refl, sym, ap, ◌∙◌, ◌↔◌, ℕ, zero, suc, ◌+◌, ◌-◌, ◌≤◌, ◌<◌, true, some, List, [], ◌∷◌, arith,
  inl, inr, ◌⊎◌, Bool-cases, Option-cases, In, In-union, union, ℤ, pos, negsuc, int_eq, int_eq-eq,
  int_eq_refl,
}
use compliance_ail.AnchorService.Collect.{Host}
use compliance_ail.AnchorService.Reconcile.{count_from, handed_out, live_of}

pub int_eq_iff : (a b : ℤ) → (int_eq a b ≡ true) ↔ (a ≡ b)
int_eq_iff a b = (int_eq-eq a b, λ e. ap (int_eq a) (sym e) ∙ int_eq_refl a)

In-count_from :
    (z : ℤ) (count first : ℕ)
    → In z (count_from count first) ↔ ((n : ℕ) × (z ≡ pos n) × (first ≤ n) × (n < first + count))
unfolding count_from
In-count_from z zero first = (λ h. elim h [ ], λ (n, e, l, u). absurd (omega (arith, l, u)))
In-count_from z (suc count) first =
    let (to, from) = In-count_from z count (first + 1) in
    (
      λ h. elim h [
        | inl e ↦ (first, e, omega arith, omega arith)
        | inr i ↦ let (n, e, l, u) = to i in (n, e, omega (arith, l), omega (arith, u))
      ],
      λ (n, e, l, u). elim (Bool-cases (int_eq (pos n) (pos first))) [
        | inl same ↦ inl (e ∙ int_eq-eq (pos n) (pos first) same)
        | inr other ↦
            let distinct : n ≡ first → ⊥ = λ same.
              ground (
                arith,
                other,
                ap (λ k. int_eq (pos k) (pos first)) same,
                int_eq_refl (pos first),
              ) in
            inr (from (n, e, omega (arith, l, distinct), omega (arith, u)))
      ],
    )

-- The counter reached this position.
abbrev pub IsReached : ℤ → ℕ → Type 0
IsReached (pos m) n = n ≤ m
IsReached (negsuc m) n = ⊥

-- An integer that the counter handed out above the reserve.
abbrev pub IsHandedOut : ℕ → ℤ → ℤ → Type 0
IsHandedOut reserve allocated z = (n : ℕ) × (z ≡ pos n) × (reserve < n) × IsReached allocated n

pub In-handed_out :
    (reserve : ℕ) (allocated z : ℤ)
    → In z (handed_out reserve allocated) ↔ IsHandedOut reserve allocated z
unfolding handed_out
In-handed_out reserve (pos m) z =
    let (to, from) = In-count_from z (m - reserve) (reserve + 1) in
    (
      λ h. let (n, e, l, u) = to h in (n, e, omega (arith, l), omega (arith, l, u)),
      λ (n, e, l, u). from (n, e, omega (arith, l), omega (arith, l, u)),
    )
In-handed_out reserve (negsuc m) z = (λ h. elim h [ ], λ (n, e, l, u). elim u [ ])

module _ (H : Host) (reserve : ℕ) where
  -- A list of scores has this integer above the reserve.
  abbrev pub IsLive : List H.F → ℤ → Type 0
  IsLive ss z = (s : H.F) × In s ss × (H.is_above reserve s ≡ true) × (H.as_whole s ≡ some z)

  pub In-live_of : (ss : List H.F) (z : ℤ) → In z (live_of H reserve ss) ↔ IsLive ss z
  unfolding live_of
  In-live_of [] z = (λ h. elim h [ ], λ (s, i, a, w). elim i [ ])
  In-live_of (x ∷ ss) z =
      let (to, from) = In-live_of ss z in
      let later : IsLive ss z → IsLive (x ∷ ss) z = λ (s, i, a, w). (s, inr i, a, w) in
      elim (Bool-cases (H.is_above reserve x)) [
        | inr history ↦ rw history (
          λ h. later (to h),
          λ (s, i, a, w). elim i [
            | inl e ↦ absurd (ground (arith, history, a, ap (H.is_above reserve) e))
            | inr j ↦ from (s, j, a, w)
          ],
        )
        | inl above ↦ elim (Option-cases (H.as_whole x)) [
          | inl between ↦
              rw (above, between, live_of)
                (
                  λ h. later (to h),
                  λ (s, i, a, w). elim i [
                    | inl e ↦ absurd (ground (arith, between, w, ap H.as_whole e))
                    | inr j ↦ from (s, j, a, w)
                  ],
                )
          | inr (n, is_n) ↦
              rw (above, is_n, live_of)
                (
                  λ h. elim h [
                    | inl e ↦ (x, inl refl, above, is_n ∙ ap some (sym e))
                    | inr i ↦ later (to i)
                  ],
                  λ (s, i, a, w). elim i [
                    | inl e ↦ inl (cc (w, is_n, ap H.as_whole e))
                    | inr j ↦ inr (from (s, j, a, w))
                  ],
                )
        ]
      ]

  pub In-lives :
      (d i : List H.F) (z : ℤ)
      → In z (union int_eq (live_of H reserve d) (live_of H reserve i)) ↔ (IsLive d z ⊎ IsLive i z)
  In-lives d i z =
      let (to, from) = In-union int_eq int_eq_iff z (live_of H reserve d) (live_of H reserve i) in
      let (d_to, d_from) = In-live_of d z in
      let (i_to, i_from) = In-live_of i z in
      (
        λ h. elim (to h) [ inl a ↦ inl (d_to a) | inr b ↦ inr (i_to b) ],
        λ h. elim h [ inl a ↦ from (inl (d_from a)) | inr b ↦ from (inr (i_from b)) ],
      )
