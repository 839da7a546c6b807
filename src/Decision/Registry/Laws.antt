-- ===== src/Decision/Registry/Laws.antt =====
-- A tool is "demonstrated" only through the run of its check in its own turn of the pass.
use compliance_ail.Common.{
  ◌≡◌, refl, sym, ap, ◌⊎◌, inl, inr, Bool, true, false, Option, none, some, [], ◌∷◌, String, ◌==ˢ◌,
  eq_iff, if◌then◌else◌, arith, Bool-cases, Option-cases,
}
use mathlib.Core.Path.{subst}
use compliance_ail.Decision.Registry.{
  ToolRegistration, Registry, Exclusivity, demonstrated, find_tool, is_verifiable, Verified,
  verified_of, set_verified, Verifiers, run_check, run_verification_pass, is_true,
  resolve_exclusivity,
}

verified_of-set :
    (n m : String) (b : Bool) (v : Verified)
    → verified_of m (set_verified n b v) ≡ (if n ==ˢ m then some b else verified_of m v)
unfolding verified_of set_verified
verified_of-set n m b [] = refl
verified_of-set n m b ((k, c) ∷ v) =
    ground (arith, eq_iff n m, eq_iff k n, eq_iff k m, verified_of-set n m b v)

-- The pass comes, from this state, to a registered tool of this name whose mechanism can be checked,
-- and its check answers true in the state that the turns before it have left: a tool of another
-- mechanism and one without a check change nothing, and a check leaves what it returns.
pub data Checked {S : Type 0} (verifiers : Verifiers S) (name : String)
    : Registry → S → Type 0 where
  in_turn :
      (reg : ToolRegistration) (rest : Registry) (s : S) (check : S → Bool × S)
      → is_verifiable reg.mechanism ≡ true
      → verifiers reg.mechanism ≡ some check
      → (check s).0 ≡ true
      → Checked verifiers name ((name, reg) ∷ rest) s
  after_skipped :
      (n : String) (reg : ToolRegistration) (rest : Registry) (s : S)
      → is_verifiable reg.mechanism ≡ false
      → Checked verifiers name rest s
      → Checked verifiers name ((n, reg) ∷ rest) s
  after_missing :
      (n : String) (reg : ToolRegistration) (rest : Registry) (s : S)
      → is_verifiable reg.mechanism ≡ true
      → verifiers reg.mechanism ≡ none
      → Checked verifiers name rest s
      → Checked verifiers name ((n, reg) ∷ rest) s
  after_check :
      (n : String) (reg : ToolRegistration) (rest : Registry) (s : S) (check : S → Bool × S)
      → is_verifiable reg.mechanism ≡ true
      → verifiers reg.mechanism ≡ some check
      → Checked verifiers name rest (check s).1
      → Checked verifiers name ((n, reg) ∷ rest) s

module _ {S : Type 0} (verifiers : Verifiers S) (name : String) where
  check_passed :
      (o : Option (S → Bool × S)) (s : S)
      → (run_check verifiers o s).0 ≡ true
      → (check : S → Bool × S) × (o ≡ some check) × ((check s).0 ≡ true)
  unfolding run_check
  check_passed none s h = absurd (cc h)
  check_passed (some f) s h = (f, refl, h)

  -- A later turn, after the run of this one.
  after_run :
      (n : String) (reg : ToolRegistration) (rest : Registry) (s : S) (o : Option (S → Bool × S))
      → is_verifiable reg.mechanism ≡ true
      → verifiers reg.mechanism ≡ o
      → Checked verifiers name rest (run_check verifiers o s).1
      → Checked verifiers name ((n, reg) ∷ rest) s
  unfolding run_check
  after_run n reg rest s none on e c = after_missing n reg rest s on e c
  after_run n reg rest s (some f) on e c = after_check n reg rest s f on e c

  -- What is verified once `n` is set to the answer of its check.
  after_set :
      (n : String) (reg : ToolRegistration) (rest : Registry) (v : Verified) (s : S)
      → is_verifiable reg.mechanism ≡ true
      → verified_of name (set_verified n (run_check verifiers (verifiers reg.mechanism) s).0 v)
        ≡ some true
      → (verified_of name v ≡ some true) ⊎ Checked verifiers name ((n, reg) ∷ rest) s
  after_set n reg rest v s on h = elim (Bool-cases (n ==ˢ name)) [
    | inl same ↦
        let passed : (run_check verifiers (verifiers reg.mechanism) s).0 ≡ true = ground (
          arith,
          same,
          h,
          verified_of-set n name (run_check verifiers (verifiers reg.mechanism) s).0 v,
        ) in
        let (check, is_check, answer) = check_passed (verifiers reg.mechanism) s passed in
        inr (
          subst (λ k. Checked verifiers name ((k, reg) ∷ rest) s) (sym ((eq_iff n name).0 same))
            (in_turn reg rest s check on is_check answer))
    | inr other ↦ inl (
        ground (
          arith,
          other,
          h,
          verified_of-set n name (run_check verifiers (verifiers reg.mechanism) s).0 v,
        ))
  ]

  -- A tool that is verified after the pass was verified before it, or its own check answered true in
  -- its turn, in the state that the checks before it left.
  pub run_verification_pass-Checked :
      (tools : Registry) (v : Verified) (s : S)
      → verified_of name (run_verification_pass verifiers tools v s).0 ≡ some true
      → (verified_of name v ≡ some true) ⊎ Checked verifiers name tools s
  unfolding run_verification_pass
  run_verification_pass-Checked [] v s h = inl h
  run_verification_pass-Checked ((n, reg) ∷ rest) v s h =
      elim (Bool-cases (is_verifiable reg.mechanism)) [
        | inr skip ↦ elim (run_verification_pass-Checked rest v s (ground (arith, skip, h))) [
          | inl before ↦ inl before
          | inr later ↦ inr (after_skipped n reg rest s skip later)
        ]
        | inl on ↦
            let (result, s') = run_check verifiers (verifiers reg.mechanism) s in
            elim (run_verification_pass-Checked rest (set_verified n result v) s'
              (ground (arith, on, h))) [
                | inl before ↦ after_set n reg rest v s on before
                | inr later ↦ inr (after_run n reg rest s (verifiers reg.mechanism) on refl later)
              ]
      ]

not-verified_of_nil : (name : String) → verified_of name [] ≡ some true → ⊥
unfolding verified_of
not-verified_of_nil name h = cc h

is_true-eq : (o : Option Bool) → is_true o ≡ true → o ≡ some true
unfolding is_true
is_true-eq none h = absurd (cc h)
is_true-eq (some b) h = ap some h

-- From a process that has verified nothing, a tool resolves to "demonstrated" after the pass only
-- if it is registered with a claim, and the pass came to a registered tool of that very name with a
-- verifiable mechanism, whose check answered true when it ran in that turn, in the state that the
-- checks before it left. Neither its own claim nor a run for another tool is enough.
pub resolve_exclusivity-demonstrated :
    {S : Type 0} (verifiers : Verifiers S) (tools : Registry) (name : String) (s : S)
    → resolve_exclusivity tools (run_verification_pass verifiers tools [] s).0 name
      ≡ some demonstrated
    → ((reg : ToolRegistration) × (find_tool name tools ≡ some reg)
        × ((claim : Exclusivity) × (reg.claimed_exclusivity ≡ some claim)))
      × Checked verifiers name tools s
unfolding resolve_exclusivity
resolve_exclusivity-demonstrated verifiers tools name s h =
    elim (Option-cases (find_tool name tools)) [
      | inl none_found ↦ absurd (ground (arith, none_found, h))
      | inr (reg, found) ↦ elim (Option-cases reg.claimed_exclusivity) [
        | inl unclaimed ↦ absurd (ground (arith, found, unclaimed, h))
        | inr (claim, claimed) ↦ (
          (reg, found, (claim, claimed)),
          elim (run_verification_pass-Checked verifiers name tools [] s
              (is_true-eq _ (ground (arith, found, claimed, h)))) [
                | inl before ↦ absurd (not-verified_of_nil name before)
                | inr checked ↦ checked
              ],
        )
      ]
    ]
