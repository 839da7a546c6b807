-- ===== src/Verifier/Sequence/Effects.antt =====
-- What an ordered commit has done to the ledger, by how it ends.
use compliance_ail.Common.{
  ◌≡◌, refl, sym, ap, ◌∙◌, ◌⊎◌, inl, inr, ℕ, zero, suc, ◌+◌, Bool, true, false, Option, none, some,
  List, Bytes, ℤ, below, show, Bool-cases,
}
use compliance_ail.Verifier.Ledger.{
  Writes, Requires, key_must_not_exist, Reply, ok, fail, ExecAllRequest, Immudb, IsLedger,
  is_precondition_failed,
}
use compliance_ail.Verifier.Reserve.{max_position}
use compliance_ail.Verifier.Sequence.{
  Config, sequence_key, World, Cause, Outcome, raise, loop_step, commit_loop, ordered_commit,
  committed, record_exists, uncertain, failed, Counter, Tried, got, raised, Step, stopped, again,
  exists, lost, done, commit_request, next_position, is_mismatch, after_refusal, after_request,
  issue, reserve_checked, attempt, client, no_transaction, budget_exhausted,
}
use compliance_ail.Verifier.Sequence.Kept.{
  read_bound_reserve-kept, observe-kept, after_refused-kept,
}

-- The causes with which the outcome of a request that was sent is lost.
abbrev pub IsLost : Cause → Type 0
IsLost (client f) = Unit
IsLost no_transaction = Unit
IsLost (Cause.bad_reserve e) = ⊥
IsLost (Cause.bad_counter b) = ⊥
IsLost (Cause.reserve_mismatch n) = ⊥
IsLost (Cause.position_limit n) = ⊥
IsLost (budget_exhausted n) = ⊥

module _ (cfg : Config) (key value view : Bytes) (bound : Option ℕ)
    (observed : Option Counter) where
  -- Every request writes its record, under a key that must be new, and the advanced counter.
  pub commit_request-Writes :
      Writes key value (commit_request cfg key value view bound observed).operations
  unfolding commit_request
  commit_request-Writes = inl refl

  pub commit_request-counter :
      Writes sequence_key
        (show (next_position cfg observed))
        (commit_request cfg key value view bound observed).operations
  unfolding commit_request
  commit_request-counter = inr (inl refl)

  pub commit_request-Requires :
      Requires
        (key_must_not_exist key)
        (commit_request cfg key value view bound observed).preconditions
  unfolding commit_request
  commit_request-Requires = inr (inl refl)

module _ (I : Immudb) (L : IsLedger I) (cfg : Config) (key value view : Bytes) where
  -- The state is the one that a request of this call left, and no earlier request took effect.
  pub record Issued (base : List ExecAllRequest) (s' : I.State) : Type 0 where
    pub before : I.State
    pub bound : Option ℕ
    pub observed : Option Counter
    pub after_is : s' ≡ (I.exec_all before (commit_request cfg key value view bound observed)).1
    pub none_before : L.applied before ≡ base

  pub record Answered (base : List ExecAllRequest) (tx : ℕ) (seq : ℤ) (s' : I.State) : Type 0 where
    pub issued : Issued base s'
    pub answer :
        (I.exec_all issued.before
          (commit_request cfg key value view issued.bound issued.observed)).0
        ≡ ok (some tx)
    pub position : seq ≡ next_position cfg issued.observed

  abbrev Explains : List ExecAllRequest → Step → I.State → Type 0
  Explains base (stopped c s) s' = L.applied s' ≡ base
  Explains base (again s) s' = L.applied s' ≡ base
  Explains base exists s' = L.applied s' ≡ base
  Explains base (lost c s) s' = Issued base s' × IsLost c
  Explains base (done tx seq) s' = Answered base tx seq s'

  module _ (base : List ExecAllRequest) where
    keep : (s : I.State) (k : Bytes) → L.applied s ≡ base → L.applied (I.get s k).1 ≡ base
    keep s k h = L.applied-get s k ∙ h

    refusal-Explains :
        (seq : ℤ) (x : Bool × World I)
        → L.applied (after_refusal I seq x).1.db ≡ base
        → Explains base (after_refusal I seq x).0 (after_refusal I seq x).1.db
    unfolding after_refusal
    refusal-Explains seq (true, w) h = h
    refusal-Explains seq (false, w) h = h

    request-Explains :
        (bound : Option ℕ) (observed : Option Counter) (w : World I)
        (x : Reply (Option ℕ) × I.State)
        → L.applied w.db ≡ base
        → I.exec_all w.db (commit_request cfg key value view bound observed) ≡ x
        → Explains base
            (after_request I cfg key bound (next_position cfg observed) w x).0
            (after_request I cfg key bound (next_position cfg observed) w x).1.db
    unfolding after_request
    request-Explains bound observed w (fail f, s) h e =
        elim (Bool-cases (is_precondition_failed f)) [
          | inl refused ↦
              rw (refused, after_request)
                (refusal-Explains _ _ (
                  after_refused-kept I (λ s. L.applied s ≡ base) keep _ (record w { db = s }) key
                    (ap (λ y. L.applied y.1) (sym e)
                      ∙ L.exec_refused w.db _ f (ap (λ y. y.0) e) refused
                      ∙ h)))
          | inr other ↦
              rw (other, after_request)
                (
                  record {
                    before = w.db;
                    bound = bound;
                    observed = observed;
                    after_is = ap (λ y. y.1) (sym e);
                    none_before = h;
                  },
                  tt,
                )
        ]
    request-Explains bound observed w (ok none, s) h e = (
      record {
        before = w.db;
        bound = bound;
        observed = observed;
        after_is = ap (λ y. y.1) (sym e);
        none_before = h;
      },
      tt,
    )
    request-Explains bound observed w (ok (some tx), s) h e = record {
      issued = record {
        before = w.db;
        bound = bound;
        observed = observed;
        after_is = ap (λ y. y.1) (sym e);
        none_before = h;
      };
      answer = ap (λ y. y.0) e;
      position = refl;
    }

    issue-Explains :
        (bound : Option ℕ) (x : Tried (Option Counter) × World I)
        → L.applied x.1.db ≡ base
        → Explains base
            (issue I cfg key value view bound x).0
            (issue I cfg key value view bound x).1.db
    unfolding issue
    issue-Explains bound (raised c, w) h = h
    issue-Explains bound (got observed, w) h =
        elim (Bool-cases (below (next_position cfg observed) max_position)) [
          | inl room ↦ rw (room, issue) (request-Explains bound observed w _ h refl)
          | inr full ↦ rw (full, issue) h
        ]

    checked-Explains :
        (x : Tried (Option ℕ) × World I)
        → L.applied x.1.db ≡ base
        → Explains base
            (reserve_checked I cfg key value view x).0
            (reserve_checked I cfg key value view x).1.db
    unfolding reserve_checked
    checked-Explains (raised c, w) h = h
    checked-Explains (got bound, w) h = elim (Bool-cases (is_mismatch cfg bound)) [
      | inl bad ↦ rw (bad, reserve_checked) h
      | inr fine ↦
          rw (fine, reserve_checked)
            (issue-Explains bound _ (observe-kept I (λ s. L.applied s ≡ base) keep cfg w h))
    ]

    pub attempt-Explains :
        (w : World I)
        → L.applied w.db ≡ base
        → Explains base (attempt I cfg key value view w).0 (attempt I cfg key value view w).1.db
    unfolding attempt
    attempt-Explains w h =
        checked-Explains _ (read_bound_reserve-kept I (λ s. L.applied s ≡ base) keep w h)

  -- What the outcome of a whole call shows of the ledger.
  abbrev pub Ends : List ExecAllRequest → Outcome → I.State → Type 0
  Ends base (committed tx seq n) s' = Answered base tx seq s'
  Ends base record_exists s' = L.applied s' ≡ base
  Ends base (uncertain c seq n) s' = (L.applied s' ≡ base) ⊎ (Issued base s' × IsLost c)
  Ends base (failed c) s' = L.applied s' ≡ base

  module _ (base : List ExecAllRequest) where
    raise-Ends :
        (issued : Bool) (c : Cause) (seq : Option ℤ) (n : ℕ) (s' : I.State)
        → L.applied s' ≡ base
        → Ends base (raise issued c seq n) s'
    unfolding raise
    raise-Ends true c seq n s' h = inl h
    raise-Ends false c seq n s' h = h

    step-Ends :
        (continue : ℤ → World I → Outcome × World I)
        → ((q : ℤ) (w : World I)
            → L.applied w.db ≡ base
            → Ends base (continue q w).0 (continue q w).1.db)
        → (issued : Bool) (seq : Option ℤ) (n : ℕ) (x : Step × World I) → Explains base x.0 x.1.db
        → Ends base
            (loop_step I continue issued seq n x).0
            (loop_step I continue issued seq n x).1.db
    unfolding loop_step
    step-Ends continue ih issued seq n (stopped c s, w) h = raise-Ends issued c _ n _ h
    step-Ends continue ih issued seq n (again s, w) h = ih s w h
    step-Ends continue ih issued seq n (exists, w) h = h
    step-Ends continue ih issued seq n (lost c s, w) h = inr h
    step-Ends continue ih issued seq n (done tx s, w) h = h

    loop-Ends :
        (left n : ℕ) (issued : Bool) (seq : Option ℤ) (w : World I)
        → L.applied w.db ≡ base
        → Ends base
            (commit_loop I cfg key value view left n issued seq w).0
            (commit_loop I cfg key value view left n issued seq w).1.db
    unfolding commit_loop
    loop-Ends zero n issued seq w h = raise-Ends issued _ seq n _ h
    loop-Ends (suc left) n issued seq w h =
        step-Ends _ (λ q w'. loop-Ends left (n + 1) true (some q) w') issued seq (n + 1) _
          (attempt-Explains base w h)

  pub ordered_commit-Ends :
      (w : World I)
      → Ends
          (L.applied w.db)
          (ordered_commit I cfg key value view w).0
          (ordered_commit I cfg key value view w).1.db
  unfolding ordered_commit
  ordered_commit-Ends w = loop-Ends (L.applied w.db) cfg.max_cas_attempts 0 false none w refl
