-- ===== src/Verifier/Sequence/Positions.antt =====
-- The position that a commit returns follows the counter that the ledger held at that commit.
use compliance_ail.Common.{
  ◌≡◌, refl, sym, ap, inl, inr, ℕ, zero, suc, ◌+◌, ◌≤◌, Bool, true, false, Option, none, some,
  Bytes, ℤ, pos, next, below, show, parse_int-show, Bool-cases,
}
use mathlib.Core.Path.{subst}
use compliance_ail.Verifier.Ledger.{
  Reply, ok, fail, Entry, Immudb, IsLedger, is_precondition_failed,
}
use compliance_ail.Verifier.Reserve.{max_position}
use compliance_ail.Verifier.Sequence.{
  Config, sequence_key, World, Counter, Tried, got, raised, Step, stopped, again, exists, lost,
  done, Cause, Outcome, presence, committed, record_exists, uncertain, failed, commit_request,
  next_position, read_bound_reserve, is_mismatch, record_key_present, after_refusal, after_request,
  issue, reserve_checked, attempt, raise, loop_step, commit_loop, ordered_commit,
}
use compliance_ail.Verifier.Sequence.Kept.{read_bound_reserve-kept, observe-kept}
use compliance_ail.Verifier.Sequence.Recorded.{
  Recorded, Recorded-get, read_bound_reserve-cache, Observed, observe-Observed, observe-cache,
}
use compliance_ail.Verifier.Sequence.Effects.{commit_request-counter}

module _ (I : Immudb) (L : IsLedger I) where
  module _ (cfg : Config) (key value view : Bytes) where
    -- A commit under a position: the request that took it, from the state that it found.
    pub record Placed (tx : ℕ) (seq : ℤ) (s' : I.State) : Type 0 where
      pub before : I.State
      pub bound : Option ℕ
      pub observed : Option Counter
      pub after_is : s' ≡ (I.exec_all before (commit_request cfg key value view bound observed)).1
      pub answer :
          (I.exec_all before (commit_request cfg key value view bound observed)).0 ≡ ok (some tx)
      pub position : seq ≡ next_position cfg observed
      pub room : below seq max_position ≡ true
      pub recorded : Recorded I L before observed

    abbrev Sound : Step → World I → Type 0
    Sound (stopped c s) w = Recorded I L w.db w.seq_cache
    Sound (again s) w = Recorded I L w.db w.seq_cache
    Sound exists w = Recorded I L w.db w.seq_cache
    Sound (lost c s) w = Recorded I L w.db w.seq_cache
    Sound (done tx seq) w =
        Placed tx seq w.db × (w.seq_cache ≡ some (record { seq = seq; tx = tx }))

    presence-Sound :
        (seq : ℤ) (w : World I) (x : Reply (Option Entry) × I.State)
        → Recorded I L x.1 w.seq_cache
        → Sound (after_refusal I seq (presence I w x)).0 (after_refusal I seq (presence I w x)).1
    unfolding after_refusal presence
    presence-Sound seq w (fail f, s) h = tt
    presence-Sound seq w (ok none, s) h = tt
    presence-Sound seq w (ok (some e), s) h = h

    Recorded-exec :
        (bound : Option ℕ) (observed o : Option Counter) (s : I.State)
        → Recorded I L s o
        → Recorded I L (I.exec_all s (commit_request cfg key value view bound observed)).1 o
    Recorded-exec bound observed none s h = tt
    Recorded-exec bound observed (some c) s (v, h, e) =
        (v, L.exec_keeps s _ sequence_key v c.tx h, e)

    request-Sound :
        (bound : Option ℕ) (observed : Option Counter) (w : World I)
        (x : Reply (Option ℕ) × I.State)
        → I.exec_all w.db (commit_request cfg key value view bound observed) ≡ x
        → below (next_position cfg observed) max_position ≡ true
        → Recorded I L w.db observed
        → Recorded I L x.1 w.seq_cache
        → Sound
            (after_request I cfg key bound (next_position cfg observed) w x).0
            (after_request I cfg key bound (next_position cfg observed) w x).1
    unfolding after_request record_key_present
    request-Sound bound observed w (fail f, s) e room r h =
        elim (Bool-cases (is_precondition_failed f)) [
          | inl refused ↦
              rw (refused, after_request)
                (presence-Sound _ (record w { db = s }) (I.get s key)
                  (Recorded-get I L w.seq_cache s key h))
          | inr other ↦ rw (other, after_request) h
        ]
    request-Sound bound observed w (ok none, s) e room r h = h
    request-Sound bound observed w (ok (some tx), s) e room r h = (
      record {
        before = w.db;
        bound = bound;
        observed = observed;
        after_is = ap (λ y. y.1) (sym e);
        answer = ap (λ y. y.0) e;
        position = refl;
        room = room;
        recorded = r;
      },
      refl,
    )

    issue-Sound :
        (bound : Option ℕ) (x : Tried (Option Counter) × World I)
        → Observed I L x.0 x.1.db
        → Recorded I L x.1.db x.1.seq_cache
        → Sound (issue I cfg key value view bound x).0 (issue I cfg key value view bound x).1
    unfolding issue
    issue-Sound bound (raised c, w) r h = h
    issue-Sound bound (got observed, w) r h =
        elim (Bool-cases (below (next_position cfg observed) max_position)) [
          | inl room ↦
              rw (room, issue)
                (request-Sound bound observed w _ refl room r
                  (Recorded-exec bound observed w.seq_cache w.db h))
          | inr full ↦ rw (full, issue) h
        ]

    checked-Sound :
        (x : Tried (Option ℕ) × World I)
        → Recorded I L x.1.db x.1.seq_cache
        → Sound
            (reserve_checked I cfg key value view x).0
            (reserve_checked I cfg key value view x).1
    unfolding reserve_checked
    checked-Sound (raised c, w) h = h
    checked-Sound (got bound, w) h = elim (Bool-cases (is_mismatch cfg bound)) [
      | inl bad ↦ rw (bad, reserve_checked) h
      | inr fine ↦
          rw (fine, reserve_checked)
            (issue-Sound bound _ (observe-Observed I L cfg w h) (
              rw (observe-cache I L cfg w) (
                observe-kept I (λ s. Recorded I L s w.seq_cache) (Recorded-get I L w.seq_cache) cfg
                  w h)))
    ]

    attempt-Sound :
        (w : World I)
        → Recorded I L w.db w.seq_cache
        → Sound (attempt I cfg key value view w).0 (attempt I cfg key value view w).1
    unfolding attempt
    attempt-Sound w h = checked-Sound (read_bound_reserve I w) (
        rw (read_bound_reserve-cache I L w) (
          read_bound_reserve-kept I (λ s. Recorded I L s w.seq_cache) (Recorded-get I L w.seq_cache)
            w h))

    abbrev Places : Outcome → World I → Type 0
    Places (committed tx seq n) w =
        Placed tx seq w.db × (w.seq_cache ≡ some (record { seq = seq; tx = tx }))
    Places record_exists w = Recorded I L w.db w.seq_cache
    Places (uncertain c s n) w = Recorded I L w.db w.seq_cache
    Places (failed c) w = Recorded I L w.db w.seq_cache

    raise-Places :
        (issued : Bool) (c : Cause) (seq : Option ℤ) (n : ℕ) (w : World I)
        → Recorded I L w.db w.seq_cache
        → Places (raise issued c seq n) w
    unfolding raise
    raise-Places true c seq n w h = h
    raise-Places false c seq n w h = h

    step-Places :
        (continue : ℤ → World I → Outcome × World I)
        → ((q : ℤ) (w : World I)
            → Recorded I L w.db w.seq_cache
            → Places (continue q w).0 (continue q w).1)
        → (issued : Bool) (seq : Option ℤ) (n : ℕ) (x : Step × World I) → Sound x.0 x.1
        → Places (loop_step I continue issued seq n x).0 (loop_step I continue issued seq n x).1
    unfolding loop_step
    step-Places continue ih issued seq n (stopped c s, w) h = raise-Places issued c _ n w h
    step-Places continue ih issued seq n (again s, w) h = ih s w h
    step-Places continue ih issued seq n (exists, w) h = h
    step-Places continue ih issued seq n (lost c s, w) h = h
    step-Places continue ih issued seq n (done tx s, w) h = h

    loop-Places :
        (left n : ℕ) (issued : Bool) (seq : Option ℤ) (w : World I)
        → Recorded I L w.db w.seq_cache
        → Places
            (commit_loop I cfg key value view left n issued seq w).0
            (commit_loop I cfg key value view left n issued seq w).1
    unfolding commit_loop
    loop-Places zero n issued seq w h = raise-Places issued _ seq n w h
    loop-Places (suc left) n issued seq w h =
        step-Places (λ q w'. commit_loop I cfg key value view left (n + 1) true (some q) w')
          (λ q w'. loop-Places left (n + 1) true (some q) w') issued seq (n + 1)
          (attempt I cfg key value view w) (attempt-Sound w h)

    -- The newest version of the counter in a state is the one that was observed.
    pub record IsNewest (s : I.State) (c : Counter) : Type 0 where
      pub held : Recorded I L s (some c)
      pub newest : (v : Bytes) (t : ℕ) → L.Holds s sequence_key v t → t ≤ c.tx

    -- What the position follows: the newest counter, or the reserve where there is no counter.
    abbrev pub Follows : I.State → ℤ → Option Counter → Type 0
    Follows s seq none =
        (seq ≡ pos (cfg.reserved_positions + 1))
        × ((v : Bytes) (t : ℕ) → ¬ L.Holds s sequence_key v t)
    Follows s seq (some c) = (seq ≡ next c.seq) × IsNewest s c

    placed-Follows :
        (tx : ℕ) (seq : ℤ) (before : I.State) (bound : Option ℕ) (observed : Option Counter)
        → (I.exec_all before (commit_request cfg key value view bound observed)).0 ≡ ok (some tx)
        → seq ≡ next_position cfg observed
        → Recorded I L before observed
        → Follows before seq observed
    unfolding commit_request
    placed-Follows tx seq before bound none answer position r =
        (position, λ v t. L.exec_created before _ (some tx) sequence_key v t answer (inl refl))
    placed-Follows tx seq before bound (some c) answer position r = (
      position,
      record {
        held = r;
        newest =
            λ v t. L.exec_unmodified before _ (some tx) sequence_key c.tx v t answer (inl refl);
      },
    )

    placed-counter :
        (tx : ℕ) (seq : ℤ) (s : I.State) → Placed tx seq s → L.Holds s sequence_key (show seq) tx
    placed-counter tx seq s p =
        rw (p.after_is, p.position)
          (L.exec_holds p.before _ sequence_key (show (next_position cfg p.observed)) tx p.answer
            (commit_request-counter cfg key value view p.bound p.observed))

    -- A commit that returns a position leaves the counter at that position, written by the
    -- transaction that it returns, and the position is below the limit. It is one more than the
    -- newest counter in the state that the transaction found, or the first position above the
    -- reserve where that state has no counter. The cached counter, if there is one, must be one
    -- that the ledger holds, and the cache that the call leaves is such a counter again.
    pub ordered_commit-successor :
        (w w' : World I) (tx : ℕ) (seq : ℤ) (n : ℕ)
        → Recorded I L w.db w.seq_cache
        → ordered_commit I cfg key value view w ≡ (committed tx seq n, w')
        → (below seq max_position ≡ true)
          × L.Holds w'.db sequence_key (show seq) tx
          × ((before : I.State) × (bound : Option ℕ) × (c : Option Counter) × (w'.db
                ≡ (I.exec_all before (commit_request cfg key value view bound c)).1)
              × Follows before seq c)
          × Recorded I L w'.db w'.seq_cache
    unfolding ordered_commit
    ordered_commit-successor w w' tx seq n h e =
        let (p, cache) : Places (committed tx seq n) w' =
          subst (λ x. Places x.0 x.1) e (loop-Places cfg.max_cas_attempts 0 false none w h) in
        (
          p.room,
          placed-counter tx seq w'.db p,
          (
            p.before,
            p.bound,
            p.observed,
            p.after_is,
            placed-Follows tx seq p.before p.bound p.observed p.answer p.position p.recorded,
          ),
          rw cache (show seq, placed-counter tx seq w'.db p, parse_int-show seq),
        )
