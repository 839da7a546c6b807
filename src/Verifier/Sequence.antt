-- ===== src/Verifier/Sequence.antt =====
-- `_ordered_commit` of verifier/main.py: a commit position under a compare-and-set, in the same
-- transaction as the record that it indexes. The module globals `_seq_cache` and `_reserve_cache`
-- are fields of `World`. A position is a score in a zset, and below 2**53 exact.
pub mod Kept
pub mod Effects
pub mod Recorded
pub mod Positions
use compliance_ail.Common.{
  ℕ, zero, suc, ◌+◌, Bool, true, false, not, Option, none, some, is_some, or_else, List, [], ◌∷◌,
  ◌==◌, if◌then◌else◌, Bytes, codes, ℤ, pos, next, below, show, parse_int,
}
use compliance_ail.Verifier.Ledger.{
  Failure, Reply, ok, fail, Entry, Operation, kv, z_add, Precondition, key_must_not_exist,
  key_not_modified_after, ExecAllRequest, Immudb, is_precondition_failed,
}
use compliance_ail.Verifier.Reserve.{
  ReserveError, Validated, valid, invalid, validate_reserve, max_position,
}

pub record Config : Type 0 where
  pub reserved_positions : ℕ
  pub max_cas_attempts : ℕ
  pub seq_cache_enabled : Bool

abbrev pub sequence_key : Bytes
sequence_key = codes "ail_seq:commit"

abbrev pub reserve_key : Bytes
reserve_key = codes "ail_seq:reserve"

-- The counter as it was read: the last position, and the transaction that wrote it.
pub record Counter : Type 0 where
  pub seq : ℤ
  pub tx : ℕ

-- The exceptions that leave an attempt.
pub data Cause : Type 0 where
  client : Failure → Cause
  bad_reserve : ReserveError → Cause
  bad_counter : Bytes → Cause
  reserve_mismatch : ℕ → Cause
  position_limit : ℤ → Cause
  no_transaction : Cause
  budget_exhausted : ℕ → Cause

pub data Tried {ℓ} (A : Type ℓ) : Type ℓ where
  got : A → Tried A
  raised : Cause → Tried A

-- How one pass through the loop ends.
pub data Step : Type 0 where
  -- Raised before this pass issued its request, with `next_seq` if this pass set it.
  stopped : Cause → Option ℤ → Step
  again : ℤ → Step
  exists : Step
  lost : Cause → ℤ → Step
  done : ℕ → ℤ → Step

-- How the call ends: its value, or `RecordKeyExists`, `OrderedCommitUncertain`, or any other
-- exception, which leaves only where no request was issued.
pub data Outcome : Type 0 where
  committed : ℕ → ℤ → ℕ → Outcome
  record_exists : Outcome
  uncertain : Cause → Option ℤ → ℕ → Outcome
  failed : Cause → Outcome

pub next_position : Config → Option Counter → ℤ
next_position cfg none = pos (cfg.reserved_positions + 1)
next_position cfg (some c) = next c.seq

pub counter_precondition : Option Counter → Precondition
counter_precondition none = key_must_not_exist sequence_key
counter_precondition (some c) = key_not_modified_after sequence_key c.tx

pub reserve_operations : Config → Option ℕ → List Operation
reserve_operations cfg none = kv reserve_key (show (pos cfg.reserved_positions)) ∷ []
reserve_operations cfg (some _) = []

pub reserve_preconditions : Option ℕ → List Precondition
reserve_preconditions none = key_must_not_exist reserve_key ∷ []
reserve_preconditions (some _) = []

-- The request of one attempt: the record, the advanced counter, the index entry, and on the first
-- allocation the reserve.
unfoldable pub commit_request :
    Config → Bytes → Bytes → Bytes → Option ℕ → Option Counter → ExecAllRequest
unfolding next_position counter_precondition reserve_operations reserve_preconditions
commit_request cfg key value view bound observed =
    let seq = next_position cfg observed in
    record {
      operations =
          kv key value
          ∷ kv sequence_key (show seq)
          ∷ z_add view seq key
          ∷ reserve_operations cfg bound;
      preconditions =
          counter_precondition observed ∷ key_must_not_exist key ∷ reserve_preconditions bound;
    }

-- The bound reserve is another than the configured one.
is_mismatch : Config → Option ℕ → Bool
is_mismatch cfg none = false
is_mismatch cfg (some n) = not (n == cfg.reserved_positions)

parsed_counter : Entry → Option ℤ → Tried (Option Counter)
parsed_counter e none = raised (bad_counter e.value)
parsed_counter e (some n) = got (some (record { seq = n; tx = e.tx }))

-- The outer `except`: what was raised says whether a request had been issued in this call.
raise : Bool → Cause → Option ℤ → ℕ → Outcome
raise issued c seq attempts = if issued then uncertain c seq attempts else failed c

module _ (I : Immudb) where
  pub record World : Type 0 where
    pub db : I.State
    pub seq_cache : Option Counter
    pub reserve_cache : Option ℕ

module _ (I : Immudb) where
  bound_value : World I → Validated → Tried (Option ℕ) × World I
  bound_value w (valid n) = (got (some n), record w { reserve_cache = some n })
  bound_value w (invalid e) = (raised (bad_reserve e), w)

  fetched_reserve : World I → Reply (Option Entry) × I.State → Tried (Option ℕ) × World I
  unfolding bound_value
  fetched_reserve w (fail f, s) = (raised (client f), record w { db = s })
  fetched_reserve w (ok none, s) = (got none, record w { db = s })
  fetched_reserve w (ok (some e), s) = bound_value (record w { db = s }) (validate_reserve e.value)

  -- `_read_bound_reserve`
  unfoldable pub read_bound_reserve : World I → Tried (Option ℕ) × World I
  unfolding fetched_reserve
  read_bound_reserve w = elim w.reserve_cache [
    | some n ↦ (got (some n), w)
    | none ↦ fetched_reserve w (I.get w.db reserve_key)
  ]

  fetched_counter : World I → Reply (Option Entry) × I.State → Tried (Option Counter) × World I
  unfolding parsed_counter
  fetched_counter w (fail f, s) = (raised (client f), record w { db = s })
  fetched_counter w (ok none, s) = (got none, record w { db = s })
  fetched_counter w (ok (some e), s) = (parsed_counter e (parse_int e.value), record w { db = s })

  -- `_read_counter`
  unfoldable pub read_counter : World I → Tried (Option Counter) × World I
  unfolding fetched_counter
  read_counter w = fetched_counter w (I.get w.db sequence_key)

  -- The cached counter, if the cache is enabled and holds one, or a read.
  unfoldable pub observe : Config → World I → Tried (Option Counter) × World I
  unfolding read_counter
  observe cfg w = elim (if cfg.seq_cache_enabled then w.seq_cache else none) [
    | none ↦ read_counter w
    | some c ↦ (got (some c), w)
  ]

  presence : World I → Reply (Option Entry) × I.State → Bool × World I
  presence w (fail f, s) = (false, record w { db = s })
  presence w (ok e, s) = (is_some e, record w { db = s })

  -- `_record_key_present`
  unfoldable pub record_key_present : World I → Bytes → Bool × World I
  unfolding presence
  record_key_present w key = presence w (I.get w.db key)

  -- The answer to a refused request: the key is taken, or both caches are dropped for a retry.
  pub after_refusal : ℤ → Bool × World I → Step × World I
  after_refusal seq (true, w) = (exists, w)
  after_refusal seq (false, w) = (again seq, record w { seq_cache = none; reserve_cache = none })

  -- The answer to a request that was issued.
  after_request :
      Config → Bytes → Option ℕ → ℤ → World I → Reply (Option ℕ) × I.State → Step × World I
  unfolding after_refusal
  after_request cfg key bound seq w (fail f, s) =
      let w' = record w { db = s } in
      if is_precondition_failed f
      then after_refusal seq (record_key_present w' key)
      else (lost (client f) seq, w')
  after_request cfg key bound seq w (ok none, s) = (lost no_transaction seq, record w { db = s })
  after_request cfg key bound seq w (ok (some tx), s) = (
    done tx seq,
    record w {
      db = s;
      seq_cache = some (record { seq = seq; tx = tx });
      reserve_cache = if is_some bound then w.reserve_cache else some cfg.reserved_positions;
    },
  )

  issue :
      Config → Bytes → Bytes → Bytes → Option ℕ → Tried (Option Counter) × World I → Step × World I
  unfolding after_request next_position
  issue cfg key value view bound (raised c, w) = (stopped c none, w)
  issue cfg key value view bound (got observed, w) =
      let seq = next_position cfg observed in
      if not (below seq max_position)
      then (stopped (position_limit seq) (some seq), w)
      else after_request cfg key bound seq w
          (I.exec_all w.db (commit_request cfg key value view bound observed))

  reserve_checked : Config → Bytes → Bytes → Bytes → Tried (Option ℕ) × World I → Step × World I
  unfolding issue is_mismatch
  reserve_checked cfg key value view (raised c, w) = (stopped c none, w)
  reserve_checked cfg key value view (got bound, w) =
      if is_mismatch cfg bound
      then (stopped (reserve_mismatch (elim bound [ none ↦ 0 | some n ↦ n ])) none, w)
      else issue cfg key value view bound (observe cfg w)

  -- One pass through the loop.
  unfoldable pub attempt : Config → Bytes → Bytes → Bytes → World I → Step × World I
  unfolding reserve_checked
  attempt cfg key value view w = reserve_checked cfg key value view (read_bound_reserve w)

  -- How a pass ends the loop, or goes on with it.
  loop_step :
      (ℤ → World I → Outcome × World I) → Bool → Option ℤ → ℕ → Step × World I → Outcome × World I
  unfolding raise
  loop_step continue issued seq n (stopped c s, w) = (raise issued c (or_else s seq) n, w)
  loop_step continue issued seq n (again s, w) = continue s w
  loop_step continue issued seq n (exists, w) = (record_exists, w)
  loop_step continue issued seq n (lost c s, w) = (uncertain c (some s) n, w)
  loop_step continue issued seq n (done tx s, w) = (committed tx s n, w)

  -- The loop, with the attempts left and the attempts made.
  unfoldable pub commit_loop :
      Config → Bytes → Bytes → Bytes → ℕ → ℕ → Bool → Option ℤ → World I → Outcome × World I
  unfolding loop_step
  commit_loop cfg key value view zero n issued seq w = (raise issued (budget_exhausted n) seq n, w)
  commit_loop cfg key value view (suc left) n issued seq w =
      loop_step (λ s w'. commit_loop cfg key value view left (n + 1) true (some s) w') issued seq
        (n + 1) (attempt cfg key value view w)

  unfoldable pub ordered_commit : Config → Bytes → Bytes → Bytes → World I → Outcome × World I
  unfolding commit_loop
  ordered_commit cfg key value view w =
      commit_loop cfg key value view cfg.max_cas_attempts 0 false none w
