-- ===== src/Verifier/Sequence/Kept.antt =====
-- The reads of an attempt keep what every `get` keeps.
use compliance_ail.Common.{
  ◌≡◌, refl, Bool, true, false, Option, none, some, if◌then◌else◌, Bytes, ℤ, Option-cases, inl, inr,
}
use compliance_ail.Verifier.Ledger.{Reply, ok, fail, Entry, Immudb}
use compliance_ail.Verifier.Reserve.{Validated, valid, invalid}
use compliance_ail.Verifier.Sequence.{
  Config, World, bound_value, fetched_reserve, read_bound_reserve, fetched_counter, observe,
  presence, record_key_present, after_refusal, sequence_key, reserve_key,
}

module _ (I : Immudb) where
  bound_value-db : (w : World I) (v : Validated) → (bound_value I w v).1.db ≡ w.db
  unfolding bound_value
  bound_value-db w (valid n) = refl
  bound_value-db w (invalid e) = refl

module _ (I : Immudb) (P : I.State → Type 0)
    (keep : (s : I.State) (k : Bytes) → P s → P (I.get s k).1) where
  fetched_reserve-kept :
      (w : World I) (x : Reply (Option Entry) × I.State) → P x.1 → P (fetched_reserve I w x).1.db
  unfolding fetched_reserve
  fetched_reserve-kept w (fail f, s) h = h
  fetched_reserve-kept w (ok none, s) h = h
  fetched_reserve-kept w (ok (some e), s) h = rw bound_value-db h

  pub read_bound_reserve-kept : (w : World I) → P w.db → P (read_bound_reserve I w).1.db
  unfolding read_bound_reserve
  read_bound_reserve-kept w h = elim (Option-cases w.reserve_cache) [
    | inl e ↦ rw (e, read_bound_reserve) (fetched_reserve-kept w _ (keep w.db reserve_key h))
    | inr (n, e) ↦ rw (e, read_bound_reserve) h
  ]

  fetched_counter-kept :
      (w : World I) (x : Reply (Option Entry) × I.State) → P x.1 → P (fetched_counter I w x).1.db
  unfolding fetched_counter
  fetched_counter-kept w (fail f, s) h = h
  fetched_counter-kept w (ok none, s) h = h
  fetched_counter-kept w (ok (some e), s) h = h

  pub observe-kept : (cfg : Config) (w : World I) → P w.db → P (observe I cfg w).1.db
  unfolding observe
  observe-kept cfg w h = elim (Option-cases (if cfg.seq_cache_enabled then w.seq_cache else none)) [
    | inl e ↦ rw (e, observe) (fetched_counter-kept w _ (keep w.db sequence_key h))
    | inr (c, e) ↦ rw (e, observe) h
  ]

  presence-kept :
      (w : World I) (x : Reply (Option Entry) × I.State) → P x.1 → P (presence I w x).1.db
  unfolding presence
  presence-kept w (fail f, s) h = h
  presence-kept w (ok e, s) h = h

  after_refusal-kept : (seq : ℤ) (x : Bool × World I) → P x.1.db → P (after_refusal I seq x).1.db
  unfolding after_refusal
  after_refusal-kept seq (true, w) h = h
  after_refusal-kept seq (false, w) h = h

  -- The whole answer to a refused request, the read of the record's key included.
  pub after_refused-kept :
      (seq : ℤ) (w : World I) (key : Bytes)
      → P w.db
      → P (after_refusal I seq (record_key_present I w key)).1.db
  unfolding record_key_present
  after_refused-kept seq w key h = after_refusal-kept seq _ (presence-kept w _ (keep w.db key h))
