-- ===== src/Verifier/Sequence/Recorded.antt =====
-- The counter that an attempt goes by, cached or read, is one that the ledger holds.
use compliance_ail.Common.{
  ◌≡◌, refl, inl, inr, Bool, true, false, Option, none, some, if◌then◌else◌, Bytes, ℤ, parse_int,
  Option-cases,
}
use mathlib.Core.Path.{subst}
use compliance_ail.Verifier.Ledger.{Reply, ok, fail, Entry, Immudb, IsLedger}
use compliance_ail.Verifier.Reserve.{Validated, valid, invalid, validate_reserve}
use compliance_ail.Verifier.Sequence.{
  Config, sequence_key, World, Counter, Tried, got, raised, bound_value, fetched_reserve,
  read_bound_reserve, parsed_counter, fetched_counter, observe,
}

enabled_cache :
    (b : Bool) (o : Option Counter) (c : Counter) → (if b then o else none) ≡ some c → o ≡ some c
enabled_cache true o c h = h
enabled_cache false o c h = absurd (cc h)

module _ (I : Immudb) (L : IsLedger I) where
  -- The counter is one that the ledger holds, as this service prints it.
  abbrev pub Recorded : I.State → Option Counter → Type 0
  Recorded s none = Unit
  Recorded s (some c) = (v : Bytes) × L.Holds s sequence_key v c.tx × (parse_int v ≡ some c.seq)

  pub Recorded-get :
      (o : Option Counter) (s : I.State) (k : Bytes) → Recorded s o → Recorded (I.get s k).1 o
  Recorded-get none s k h = tt
  Recorded-get (some c) s k (v, h, e) = (v, L.get_keeps s k sequence_key v c.tx h, e)

  fetched_reserve-cache :
      (w : World I) (x : Reply (Option Entry) × I.State)
      → (fetched_reserve I w x).1.seq_cache ≡ w.seq_cache
  unfolding fetched_reserve
  fetched_reserve-cache w (fail f, s) = refl
  fetched_reserve-cache w (ok none, s) = refl
  fetched_reserve-cache w (ok (some e), s) = bound_cache (validate_reserve e.value)
    where
      bound_cache :
          (v : Validated) → (bound_value I (record w { db = s }) v).1.seq_cache ≡ w.seq_cache
      bound_cache (valid n) = refl
      bound_cache (invalid r) = refl

  pub read_bound_reserve-cache : (w : World I) → (read_bound_reserve I w).1.seq_cache ≡ w.seq_cache
  unfolding read_bound_reserve
  read_bound_reserve-cache w = elim (Option-cases w.reserve_cache) [
    | inl e ↦ rw (e, read_bound_reserve) (fetched_reserve-cache w _)
    | inr (n, e) ↦ rw (e, read_bound_reserve) refl
  ]

  abbrev pub Observed : Tried (Option Counter) → I.State → Type 0
  Observed (raised c) s = Unit
  Observed (got o) s = Recorded s o

  parsed-Observed :
      (e : Entry) (o : Option ℤ) (s : I.State)
      → parse_int e.value ≡ o
      → L.Holds s sequence_key e.value e.tx
      → Observed (parsed_counter e o) s
  unfolding parsed_counter
  parsed-Observed e none s p h = tt
  parsed-Observed e (some n) s p h = (e.value, h, p)

  fetched-Observed :
      (w : World I) (x : Reply (Option Entry) × I.State)
      → ((e : Entry) → x.0 ≡ ok (some e) → L.Holds x.1 sequence_key e.value e.tx)
      → Observed (fetched_counter I w x).0 (fetched_counter I w x).1.db
  unfolding fetched_counter
  fetched-Observed w (fail f, s) h = tt
  fetched-Observed w (ok none, s) h = tt
  fetched-Observed w (ok (some e), s) h = parsed-Observed e (parse_int e.value) s refl (h e refl)

  pub observe-Observed :
      (cfg : Config) (w : World I)
      → Recorded w.db w.seq_cache
      → Observed (observe I cfg w).0 (observe I cfg w).1.db
  unfolding observe
  observe-Observed cfg w h =
      elim (Option-cases (if cfg.seq_cache_enabled then w.seq_cache else none)) [
        | inl e ↦ rw (e, observe) (fetched-Observed w _ (L.get_holds w.db sequence_key))
        | inr (c, e) ↦
            rw (e, observe)
              (subst (Recorded w.db) (enabled_cache cfg.seq_cache_enabled w.seq_cache c e) h)
      ]

  fetched_counter-cache :
      (w : World I) (x : Reply (Option Entry) × I.State)
      → (fetched_counter I w x).1.seq_cache ≡ w.seq_cache
  unfolding fetched_counter
  fetched_counter-cache w (fail f, s) = refl
  fetched_counter-cache w (ok none, s) = refl
  fetched_counter-cache w (ok (some e), s) = refl

  pub observe-cache : (cfg : Config) (w : World I) → (observe I cfg w).1.seq_cache ≡ w.seq_cache
  unfolding observe
  observe-cache cfg w = elim (Option-cases (if cfg.seq_cache_enabled then w.seq_cache else none)) [
    | inl e ↦ rw (e, observe) (fetched_counter-cache w _)
    | inr (c, e) ↦ rw (e, observe) refl
  ]
