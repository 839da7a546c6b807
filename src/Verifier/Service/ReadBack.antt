-- ===== src/Verifier/Service/ReadBack.antt =====
-- What the answers of a read-back show.
use compliance_ail.Common.{
  ◌≡◌, refl, ℕ, false, Option, none, some, Bytes, bytes_eq, bytes_eq_iff, Bool-cases, inl, inr,
  arith,
}
use mathlib.Core.Path.{subst}
use compliance_ail.Verifier.Ledger.{Reply, ok, fail, Entry}
use compliance_ail.Verifier.Sequence.{World}
use compliance_ail.Verifier.Service.{
  Service, present, absent, read_for_value, committed_tx_for_value,
}

module _ (V : Service) where
  read_for_value-db :
      (value : Bytes) (w : World V.ledger) (x : Reply (Option Entry) × V.ledger.State)
      → (read_for_value V value w x).1.db ≡ x.1
  unfolding read_for_value
  read_for_value-db value w (fail f, s) = refl
  read_for_value-db value w (ok none, s) = refl
  read_for_value-db value w (ok (some e), s) = refl

  pub committed_tx_for_value-kept :
      (P : V.ledger.State → Type 0)
      → ((s : V.ledger.State) (k : Bytes) → P s → P (V.ledger.get s k).1)
      → (w : World V.ledger) (key value : Bytes) → P w.db
      → P (committed_tx_for_value V w key value).1.db
  unfolding committed_tx_for_value
  committed_tx_for_value-kept P keep w key value h = rw read_for_value-db (keep w.db key h)

  read_absent :
      (value : Bytes) (w : World V.ledger) (x : Reply (Option Entry) × V.ledger.State)
      → (read_for_value V value w x).0 ≡ absent
      → (e : Entry) × (x.0 ≡ ok (some e)) × (bytes_eq e.value value ≡ false)
  unfolding read_for_value
  read_absent value w (fail f, s) h = absurd (cc h)
  read_absent value w (ok none, s) h = absurd (cc h)
  read_absent value w (ok (some e), s) h = (e, refl, ground arith)

  -- ABSENT: the key holds other bytes than the ones sent.
  pub committed_tx_for_value-absent :
      (w : World V.ledger) (key value : Bytes)
      → (committed_tx_for_value V w key value).0 ≡ absent
      → (e : Entry) × ((V.ledger.get w.db key).0 ≡ ok (some e)) × (bytes_eq e.value value ≡ false)
  unfolding committed_tx_for_value
  committed_tx_for_value-absent w key value h = read_absent value w (V.ledger.get w.db key) h

  read_present :
      (value : Bytes) (w : World V.ledger) (x : Reply (Option Entry) × V.ledger.State) (t : ℕ)
      → (read_for_value V value w x).0 ≡ present t
      → (e : Entry) × (x.0 ≡ ok (some e)) × (e.value ≡ value) × (e.tx ≡ t)
  unfolding read_for_value
  read_present value w (fail f, s) t h = absurd (cc h)
  read_present value w (ok none, s) t h = absurd (cc h)
  read_present value w (ok (some e), s) t h = elim (Bool-cases (bytes_eq e.value value)) [
    | inl same ↦ (e, refl, (bytes_eq_iff e.value value).0 same, ground (arith, same))
    | inr other ↦ absurd (ground (arith, other))
  ]

  -- PRESENT: the key holds the bytes that were sent, written by this transaction.
  pub committed_tx_for_value-present :
      (w : World V.ledger) (key value : Bytes) (t : ℕ)
      → (committed_tx_for_value V w key value).0 ≡ present t
      → (e : Entry) × ((V.ledger.get w.db key).0 ≡ ok (some e)) × (e.value ≡ value) × (e.tx ≡ t)
  unfolding committed_tx_for_value
  committed_tx_for_value-present w key value t h = read_present value w (V.ledger.get w.db key) t h

  -- A record that the read-back found stands in the state after it.
  pub committed_tx_for_value-found :
      (Holds : V.ledger.State → Bytes → Bytes → ℕ → Type 0)
      → ((s : V.ledger.State) (k : Bytes) (e : Entry)
          → (V.ledger.get s k).0 ≡ ok (some e)
          → Holds (V.ledger.get s k).1 k e.value e.tx)
      → (w : World V.ledger) (key value : Bytes) (t : ℕ)
      → (committed_tx_for_value V w key value).0 ≡ present t
      → Holds (committed_tx_for_value V w key value).1.db key value t
  unfolding committed_tx_for_value
  committed_tx_for_value-found Holds found w key value t h =
      let (e, read, same, at) = read_present value w (V.ledger.get w.db key) t h in
      rw read_for_value-db (
        subst (λ u. Holds (V.ledger.get w.db key).1 key value u) at
          (subst (λ v. Holds (V.ledger.get w.db key).1 key v e.tx) same (found w.db key e read)))
