-- ===== src/Verifier/Routes/Ordered/Facts.antt =====
-- Where the ordered route says `committed: true`, the ledger holds the record at the transaction
-- that the response names.
use mathlib.Core.Path.{subst}
use compliance_ail.Common.{
  ◌≡◌, refl, inl, inr, ℕ, true, Option, none, some, List, String, Text, Bytes, ℤ, Bool-cases,
  Option-cases,
}
use compliance_ail.Verifier.Ledger.{Reply, ok, fail, ExecAllRequest, IsLedger}
use compliance_ail.Verifier.Sequence.{
  Config, World, Cause, Outcome, committed, record_exists, uncertain, failed,
}
use compliance_ail.Verifier.Sequence.Effects.{
  Answered, Ends, ordered_commit-Ends, commit_request-Writes,
}
use compliance_ail.Verifier.Service.{
  Service, Found, present, absent, not_found, unknown, committed_tx_for_value, refuse_ordered,
}
use compliance_ail.Verifier.Service.ReadBack.{committed_tx_for_value-found}
use compliance_ail.Verifier.Fault.{ErrorClass, Recorded, write_fault_record}
use compliance_ail.Verifier.Fault.Kept.{write_fault_record-kept}
use compliance_ail.Verifier.Routes.Shapes.{
  Response, Answer, response, bad_request, conflict, crashed, proof_class,
}
use compliance_ail.Verifier.Routes.Ordered.{
  is_budget, with_position, with_fault, after_read_back, after_proof, after_commit, after_connect,
  ordered_failed, write_ordered_bytes, write_ordered, committed_position_for, scanned, view_set,
}

module _ (V : Service) (L : IsLedger V.ledger) (key value : Bytes) where
  abbrev Confirms : Answer → V.ledger.State → Type 0
  Confirms (response r) s =
      r.committed ≡ some true → (tx : ℕ) × (r.tx_id ≡ some tx) × L.Holds s key value tx
  Confirms (bad_request e) s = Unit
  Confirms conflict s = Unit
  Confirms crashed s = Unit

  Answered-Holds :
      (cfg : Config) (set : Bytes) (base : List ExecAllRequest) (tx : ℕ) (seq : ℤ)
      (s : V.ledger.State)
      → Answered V.ledger L cfg key value set base tx seq s
      → L.Holds s key value tx
  Answered-Holds cfg set base tx seq s a = rw (a.issued.after_is) (
      L.exec_holds a.issued.before _ key value tx a.answer
        (commit_request-Writes cfg key value set a.issued.bound a.issued.observed))

  scanned-db :
      (w : World V.ledger) (asked : ℤ) (x : Reply _ × V.ledger.State)
      → (scanned V w key asked x).1.db ≡ x.1
  unfolding scanned
  scanned-db w asked (fail f, s) = refl
  scanned-db w asked (ok es, s) = refl

  position-Holds :
      (w : World V.ledger) (set : Bytes) (asked : Option ℤ) (tx : ℕ)
      → L.Holds w.db key value tx
      → L.Holds (committed_position_for V w set key asked).1.db key value tx
  unfolding committed_position_for
  position-Holds w set none tx h = h
  position-Holds w set (some asked) tx h =
      rw scanned-db (L.z_scan_keeps w.db set asked key value tx h)

  position-Confirms :
      (cause : Cause) (tx n : ℕ) (x : Option ℤ × World V.ledger)
      → L.Holds x.1.db key value tx
      → Confirms (with_position V cause tx n x).0 (with_position V cause tx n x).1.db
  unfolding with_position
  position-Confirms cause tx n (seq, w) h = λ _. (tx, refl, h)

  read_back-Confirms :
      (set : Bytes) (cause : Cause) (asked : Option ℤ) (n : ℕ) (x : Found × World V.ledger)
      → ((tx : ℕ) → x.0 ≡ present tx → L.Holds x.1.db key value tx)
      → Confirms
          (after_read_back V key set cause asked n x).0
          (after_read_back V key set cause asked n x).1.db
  unfolding after_read_back
  read_back-Confirms set cause asked n (unknown, w) h = λ c. cc c
  read_back-Confirms set cause asked n (absent, w) h = λ c. cc c
  read_back-Confirms set cause asked n (not_found, w) h = elim (Bool-cases (is_budget cause)) [
    | inl b ↦ rw (b, after_read_back) λ c. cc c
    | inr nb ↦ rw (nb, after_read_back) λ c. cc c
  ]
  read_back-Confirms set cause asked n (present tx, w) h =
      position-Confirms cause tx n (committed_position_for V w set key asked)
        (position-Holds w set asked tx (h tx refl))

  fault-Confirms :
      (tx : ℕ) (seq : ℤ) (n : ℕ) (class : ErrorClass) (x : Recorded V × World V.ledger)
      → L.Holds x.1.db key value tx
      → Confirms (with_fault V tx seq n class x).0 (with_fault V tx seq n class x).1.db
  unfolding with_fault
  fault-Confirms tx seq n class (r, w) h = λ _. (tx, refl, h)

  proof-Confirms :
      (view : String) (nonce timestamp : Text) (tx : ℕ) (seq : ℤ) (n : ℕ) (w : World V.ledger)
      (x : Reply (Unit {0}) × V.ledger.State)
      → L.Holds x.1 key value tx
      → Confirms
          (after_proof V key value view nonce timestamp tx seq n w x).0
          (after_proof V key value view nonce timestamp tx seq n w x).1.db
  unfolding after_proof
  proof-Confirms view nonce timestamp tx seq n w (ok _, s) h = λ _. (tx, refl, h)
  proof-Confirms view nonce timestamp tx seq n w (fail f, s) h =
      elim (Option-cases (proof_class f)) [
        | inl e ↦ rw (e, after_proof) λ _. (tx, refl, h)
        | inr (class, e) ↦
            rw (e, after_proof)
              (fault-Confirms tx seq n class
                (write_fault_record V (record w { db = s })
                  (ordered_failed key value view seq class) (some tx) nonce timestamp)
                (write_fault_record-kept V (λ t. L.Holds t key value tx)
                  (λ t k. L.get_keeps t k key value tx) (λ t k v. L.set_keeps t k v key value tx) _
                  _ _ nonce timestamp h))
      ]

  commit-Confirms :
      (cfg : Config) (base : List ExecAllRequest) (set : Bytes) (view : String)
      (nonce timestamp : Text) (x : Outcome × World V.ledger)
      → Ends V.ledger L cfg key value set base x.0 x.1.db
      → Confirms
          (after_commit V key value view set nonce timestamp x).0
          (after_commit V key value view set nonce timestamp x).1.db
  unfolding after_commit
  commit-Confirms cfg base set view nonce timestamp (record_exists, w) h = tt
  commit-Confirms cfg base set view nonce timestamp (failed cause, w) h = λ c. cc c
  commit-Confirms cfg base set view nonce timestamp (committed tx seq n, w) h =
      proof-Confirms view nonce timestamp tx seq n w (V.ledger.verified_get w.db key)
        (L.verified_get_keeps w.db key key value tx (Answered-Holds cfg set base tx seq w.db h))
  commit-Confirms cfg base set view nonce timestamp (uncertain cause asked n, w) h =
      read_back-Confirms set cause asked n (committed_tx_for_value V w key value)
        (committed_tx_for_value-found V L.Holds L.get_holds w key value)

  connect-Confirms :
      (cfg : Config) (view : String) (set : Bytes) (nonce timestamp : Text) (w : World V.ledger)
      (x : Reply (Unit {0}) × V.ledger.State)
      → Confirms
          (after_connect V cfg key value view set nonce timestamp w x).0
          (after_connect V cfg key value view set nonce timestamp w x).1.db
  unfolding after_connect
  connect-Confirms cfg view set nonce timestamp w (fail f, s) = λ c. cc c
  connect-Confirms cfg view set nonce timestamp w (ok _, s) =
      commit-Confirms cfg (L.applied s) set view nonce timestamp _
        (ordered_commit-Ends V.ledger L cfg key value set (record w { db = s }))

  bytes-Confirms :
      (cfg : Config) (view : String) (set : Bytes) (nonce timestamp : Text) (w : World V.ledger)
      → Confirms
          (write_ordered_bytes V cfg key value view set nonce timestamp w).0
          (write_ordered_bytes V cfg key value view set nonce timestamp w).1.db
  unfolding write_ordered_bytes
  bytes-Confirms cfg view set nonce timestamp w = elim (Option-cases (refuse_ordered V key value)) [
    | inr (r, e) ↦ rw (e, write_ordered_bytes) tt
    | inl e ↦
        rw (e, write_ordered_bytes)
          (connect-Confirms cfg view set nonce timestamp w (V.ledger.connect w.db))
  ]

  module _ (cfg : Config) (key64 value64 : Text) (view : String) (nonce timestamp : Text) where
    route-Confirms :
        (w : World V.ledger)
        → V.crypto.b64decode key64 ≡ some key
        → V.crypto.b64decode value64 ≡ some value
        → Confirms
            (write_ordered V cfg key64 value64 view nonce timestamp w).0
            (write_ordered V cfg key64 value64 view nonce timestamp w).1.db
    unfolding write_ordered
    route-Confirms w k v = elim (Option-cases (view_set view)) [
      | inl e ↦ rw (e, write_ordered) λ c. cc c
      | inr (set, e) ↦ rw (e, k, v, write_ordered) (bytes-Confirms cfg view set nonce timestamp w)
    ]

    -- Where the ordered route answers `committed: true`, verified or not, the response names a
    -- transaction and the ledger holds the caller's bytes under the caller's key at it.
    pub write_ordered-confirms :
        (w : World V.ledger) (r : Response)
        → V.crypto.b64decode key64 ≡ some key
        → V.crypto.b64decode value64 ≡ some value
        → (write_ordered V cfg key64 value64 view nonce timestamp w).0 ≡ response r
        → r.committed ≡ some true
        → (tx : ℕ) × (r.tx_id ≡ some tx)
          × L.Holds (write_ordered V cfg key64 value64 view nonce timestamp w).1.db key value tx
    write_ordered-confirms w r k v answer =
        subst (λ a. Confirms a (write_ordered V cfg key64 value64 view nonce timestamp w).1.db)
          answer (route-Confirms w k v)
