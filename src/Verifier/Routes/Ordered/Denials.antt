-- ===== src/Verifier/Routes/Ordered/Denials.antt =====
-- Where the ordered route says `committed: false`, the ledger has nothing of this call.
use compliance_ail.Common.{
  ◌≡◌, refl, sym, ap, ◌∙◌, ◌⊎◌, inl, inr, ℕ, true, false, Option, some, List, ◌∷◌, String, Text,
  Bytes, bytes_eq, bytes_eq_iff, ℤ, Bool-cases, Option-cases,
}
use mathlib.Core.Path.{subst}
use compliance_ail.Verifier.Ledger.{Reply, ok, fail, Entry, ExecAllRequest, IsLedger}
use compliance_ail.Verifier.Sequence.{
  Config, World, Cause, Outcome, committed, record_exists, uncertain, failed, commit_request,
}
use compliance_ail.Verifier.Sequence.Effects.{
  Issued, IsLost, Ends, ordered_commit-Ends, commit_request-Writes, commit_request-Requires,
}
use compliance_ail.Verifier.Service.{
  Service, Found, present, absent, not_found, unknown, refuse_ordered,
}
use compliance_ail.Verifier.Service.ReadBack.{
  committed_tx_for_value-kept, committed_tx_for_value-absent,
}
use compliance_ail.Verifier.Fault.{ErrorClass, Recorded, write_fault_record}
use compliance_ail.Verifier.Routes.Shapes.{
  Response, Answer, response, bad_request, conflict, crashed, proof_class,
}
use compliance_ail.Verifier.Routes.Ordered.{
  is_budget, with_position, with_fault, after_read_back, after_proof, after_commit, after_connect,
  ordered_failed, write_ordered_bytes, write_ordered, committed_position_for, view_set,
}

not-IsLost_budget : (c : Cause) → is_budget c ≡ true → IsLost c → ⊥
unfolding is_budget
not-IsLost_budget (Cause.budget_exhausted n) e l = l
not-IsLost_budget (Cause.client f) e l = cc
not-IsLost_budget (Cause.bad_reserve x) e l = l
not-IsLost_budget (Cause.bad_counter b) e l = l
not-IsLost_budget (Cause.reserve_mismatch n) e l = l
not-IsLost_budget (Cause.position_limit n) e l = l
not-IsLost_budget Cause.no_transaction e l = cc

module _ (V : Service) (L : IsLedger V.ledger) where
  -- `committed: false`, or no response at all, only where nothing was applied.
  abbrev Denies : List ExecAllRequest → Answer → V.ledger.State → Type 0
  Denies base (response r) s = r.committed ≡ some false → L.applied s ≡ base
  Denies base (bad_request e) s = L.applied s ≡ base
  Denies base conflict s = L.applied s ≡ base
  Denies base crashed s = L.applied s ≡ base

  module _ (cfg : Config) (key value set : Bytes) (base : List ExecAllRequest) where
    -- A read-back with other bytes shows that a lost request was not applied.
    unapplied_of_other_value :
        (s : V.ledger.State) (e : Entry)
        → Issued V.ledger L cfg key value set base s
        → (V.ledger.get s key).0 ≡ ok (some e)
        → bytes_eq e.value value ≡ false
        → L.applied s ≡ base
    unapplied_of_other_value s e i read other = go (V.ledger.exec_all i.before request) refl
      where
        request : ExecAllRequest
        request = commit_request cfg key value set i.bound i.observed

        refuted :
            L.applied (V.ledger.exec_all i.before request).1 ≡ request ∷ L.applied i.before → ⊥
        refuted took =
            let same : e.value ≡ value =
              L.read_back i.before request key value e took
                (commit_request-Writes cfg key value set i.bound i.observed)
                (commit_request-Requires cfg key value set i.bound i.observed)
                (ap (λ t. (V.ledger.get t key).0) (sym i.after_is) ∙ read) in
            cc (other, (bytes_eq_iff e.value value).1 same)

        go :
            (x : Reply (Option ℕ) × V.ledger.State)
            → V.ledger.exec_all i.before request ≡ x
            → L.applied s ≡ base
        go (ok t, s') eq = absurd (refuted (L.exec_ok i.before request t (ap (λ y. y.0) eq)))
        go (fail f, s') eq = elim (L.exec_lost i.before request f (ap (λ y. y.0) eq)) [
          | inl nothing ↦ ap L.applied i.after_is ∙ nothing ∙ i.none_before
          | inr took ↦ absurd (refuted took)
        ]

    position-Denies :
        (cause : Cause) (tx n : ℕ) (x : Option ℤ × World V.ledger)
        → Denies base (with_position V cause tx n x).0 (with_position V cause tx n x).1.db
    unfolding with_position
    position-Denies cause tx n (seq, w) c = cc c

    read_back-Denies :
        (cause : Cause) (asked : Option ℤ) (n : ℕ) (s : V.ledger.State) (x : Found × World V.ledger)
        → L.applied x.1.db ≡ L.applied s
        → (x.0 ≡ absent → Issued V.ledger L cfg key value set base s → L.applied s ≡ base)
        → (L.applied s ≡ base) ⊎ (Issued V.ledger L cfg key value set base s × IsLost cause)
        → Denies base
            (after_read_back V key set cause asked n x).0
            (after_read_back V key set cause asked n x).1.db
    unfolding after_read_back
    read_back-Denies cause asked n s (unknown, w) same excluded h = λ c. cc c
    read_back-Denies cause asked n s (not_found, w) same excluded h =
        elim (Bool-cases (is_budget cause)) [
          | inl b ↦
              rw (b, after_read_back)
                λ _. elim h [
                  | inl nothing ↦ same ∙ nothing
                  | inr (i, l) ↦ absurd (not-IsLost_budget cause b l)
                ]
          | inr nb ↦ rw (nb, after_read_back) λ c. cc c
        ]
    read_back-Denies cause asked n s (absent, w) same excluded h =
        λ _. elim h [ inl nothing ↦ same ∙ nothing | inr (i, l) ↦ same ∙ excluded refl i ]
    read_back-Denies cause asked n s (present tx, w) same excluded h =
        position-Denies cause tx n (committed_position_for V w set key asked)

    fault-Denies :
        (tx : ℕ) (seq : ℤ) (n : ℕ) (class : ErrorClass) (x : Recorded V × World V.ledger)
        → Denies base (with_fault V tx seq n class x).0 (with_fault V tx seq n class x).1.db
    unfolding with_fault
    fault-Denies tx seq n class (r, w) c = cc c

    proof-Denies :
        (view : String) (nonce timestamp : Text) (tx : ℕ) (seq : ℤ) (n : ℕ) (w : World V.ledger)
        (x : Reply (Unit {0}) × V.ledger.State)
        → Denies base
            (after_proof V key value view nonce timestamp tx seq n w x).0
            (after_proof V key value view nonce timestamp tx seq n w x).1.db
    unfolding after_proof
    proof-Denies view nonce timestamp tx seq n w (ok _, s) = λ c. cc c
    proof-Denies view nonce timestamp tx seq n w (fail f, s) = elim (Option-cases (proof_class f)) [
      | inl e ↦ rw (e, after_proof) λ c. cc c
      | inr (class, e) ↦
          rw (e, after_proof)
            (fault-Denies tx seq n class (
              write_fault_record V (record w { db = s }) (ordered_failed key value view seq class)
                (some tx) nonce timestamp))
    ]

    commit-Denies :
        (view : String) (nonce timestamp : Text) (x : Outcome × World V.ledger)
        → Ends V.ledger L cfg key value set base x.0 x.1.db
        → Denies base
            (after_commit V key value view set nonce timestamp x).0
            (after_commit V key value view set nonce timestamp x).1.db
    unfolding after_commit
    commit-Denies view nonce timestamp (record_exists, w) h = h
    commit-Denies view nonce timestamp (failed cause, w) h = λ _. h
    commit-Denies view nonce timestamp (committed tx seq n, w) h =
        proof-Denies view nonce timestamp tx seq n w _
    commit-Denies view nonce timestamp (uncertain cause asked n, w) h =
        read_back-Denies cause asked n w.db _
          (committed_tx_for_value-kept V (λ s. L.applied s ≡ L.applied w.db)
            (λ s k e. L.applied-get s k ∙ e) w key value refl)
          (λ a i.
            let (e, read, other) = committed_tx_for_value-absent V w key value a in
            unapplied_of_other_value w.db e i read other)
          h

  module _ (cfg : Config) (key value : Bytes) (view : String) (set : Bytes)
      (nonce timestamp : Text) where
    connect-Denies :
        (w : World V.ledger) (x : Reply (Unit {0}) × V.ledger.State)
        → Denies
            (L.applied x.1)
            (after_connect V cfg key value view set nonce timestamp w x).0
            (after_connect V cfg key value view set nonce timestamp w x).1.db
    unfolding after_connect
    connect-Denies w (fail f, s) = λ _. refl
    connect-Denies w (ok _, s) =
        commit-Denies cfg key value set (L.applied s) view nonce timestamp _
          (ordered_commit-Ends V.ledger L cfg key value set (record w { db = s }))

    bytes-Denies :
        (w : World V.ledger)
        → Denies
            (L.applied w.db)
            (write_ordered_bytes V cfg key value view set nonce timestamp w).0
            (write_ordered_bytes V cfg key value view set nonce timestamp w).1.db
    unfolding write_ordered_bytes
    bytes-Denies w = elim (Option-cases (refuse_ordered V key value)) [
      | inr (r, e) ↦ rw (e, write_ordered_bytes) refl
      | inl e ↦
          rw (e, write_ordered_bytes, ← L.applied-connect w.db)
            (connect-Denies w (V.ledger.connect w.db))
    ]

  module _ (cfg : Config) (key64 value64 : Text) (view : String) (nonce timestamp : Text) where
    route-Denies :
        (w : World V.ledger)
        → Denies
            (L.applied w.db)
            (write_ordered V cfg key64 value64 view nonce timestamp w).0
            (write_ordered V cfg key64 value64 view nonce timestamp w).1.db
    unfolding write_ordered
    route-Denies w = elim (Option-cases (view_set view)) [
      | inl e ↦ rw (e, write_ordered) λ _. refl
      | inr (set, e) ↦ elim (Option-cases (V.crypto.b64decode key64)) [
        | inl k ↦ rw (e, k, write_ordered) refl
        | inr (key, k) ↦ elim (Option-cases (V.crypto.b64decode value64)) [
          | inl v ↦ rw (e, k, v, write_ordered) refl
          | inr (value, v) ↦
              rw (e, k, v, write_ordered) (bytes-Denies cfg key value view set nonce timestamp w)
        ]
      ]
    ]

    -- Where the ordered route answers `committed: false`, whatever the reason, no transaction of
    -- this call has taken effect in the ledger: not one that was refused, nor one whose answer was
    -- lost, nor one of an earlier attempt.
    pub write_ordered-denies :
        (w : World V.ledger) (r : Response)
        → (write_ordered V cfg key64 value64 view nonce timestamp w).0 ≡ response r
        → r.committed ≡ some false
        → L.applied (write_ordered V cfg key64 value64 view nonce timestamp w).1.db ≡ L.applied w.db
    write_ordered-denies w r answer =
        subst
          (λ a.
            Denies (L.applied w.db) a
              (write_ordered V cfg key64 value64 view nonce timestamp w).1.db)
          answer (route-Denies w)
