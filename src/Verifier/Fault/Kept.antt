-- ===== src/Verifier/Fault/Kept.antt =====
-- Writing a fault record reads one key and sets another, and keeps what both keep.
use compliance_ail.Common.{
  ◌≡◌, refl, ℕ, Option, none, some, Text, Bytes, codes, encode, Option-cases, Bool-cases, inl, inr,
}
use compliance_ail.Common.Json.{is_text}
use compliance_ail.Verifier.Ledger.{Reply, ok, fail}
use compliance_ail.Verifier.Sequence.{World}
use compliance_ail.Verifier.Service.{
  Service, Found, present, absent, not_found, unknown, as_object, fault_record_type,
}
use compliance_ail.Verifier.Service.ReadBack.{committed_tx_for_value-kept}
use compliance_ail.Verifier.Fault.{
  FaultError, Failed, fault_key, get_in, set_reply, set_without_verification, recorded,
  write_signed, moved_from, write_at, write_fault_record,
}

module _ (V : Service) where
  set_reply-db : (w : World V.ledger) (x : Reply ℕ × V.ledger.State) → (set_reply V w x).1.db ≡ x.1
  unfolding set_reply
  set_reply-db w (fail f, s) = refl
  set_reply-db w (ok t, s) = refl

  recorded-db :
      (key : Text) (x : Option FaultError × World V.ledger) → (recorded V key x).1.db ≡ x.1.db
  unfolding recorded
  recorded-db key (none, w) = refl
  recorded-db key (some e, w) = refl

module _ (V : Service) (P : V.ledger.State → Type 0)
    (keep_get : (s : V.ledger.State) (k : Bytes) → P s → P (V.ledger.get s k).1)
    (keep_set : (s : V.ledger.State) (k v : Bytes) → P s → P (V.ledger.set s k v).1) where
  set_without_verification-kept :
      (w : World V.ledger) (key value : Bytes)
      → P w.db
      → P (set_without_verification V w key value).1.db
  unfolding set_without_verification
  set_without_verification-kept w key value h = elim (Option-cases (V.loads value)) [
    | inl e ↦ rw (e, set_without_verification) h
    | inr (j, e) ↦
        elim (Bool-cases
          (is_text (get_in "record_type" (as_object (some j))) (codes fault_record_type))) [
            | inl fault ↦
                rw (e, fault, set_without_verification)
                  (rw set_reply-db (keep_set w.db key value h))
            | inr other ↦ rw (e, other, set_without_verification) h
          ]
  ]

  write_signed-kept :
      (w : World V.ledger) (f : Failed) (tx : ℕ) (key timestamp : Text)
      → P w.db
      → P (write_signed V w f tx key timestamp).1.db
  unfolding write_signed
  write_signed-kept w f tx key timestamp h = elim (Option-cases V.writer_keys) [
    | inl e ↦ rw (e, write_signed) h
    | inr ((sk, vk), e) ↦ elim (Option-cases (encode key)) [
      | inl n ↦ rw (e, n, write_signed) h
      | inr (k, n) ↦
          rw (e, n, write_signed) (rw recorded-db (set_without_verification-kept w k _ h))
    ]
  ]

  write_at-kept :
      (f : Failed) (reported : Option ℕ) (nonce timestamp : Text) (x : Found × World V.ledger)
      → P x.1.db
      → P (write_at V f reported nonce timestamp x).1.db
  unfolding write_at
  write_at-kept f reported nonce timestamp (absent, w) h = h
  write_at-kept f reported nonce timestamp (not_found, w) h = h
  write_at-kept f reported nonce timestamp (unknown, w) h = h
  write_at-kept f reported nonce timestamp (present tx, w) h =
      elim (Option-cases (moved_from V reported tx)) [
        | inr (m, e) ↦ rw (e, write_at) h
        | inl e ↦ elim (Option-cases (fault_key V f.value f.key tx nonce)) [
          | inl n ↦ rw (e, n, write_at) h
          | inr (key, n) ↦ rw (e, n, write_at) (write_signed-kept w f tx key timestamp h)
        ]
      ]

  pub write_fault_record-kept :
      (w : World V.ledger) (f : Failed) (reported : Option ℕ) (nonce timestamp : Text)
      → P w.db
      → P (write_fault_record V w f reported nonce timestamp).1.db
  unfolding write_fault_record
  write_fault_record-kept w f reported nonce timestamp h =
      write_at-kept f reported nonce timestamp _
        (committed_tx_for_value-kept V P keep_get w f.key f.value h)
