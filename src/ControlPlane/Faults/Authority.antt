-- ===== src/ControlPlane/Faults/Authority.antt =====
-- A fault that a page shows is signed, and its key and its body name one transaction.
use compliance_ail.Common.{
  ◌≡◌, refl, sym, ap, ◌∙◌, ℕ, true, Option, none, some, [], Text, codes, bytes_eq, ℤ, pos,
  int_eq-eq, arith, inl, inr, Bool-cases,
}
use compliance_ail.Common.Json.{
  Json, null, bool, num, real, str, arr, obj, Fields, get, is_text, is_text-eq,
}
use compliance_ail.Provenance.{Crypto, verify_record}
use compliance_ail.ControlPlane.Faults.{
  Reader, Rendered, as_text, as_int, decoded, fault_key_transaction, key_of, value_of, is_signed_by,
  signed_fault, same_transaction, placed_fault, named_fault, typed_fault, rendered_fault,
}

as_text-str : (v : Option Json) (t : Text) → as_text v ≡ some t → v ≡ some (str t)
unfolding as_text
as_text-str none t h = absurd (cc h)
as_text-str (some null) t h = absurd (cc h)
as_text-str (some (bool b)) t h = absurd (cc h)
as_text-str (some (num n)) t h = absurd (cc h)
as_text-str (some (real r)) t h = absurd (cc h)
as_text-str (some (str s)) t h = ap (λ x. some (str x)) (cc h)
as_text-str (some (arr xs)) t h = absurd (cc h)
as_text-str (some (obj d)) t h = absurd (cc h)

module _ {C : Crypto} (R : Reader C) where
  -- What stands behind a fault that is shown for a record's key: the value of the row is a record of a
  -- fault that names this key, the transaction in the row's key is the one in the record, and the
  -- record carries a valid signature of the fault writer.
  pub record Authentic (raw : Fields) (committed_key : Text) : Type 0 where
    pub value : Fields
    pub tx : ℕ
    pub writer : C.VerifyingKey
    pub is_value : value_of R (decoded R (as_text (get "value" raw))) ≡ some value
    pub is_fault : get "record_type" value ≡ some (str (codes "ledger_fault"))
    pub names : get "committed_key" value ≡ some (str committed_key)
    pub key_tx : fault_key_transaction R (key_of R (get "key" raw)) ≡ some tx
    pub body_tx : as_int (get "committed_tx_id" value) ≡ some (pos tx)
    pub has_writer : R.writer_key ≡ some writer
    pub signed : verify_record C value writer ≡ true

  is_signed_by-verify :
      (k : Option C.VerifyingKey) (value : Fields)
      → is_signed_by R k value ≡ true
      → (vk : C.VerifyingKey) × (k ≡ some vk) × (verify_record C value vk ≡ true)
  unfolding is_signed_by
  is_signed_by-verify none value h = absurd (cc h)
  is_signed_by-verify (some vk) value h = (vk, refl, h)

  same_transaction-eq :
      (k : Option ℕ) (b : Option ℤ)
      → same_transaction R k b ≡ true
      → (tx : ℕ) × (k ≡ some tx) × (b ≡ some (pos tx))
  unfolding same_transaction
  same_transaction-eq none b h = absurd (cc h)
  same_transaction-eq (some k) none h = absurd (cc h)
  same_transaction-eq (some k) (some b) h = (k, refl, ap some (sym (int_eq-eq (pos k) b h)))

  signed_fault-parts :
      (raw value : Fields) (key committed_key : Text) (r : Rendered)
      → signed_fault R raw value key ≡ some (committed_key, r)
      → (is_signed_by R R.writer_key value ≡ true) × (key ≡ committed_key)
  unfolding signed_fault
  signed_fault-parts raw value key ck r h = elim (Bool-cases (is_signed_by R R.writer_key value)) [
    | inl good ↦ (good, ground (arith, good, h))
    | inr bad ↦ absurd (ground (arith, bad, h))
  ]

  placed_fault-parts :
      (raw value : Fields) (key committed_key : Text) (r : Rendered)
      → placed_fault R raw value key ≡ some (committed_key, r)
      → (same_transaction R
            (fault_key_transaction R (key_of R (get "key" raw)))
            (as_int (get "committed_tx_id" value))
          ≡ true)
        × (is_signed_by R R.writer_key value ≡ true)
        × (key ≡ committed_key)
  unfolding placed_fault
  placed_fault-parts raw value key ck r h =
      elim (Bool-cases (
        same_transaction R (fault_key_transaction R (key_of R (get "key" raw)))
          (as_int (get "committed_tx_id" value)))) [
            | inl same ↦
                let (signed, is_key) =
                  signed_fault-parts raw value key ck r (ground (arith, same, h)) in
                (same, signed, is_key)
            | inr other ↦ absurd (ground (arith, other, h))
          ]

  named_fault-Authentic :
      (raw value : Fields) (name : Option Text) (committed_key : Text) (r : Rendered)
      → name ≡ as_text (get "committed_key" value)
      → value_of R (decoded R (as_text (get "value" raw))) ≡ some value
      → get "record_type" value ≡ some (str (codes "ledger_fault"))
      → named_fault R raw value name ≡ some (committed_key, r)
      → Authentic raw committed_key
  unfolding named_fault
  named_fault-Authentic raw value none ck r e v t h = absurd (cc h)
  named_fault-Authentic raw value (some key) ck r e v t h = elim (Bool-cases (bytes_eq key [])) [
    | inl empty ↦ absurd (ground (arith, empty, h))
    | inr named ↦
        let (same, signed, is_key) =
          placed_fault-parts raw value key ck r (ground (arith, named, h)) in
        let (tx, of_key, of_body) =
          same_transaction-eq (fault_key_transaction R (key_of R (get "key" raw)))
            (as_int (get "committed_tx_id" value)) same in
        let (vk, has, good) = is_signed_by-verify R.writer_key value signed in
        record {
          value = value;
          tx = tx;
          writer = vk;
          is_value = v;
          is_fault = t;
          names = as_text-str (get "committed_key" value) ck (sym e ∙ ap some is_key);
          key_tx = of_key;
          body_tx = of_body;
          has_writer = has;
          signed = good;
        }
  ]

  typed_fault-Authentic :
      (raw : Fields) (v : Option Fields) (committed_key : Text) (r : Rendered)
      → v ≡ value_of R (decoded R (as_text (get "value" raw)))
      → typed_fault R raw v ≡ some (committed_key, r)
      → Authentic raw committed_key
  unfolding typed_fault
  typed_fault-Authentic raw none ck r e h = absurd (cc h)
  typed_fault-Authentic raw (some value) ck r e h =
      elim (Bool-cases (is_text (get "record_type" value) (codes "ledger_fault"))) [
        | inl typed ↦
            named_fault-Authentic raw value (as_text (get "committed_key" value)) ck r refl (sym e)
              (is_text-eq (get "record_type" value) (codes "ledger_fault") typed)
              (ground (arith, typed, h))
        | inr other ↦ absurd (ground (arith, other, h))
      ]

  -- A row that a page shows as a fault of a record is authentic: signed by the fault writer, about
  -- that record's key, and with one transaction in its key and in its body.
  pub rendered_fault-Authentic :
      (raw : Fields) (committed_key : Text) (r : Rendered)
      → rendered_fault R raw ≡ some (committed_key, r)
      → Authentic raw committed_key
  unfolding rendered_fault
  rendered_fault-Authentic raw ck r h =
      typed_fault-Authentic raw (value_of R (decoded R (as_text (get "value" raw)))) ck r refl h
