-- ===== src/ControlPlane/Content/Tombstone.antt =====
-- Content is deleted only behind a tombstone that was written or confirmed.
use compliance_ail.Common.{
  ◌≡◌, refl, sym, ap, ◌∙◌, Bool, true, false, not, ◌&&◌, Option, none, some, List, [], ◌∷◌, Text,
  Bytes, ℤ, int_eq, int_eq-eq, arith, inl, inr, ◌⊎◌, Bool-cases, In,
}
use compliance_ail.Common.Json.{Json, null, bool, num, real, str, arr, obj, Fields, get, is_text}
use compliance_ail.Provenance.{Crypto}
use compliance_ail.ControlPlane.Content.{
  Entries, unreachable, broken, entries, Outside, erasure_type, Seen, other, confirmed, fails,
  is_true, entry_value, entry_tx, expected_int, seen, confirm_entries, confirmed_by,
  present_in_ledger, at_transaction,
}

Seen-cases : (s : Seen) → (s ≡ other) ⊎ (s ≡ confirmed) ⊎ (s ≡ fails)
Seen-cases other = inl refl
Seen-cases confirmed = inr (inl refl)
Seen-cases fails = inr (inr refl)

Entries-cases :
    (e : Entries) → (e ≡ unreachable) ⊎ (e ≡ broken) ⊎ ((rows : List Fields) × (e ≡ entries rows))
Entries-cases unreachable = inl refl
Entries-cases broken = inr (inl refl)
Entries-cases (entries rows) = inr (inr (rows, refl))

module _ {C : Crypto} (O : Outside C) where
  -- The entry and the answer to the write name one transaction.
  abbrev pub IsAt : Option Json → Fields → Type 0
  IsAt expected raw =
      (t : ℤ) × (entry_tx O (get "tx" raw) ≡ some t) × (expected_int O expected ≡ some t)

  -- An entry that is an erasure of this call, at the expected transaction where one is required.
  pub record Erasure (id : Text) (expected : Option Json) (require : Bool) (raw : Fields)
      : Type 0 where
    pub value : Fields
    pub decodes : entry_value O raw ≡ some (obj value)
    pub typed : is_text (get "record_type" value) erasure_type ≡ true
    pub named : is_text (get "call_id" value) id ≡ true
    pub placed : (require ≡ false) ⊎ IsAt expected raw

  at_transaction-equal :
      (a b : Option ℤ) → at_transaction O a b ≡ confirmed → (t : ℤ) × (a ≡ some t) × (b ≡ some t)
  unfolding at_transaction
  at_transaction-equal none b h = absurd (cc h)
  at_transaction-equal (some a) none h = absurd (cc h)
  at_transaction-equal (some a) (some b) h = elim (Bool-cases (int_eq a b)) [
    | inl e ↦ (a, refl, ap some (sym (int_eq-eq a b e)))
    | inr e ↦ absurd (ground (arith, e, h))
  ]

  seen-Erasure :
      (id : Text) (expected : Option Json) (require : Bool) (raw : Fields) (o : Option Json)
      → entry_value O raw ≡ o
      → seen O id expected require raw o ≡ confirmed
      → Erasure id expected require raw
  unfolding seen
  seen-Erasure id expected require raw none v h = absurd (cc h)
  seen-Erasure id expected require raw (some null) v h = absurd (cc h)
  seen-Erasure id expected require raw (some (bool b)) v h = absurd (cc h)
  seen-Erasure id expected require raw (some (num n)) v h = absurd (cc h)
  seen-Erasure id expected require raw (some (real r)) v h = absurd (cc h)
  seen-Erasure id expected require raw (some (str s)) v h = absurd (cc h)
  seen-Erasure id expected require raw (some (arr xs)) v h = absurd (cc h)
  seen-Erasure id expected false raw (some (obj d)) v h = record {
    value = d;
    decodes = v;
    typed = ground (arith, h);
    named = ground (arith, h);
    placed = inl refl;
  }
  seen-Erasure id expected true raw (some (obj d)) v h =
      elim (Bool-cases (is_text (get "record_type" d) erasure_type)) [
        | inr e ↦ absurd (ground (arith, e, h))
        | inl t ↦ elim (Bool-cases (is_text (get "call_id" d) id)) [
          | inr e ↦ absurd (ground (arith, t, e, h))
          | inl n ↦
              let at : at_transaction O (entry_tx O (get "tx" raw)) (expected_int O expected)
                  ≡ confirmed =
                ground (arith, t, n, h) in
              record {
                value = d;
                decodes = v;
                typed = t;
                named = n;
                placed =
                    inr (
                      at_transaction-equal (entry_tx O (get "tx" raw)) (expected_int O expected)
                        at);
              }
        ]
      ]

  confirm_entries-Erasure :
      (id : Text) (expected : Option Json) (require : Bool) (rows : List Fields)
      → confirm_entries O id expected require rows ≡ some true
      → (raw : Fields) × In raw rows × Erasure id expected require raw
  unfolding confirm_entries
  confirm_entries-Erasure id expected require [] h = absurd (ground (arith, h))
  confirm_entries-Erasure id expected require (raw ∷ rest) h =
      elim (Seen-cases (seen O id expected require raw (entry_value O raw))) [
        | inl e ↦
            let (found, i, E) =
              confirm_entries-Erasure id expected require rest (ground (arith, e, h)) in
            (found, inr i, E)
        | inr (inl e) ↦
            (raw, inl refl, seen-Erasure id expected require raw (entry_value O raw) refl e)
        | inr (inr e) ↦ absurd (ground (arith, e, h))
      ]

  -- Entries that the ledger answered with, among them an erasure of the call.
  pub record Confirmed (id : Text) (key : Bytes) (expected : Option Json) (require : Bool)
      (net : O.Net) : Type 0 where
    pub rows : List Fields
    pub answered : (O.get_all net (C.b64encode key)).0 ≡ entries rows
    pub entry : Fields
    pub is_in : In entry rows
    pub erasure : Erasure id expected require entry

  pub present_in_ledger-Confirmed :
      (id : Text) (key : Bytes) (expected : Option Json) (require : Bool) (net : O.Net)
      → (present_in_ledger O id key expected require net).0 ≡ some true
      → Confirmed id key expected require net
  unfolding present_in_ledger confirmed_by
  present_in_ledger-Confirmed id key expected require net h =
      elim (Bool-cases (require && not (is_true O expected))) [
        | inl nothing ↦ absurd (ground (arith, nothing, h))
        | inr asked ↦
            let answer : confirmed_by O id expected require (O.get_all net (C.b64encode key)).0
                ≡ some true =
              ground (arith, asked, h) in
            elim (Entries-cases (O.get_all net (C.b64encode key)).0) [
              | inl e ↦ absurd (ground (arith, e, answer))
              | inr (inl e) ↦ absurd (ground (arith, e, answer))
              | inr (inr (rows, e)) ↦
                  let (raw, i, E) =
                    confirm_entries-Erasure id expected require rows
                      (sym (ap (confirmed_by O id expected require) e) ∙ answer) in
                  record { rows = rows; answered = e; entry = raw; is_in = i; erasure = E }
            ]
      ]
