-- ===== src/ControlPlane/Content/Deleted.antt =====
-- DELETE /content/{call_id} deletes only behind a tombstone.
use compliance_ail.Common.{
  ◌≡◌, ◌≢◌, refl, ap, ◌∙◌, Bool, true, false, Option, none, some, Text, Bytes, encode, arith, inl,
  inr, Bool-cases,
}
use compliance_ail.Common.Json.{null, bool, num, real, str, arr, obj, Fields, get}
use compliance_ail.Provenance.{Crypto}
use compliance_ail.ControlPlane.Content.{
  Reply, lost, body, Outside, Contents, find_content, drop_content, no_content, Outcome,
  erasure_key, is_none, is_true, present_in_ledger, tombstone_value, write_tombstone, erase_content,
  after_result, unestablished, unverified_outcome, post_tombstone, after_write, after_tombstone,
  erase_existing, confirmed_outcome,
}
use compliance_ail.ControlPlane.Content.Erased.{
  find-drop_content, KeepsOthers, drop_content-KeepsOthers, committed-before, committed-after,
}
use compliance_ail.ControlPlane.Content.Tombstone.{Confirmed, present_in_ledger-Confirmed}

module _ {C : Crypto} (O : Outside C) where
  -- Behind this answer of /write there is a tombstone: it says verified, or it says nothing of the
  -- commit and the ledger shows an erasure of the call, or it says committed and the ledger shows an
  -- erasure of the call at its transaction.
  pub data IsBehind (id : Text) (key : Bytes) (d : Fields) (net : O.Net) : Type 0 where
    verified : is_true O (get "verified" d) ≡ true → IsBehind id key d net
    unknown :
        is_none (get "committed" d) ≡ true
        → Confirmed O id key (get "tx_id" d) false net
        → IsBehind id key d net
    known :
        is_true O (get "committed" d) ≡ true
        → Confirmed O id key (get "tx_id" d) true net
        → IsBehind id key d net

  confirmed_outcome-true :
      (o : Outcome) (t : Option Bool × O.Net) (r : Outcome)
      → (confirmed_outcome O o t).0 ≡ some r
      → t.0 ≡ some true
  unfolding confirmed_outcome
  confirmed_outcome-true o (none, net) r h = absurd (cc h)
  confirmed_outcome-true o (some false, net) r h = absurd (cc h)
  confirmed_outcome-true o (some true, net) r h = refl

  after_result-IsBehind :
      (id : Text) (key : Bytes) (d : Fields) (net : O.Net) (r : Outcome)
      → (after_result O id key d net).0 ≡ some r
      → IsBehind id key d net
  unfolding after_result
  after_result-IsBehind id key d net r h = elim (Bool-cases (is_true O (get "verified" d))) [
    | inl v ↦ verified v
    | inr unverified ↦ elim (Bool-cases (is_none (get "committed" d))) [
      | inl n ↦ unknown n (
          present_in_ledger-Confirmed O id key (get "tx_id" d) false net (
            confirmed_outcome-true (unestablished d)
              (present_in_ledger O id key (get "tx_id" d) false net) r
              (ground (arith, unverified, n, h))))
      | inr said ↦ elim (Bool-cases (is_true O (get "committed" d))) [
        | inl c ↦ known c (
            present_in_ledger-Confirmed O id key (get "tx_id" d) true net (
              confirmed_outcome-true (unverified_outcome d)
                (present_in_ledger O id key (get "tx_id" d) true net) r
                (ground (arith, unverified, said, c, h))))
        | inr denied ↦ absurd (ground (arith, unverified, said, denied, h))
      ]
    ]
  ]

  -- The signed tombstone of the call that was posted, and the answer that puts it behind the erasure.
  pub record Tombstoned (id : Text) (net : O.Net) : Type 0 where
    pub signing_key : C.SigningKey
    pub verifying_key : C.VerifyingKey
    pub key : Bytes
    pub fields : Fields
    pub owned : O.writer_keys ≡ some (signing_key, verifying_key)
    pub encoded : encode (erasure_key id) ≡ some key
    pub answered :
        (O.write
          (O.utcnow net).1
          (C.b64encode key)
          (tombstone_value O id signing_key verifying_key (O.utcnow net).0)).0
        ≡ body (obj fields)
    pub behind :
        IsBehind id key fields
          (O.write
            (O.utcnow net).1
            (C.b64encode key)
            (tombstone_value O id signing_key verifying_key (O.utcnow net).0)).1

  after_write-IsBehind :
      (id : Text) (key : Bytes) (a : Reply × O.Net) (r : Outcome)
      → (after_write O id key a).0 ≡ some r
      → (d : Fields) × (a.0 ≡ body (obj d)) × IsBehind id key d a.1
  unfolding after_write
  after_write-IsBehind id key (lost, net) r h = absurd (cc h)
  after_write-IsBehind id key (body null, net) r h = absurd (cc h)
  after_write-IsBehind id key (body (bool b), net) r h = absurd (cc h)
  after_write-IsBehind id key (body (num n), net) r h = absurd (cc h)
  after_write-IsBehind id key (body (real x), net) r h = absurd (cc h)
  after_write-IsBehind id key (body (str s), net) r h = absurd (cc h)
  after_write-IsBehind id key (body (arr xs), net) r h = absurd (cc h)
  after_write-IsBehind id key (body (obj d), net) r h =
      (d, refl, after_result-IsBehind id key d net r h)

  post_tombstone-IsBehind :
      (id : Text) (keys : Option (C.SigningKey × C.VerifyingKey)) (key : Option Bytes)
      (at : Text × O.Net) (r : Outcome)
      → (post_tombstone O id keys key at).0 ≡ some r
      → (sk : C.SigningKey) × (vk : C.VerifyingKey) × (k : Bytes) × (d : Fields) × (keys
          ≡ some (sk, vk))
        × (key ≡ some k)
        × ((O.write at.1 (C.b64encode k) (tombstone_value O id sk vk at.0)).0 ≡ body (obj d))
        × IsBehind id k d (O.write at.1 (C.b64encode k) (tombstone_value O id sk vk at.0)).1
  unfolding post_tombstone
  post_tombstone-IsBehind id none key (now, net) r h = absurd (cc h)
  post_tombstone-IsBehind id (some keys) none (now, net) r h = absurd (cc h)
  post_tombstone-IsBehind id (some (sk, vk)) (some k) (now, net) r h =
      let (d, a, b) =
        after_write-IsBehind id k (O.write net (C.b64encode k) (tombstone_value O id sk vk now)) r
          h in
      (sk, vk, k, d, refl, refl, a, b)

  write_tombstone-Tombstoned :
      (id : Text) (net : O.Net) (r : Outcome)
      → (write_tombstone O id net).0 ≡ some r
      → Tombstoned id net
  unfolding write_tombstone
  write_tombstone-Tombstoned id net r h =
      let (sk, vk, k, d, o, e, a, b) =
        post_tombstone-IsBehind id O.writer_keys (encode (erasure_key id)) (O.utcnow net) r h in
      record {
        signing_key = sk;
        verifying_key = vk;
        key = k;
        fields = d;
        owned = o;
        encoded = e;
        answered = a;
        behind = b;
      }

  after_tombstone-Deleted :
      (id : Text) (rows : Contents) (t : Option Outcome × O.Net)
      → (((after_tombstone O id rows t).0 ≢ no_content) → (after_tombstone O id rows t).1 ≡ rows)
        × (((after_tombstone O id rows t).0 ≡ no_content)
            → ((r : Outcome) × (t.0 ≡ some r))
              × ((after_tombstone O id rows t).1 ≡ drop_content id rows))
  unfolding after_tombstone
  after_tombstone-Deleted id rows (none, net) = (λ h. refl, λ h. absurd (cc h))
  after_tombstone-Deleted id rows (some r, net) = (
    committed-before O no_content rows (drop_content id rows) (O.commit net),
    λ h. ((r, refl), committed-after O rows (drop_content id rows) (O.commit net) h),
  )

  -- Where a call has content, an answer 204 of the erasure means that its content, and no other, is
  -- gone, and that a signed tombstone of the call was posted, with an answer that says verified or is
  -- confirmed by the ledger; after any other answer all content is as it was.
  pub erase_content-Tombstoned :
      (id payload : Text) (rows : Contents) (net : O.Net)
      → find_content id rows ≡ some payload
      → (((erase_content O id rows net).0 ≢ no_content) → (erase_content O id rows net).1 ≡ rows)
        × (((erase_content O id rows net).0 ≡ no_content)
            → Tombstoned id net
              × (find_content id (erase_content O id rows net).1 ≡ none)
              × KeepsOthers id rows (erase_content O id rows net).1)
  unfolding erase_content erase_existing
  erase_content-Tombstoned id payload rows net held =
      let (refused, deleted) = after_tombstone-Deleted id rows (write_tombstone O id net) in
      rw held (
        refused,
        λ h.
            let ((r, written), after) = deleted h in
            (
              write_tombstone-Tombstoned id net r written,
              ap (find_content id) after ∙ find-drop_content id rows,
              λ x d. ap (find_content x) after ∙ drop_content-KeepsOthers id rows x d,
            ),
      )
