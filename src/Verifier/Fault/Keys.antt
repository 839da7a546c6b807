-- ===== src/Verifier/Fault/Keys.antt =====
-- The key of a fault record is never too long for the ledger.
use compliance_ail.Common.{
  ◌≡◌, refl, sym, ℕ, zero, suc, ◌+◌, ◌^◌, ◌≤◌, ◌<◌, true, false, ltb, Option, none, some, [], ◌∷◌,
  ◌++◌, Text, Bytes, codes, encode, encode_replace, encode-encode_replace, encode-append,
  encode-ascii, is_ascii, is_ascii-take, is_ascii-append, length, length-append, take, padded,
  length-padded, is_ascii-padded, arith, inl, inr, Bool-cases, Option-cases,
}
use compliance_ail.Verifier.Service.{Service, fault_key_prefix, as_object}
use compliance_ail.Verifier.Fault.{
  fault_key_tx_pad, fault_key_tx_bound, max_ledger_key_bytes, max_fault_identity_bytes, is_usable,
  digest_identity, identity_of, fault_identity, fault_key, truthy_text, get_in,
}

length-take : (n : ℕ) (xs : Text) → length (take n xs) ≤ n
length-take zero xs = omega arith
length-take (suc n) [] = omega arith
length-take (suc n) (x ∷ xs) = let l = length-take n xs in omega (arith, l)

-- A text that has an encoding of at most so many bytes.
record Fits (t : Text) (n : ℕ) : Type 0 where
  bytes : Bytes
  encodes : encode t ≡ some bytes
  short : length bytes ≤ n

Fits-append : (s t : Text) (m n : ℕ) → Fits s m → Fits t n → Fits (s ++ t) (m + n)
Fits-append s t m n f g = record {
  bytes = f.bytes ++ g.bytes;
  encodes = encode-append s t f.bytes g.bytes f.encodes g.encodes;
  short = omega (arith, length-append f.bytes g.bytes, f.short, g.short);
}

Fits-ascii : (s : Text) (n : ℕ) → is_ascii s ≡ true → length s ≤ n → Fits s n
Fits-ascii s n a l = record { bytes = s; encodes = encode-ascii s a; short = l }

is_usable-Fits : (t : Text) → is_usable t ≡ true → Fits t max_fault_identity_bytes
unfolding is_usable
is_usable-Fits t h = elim (Option-cases (encode t)) [
  | inl e ↦ absurd (ground (arith, e, h))
  | inr (b, e) ↦
      let lenient : b ≡ encode_replace t = encode-encode_replace t e in
      let bound : length (encode_replace t) ≤ max_fault_identity_bytes = ground (arith, e, h) in
      record { bytes = b; encodes = e; short = rw lenient bound }
]

module _ (V : Service) (record_key : Bytes)
    (hex : is_ascii (V.crypto.sha256_hex record_key) ≡ true) where
  digest_identity-Fits : Fits (digest_identity V record_key) max_fault_identity_bytes
  unfolding digest_identity codes is_ascii
  digest_identity-Fits =
      let digest : Text = take 32 (V.crypto.sha256_hex record_key) in
      let tail = length-take 32 (V.crypto.sha256_hex record_key) in
      Fits-ascii (codes "key:" ++ digest) max_fault_identity_bytes
        (is_ascii-append (codes "key:") digest refl
          (is_ascii-take 32 (V.crypto.sha256_hex record_key) hex))
        (omega (arith, tail))

  identity_of-Fits : (o : Option Text) → Fits (identity_of V o record_key) max_fault_identity_bytes
  unfolding identity_of
  identity_of-Fits none = digest_identity-Fits
  identity_of-Fits (some t) = elim (Bool-cases (is_usable t)) [
    | inl good ↦ rw good (is_usable-Fits t good)
    | inr bad ↦ rw bad digest_identity-Fits
  ]

  fault_identity-Fits :
      (value : Bytes) → Fits (fault_identity V value record_key) max_fault_identity_bytes
  unfolding fault_identity
  fault_identity-Fits value =
      identity_of-Fits
        (truthy_text V.is_nonzero V.str_of (get_in "call_id" (as_object (V.loads value))))

  fault_key-of_Fits :
      (value : Bytes) (tx : ℕ) (nonce : Text)
      → Fits
          (fault_key_tx_bound tx ++ b':' ∷ (fault_identity V value record_key ++ b':' ∷ nonce))
          max_ledger_key_bytes
      → (key : Text) × (fault_key V value record_key tx nonce ≡ some key)
        × (bytes : Bytes) × (encode key ≡ some bytes)
        × (length bytes ≤ max_ledger_key_bytes)
  unfolding fault_key
  fault_key-of_Fits value tx nonce f =
      let key : Text =
        fault_key_tx_bound tx ++ b':' ∷ (fault_identity V value record_key ++ b':' ∷ nonce) in
      let lenient : f.bytes ≡ encode_replace key = encode-encode_replace key f.encodes in
      let bound : length (encode_replace key) ≤ max_ledger_key_bytes = rw (sym lenient) f.short in
      let fine : ltb max_ledger_key_bytes (length (encode_replace key)) ≡ false =
        ground (arith, bound) in
      (key, rw fine refl, f.bytes, f.encodes, f.short)

  -- A fault's key exists whatever the record is: for a transaction of at most twenty digits, an ASCII
  -- nonce of sixteen characters and a digest in hexadecimal it is made, it can be encoded, and it is
  -- within the ledger's limit on a key.
  pub fault_key-encodes :
      (value : Bytes) (tx : ℕ) (nonce : Text)
      → tx < 10 ^ 20
      → is_ascii nonce ≡ true
      → length nonce ≡ 16
      → (key : Text) × (fault_key V value record_key tx nonce ≡ some key)
        × (bytes : Bytes) × (encode key ≡ some bytes)
        × (length bytes ≤ max_ledger_key_bytes)
  unfolding fault_key_tx_bound codes is_ascii
  fault_key-encodes value tx nonce small ascii sixteen =
      let pad : Text = padded fault_key_tx_pad tx in
      let long : length pad ≡ fault_key_tx_pad = length-padded 20 tx small in
      let identity : Text = fault_identity V value record_key in
      let head : Fits (fault_key_tx_bound tx) 33 =
        Fits-ascii (codes fault_key_prefix ++ pad) 33
          (is_ascii-append (codes fault_key_prefix) pad refl (is_ascii-padded fault_key_tx_pad tx))
          (omega (arith, long)) in
      let colon : Fits (b':' ∷ []) 1 = Fits-ascii (b':' ∷ []) 1 refl (omega arith) in
      let tail : Fits nonce 16 = Fits-ascii nonce 16 ascii (omega (arith, sixteen)) in
      fault_key-of_Fits value tx nonce (
        Fits-append (fault_key_tx_bound tx) (b':' ∷ (identity ++ b':' ∷ nonce)) 33 990 head (
          Fits-append (b':' ∷ []) (identity ++ b':' ∷ nonce) 1 989 colon (
            Fits-append identity (b':' ∷ nonce) 972 17 (fault_identity-Fits value)
              (Fits-append (b':' ∷ []) nonce 1 16 colon tail))))
