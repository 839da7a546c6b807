-- ===== src/ControlPlane/Faults/Keys.antt =====
-- The key that the verifier writes a fault under and the transaction that a page reads from it.
use compliance_ail.Common.{
  ◌≡◌, refl, sym, ap, ◌∙◌, ℕ, zero, suc, ◌+◌, ◌-◌, ◌*◌, ◌/◌, ◌%◌, ◌^◌, ◌<◌, Bool, true, false, ltb,
  none, some, [], ◌∷◌, ◌++◌, Text, Bytes, codes, encode, encode_replace, is_ascii, is_ascii-append,
  encode-prefix, padded, padded-zero, is_ascii-padded, padded-suc, length-padded, length,
  take-append, drop-append, starts_with, arith, if◌then◌else◌,
}
use mathlib.Core.List.{append_assoc}
use native.Mathlib.Nat.{pow-suc}
use compliance_ail.Provenance.{Crypto}
use compliance_ail.Verifier.Service.{Service, fault_key_prefix}
use compliance_ail.Verifier.Fault.{
  fault_key_tx_bound, fault_key, fault_identity, max_ledger_key_bytes,
}
use compliance_ail.ControlPlane.Faults.{
  Reader, all_digits, decimal, key_transaction, fault_key_transaction,
}

decimal-append :
    (a : ℕ) (xs : Text) (d : ℕ) → decimal a (xs ++ (48 + d) ∷ []) ≡ decimal a xs * 10 + d
unfolding decimal
decimal-append a [] d = omega arith
decimal-append a (x ∷ xs) d = decimal-append (a * 10 + (x - 48)) xs d

div_below : (w n : ℕ) → n < 10 ^ suc w → n / 10 < 10 ^ w
div_below w n h = let e = pow-suc 10 w in omega (arith, e, h)

decimal-padded : (w n : ℕ) → n < 10 ^ w → decimal 0 (padded w n) ≡ n
decimal-padded zero zero h = rw padded-zero (unfold decimal in refl)
decimal-padded zero (suc n) h = absurd (omega (arith, h))
decimal-padded (suc w) n h =
    rw (padded-suc, decimal-append, decimal-padded w (n / 10) (div_below w n h)) (omega arith)

all_digits-append :
    (xs ys : Text) → all_digits xs ≡ true → all_digits ys ≡ true → all_digits (xs ++ ys) ≡ true
unfolding all_digits
all_digits-append [] ys h i = i
all_digits-append (x ∷ xs) ys h i =
    let tail : all_digits xs ≡ true = ground (arith, h) in
    ground (arith, h, all_digits-append xs ys tail i)

all_digits_one : (n : ℕ) → all_digits ((48 + n % 10) ∷ []) ≡ true
unfolding all_digits
all_digits_one n = ground arith

all_digits-padded : (w n : ℕ) → n < 10 ^ w → all_digits (padded w n) ≡ true
all_digits-padded zero zero h = rw padded-zero (unfold all_digits in refl)
all_digits-padded zero (suc n) h = absurd (omega (arith, h))
all_digits-padded (suc w) n h = rw padded-suc (
    all_digits-append (padded w (n / 10)) ((48 + n % 10) ∷ [])
      (all_digits-padded w (n / 10) (div_below w n h)) (all_digits_one n))

-- The text of a key up to the colon behind the transaction.
key_head : ℕ → Text
key_head tx = codes fault_key_prefix ++ (padded 20 tx ++ b':' ∷ [])

key_head-is_ascii : (tx : ℕ) → tx < 10 ^ 20 → is_ascii (key_head tx) ≡ true
unfolding key_head codes is_ascii
key_head-is_ascii tx h = is_ascii-append (padded 20 tx) (b':' ∷ []) (is_ascii-padded 20 tx) refl

key_transaction-key_head :
    (tx : ℕ) (rest : Text) → tx < 10 ^ 20 → key_transaction (key_head tx ++ rest) ≡ some tx
unfolding key_transaction key_head codes starts_with
key_transaction-key_head tx rest h =
    let pad : Text = padded 20 tx in
    let behind : Text = b':' ∷ rest in
    let long : length pad ≡ 20 = length-padded 20 tx h in
    let digits : all_digits pad ≡ true = all_digits-padded 20 tx h in
    let value : decimal 0 pad ≡ tx = decimal-padded 20 tx h in
    rw
      (
        append_assoc pad (b':' ∷ []) rest,
        take-append 20 pad behind long,
        drop-append 20 pad behind long,
        long,
        digits,
        value,
      )
      refl

unless_some : (b : Bool) (x y : Text) → (if b then none else some x) ≡ some y → x ≡ y
unless_some true x y h = absurd (cc h)
unless_some false x y h = cc h

module _ (V : Service) (value record_key : Bytes) (tx : ℕ) (nonce : Text) where
  fault_key-key_head :
      (key : Text)
      → fault_key V value record_key tx nonce ≡ some key
      → key ≡ key_head tx ++ (fault_identity V value record_key ++ b':' ∷ nonce)
  unfolding fault_key key_head
  fault_key-key_head key h =
      let rest : Text = fault_identity V value record_key ++ b':' ∷ nonce in
      let whole : Text = fault_key_tx_bound tx ++ b':' ∷ rest in
      let same : whole ≡ key =
        unless_some (ltb max_ledger_key_bytes (length (encode_replace whole))) whole key h in
      let prefix : Text = codes fault_key_prefix in
      let pad : Text = padded 20 tx in
      sym same
      ∙ append_assoc prefix pad (b':' ∷ rest)
      ∙ sym (
          append_assoc prefix (pad ++ b':' ∷ []) rest
          ∙ ap (λ t. prefix ++ t) (append_assoc pad (b':' ∷ []) rest))

  module _ {C : Crypto} (R : Reader C) where
    -- The transaction that the verifier puts into a fault's key is the one that a page reads from it,
    -- for a transaction of at most twenty digits, where the key can be encoded. Decoding must leave
    -- an ASCII prefix as it is.
    pub fault_key_transaction-fault_key :
        (decode_ascii : (p rest : Bytes)
          → is_ascii p ≡ true
          → R.decode_replace (p ++ rest) ≡ p ++ R.decode_replace rest)
        (key encoded : Text) (bytes : Bytes)
        → tx < 10 ^ 20
        → fault_key V value record_key tx nonce ≡ some key
        → encode key ≡ some bytes
        → C.b64decode encoded ≡ some bytes
        → fault_key_transaction R (some encoded) ≡ some tx
    unfolding fault_key_transaction
    fault_key_transaction-fault_key decode_ascii key encoded bytes small made utf8 b64 =
        let behind : Text = fault_identity V value record_key ++ b':' ∷ nonce in
        let shape : key ≡ key_head tx ++ behind = fault_key-key_head key made in
        let (rest, is_bytes) =
          encode-prefix (key_head tx) behind bytes (key_head-is_ascii tx small)
            (ap encode (sym shape) ∙ utf8) in
        let read : R.decode_replace bytes ≡ key_head tx ++ R.decode_replace rest =
          ap R.decode_replace is_bytes
          ∙ decode_ascii (key_head tx) rest (key_head-is_ascii tx small) in
        rw (b64, read) (key_transaction-key_head tx (R.decode_replace rest) small)
