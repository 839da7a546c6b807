-- ===== src/ControlPlane/Content/Erased.antt =====
-- Content is deleted behind a tombstone, and not written in front of one.
use compliance_ail.Common.{
  ◌≡◌, ◌≢◌, refl, sym, ap, ◌∙◌, Bool, true, false, Option, none, some, [], ◌∷◌, Text, Bytes, codes,
  encode, bytes_eq, bytes_eq_iff, bytes_eq_refl, arith, inl, inr, Bool-cases, Option-cases,
}
use compliance_ail.Common.Json.{null, bool, num, real, str, arr, obj, Fields, get, is_text}
use compliance_ail.Provenance.{Crypto}
use compliance_ail.ControlPlane.Content.{
  Reply, lost, body, Outside, Contents, find_content, put_content, drop_content, Status, no_content,
  erasure_key, is_true, erased_by, has_tombstone, write_content, has_tombstone_key, committed,
  checked_write,
}

pub find-put_content :
    (id payload : Text) (rows : Contents)
    → find_content id (put_content id payload rows) ≡ some payload
unfolding find_content put_content
find-put_content id payload [] = rw (bytes_eq_refl id) refl
find-put_content id payload ((k, p) ∷ rest) = elim (Bool-cases (bytes_eq k id)) [
  | inl here ↦ rw (here, find_content, here) refl
  | inr there ↦ rw (there, find_content, there) (find-put_content id payload rest)
]

pub find-drop_content :
    (id : Text) (rows : Contents) → find_content id (drop_content id rows) ≡ none
unfolding find_content drop_content
find-drop_content id [] = refl
find-drop_content id ((k, p) ∷ rest) = elim (Bool-cases (bytes_eq k id)) [
  | inl here ↦ rw here (find-drop_content id rest)
  | inr there ↦ rw (there, find_content, there) (find-drop_content id rest)
]

-- Every other call's content is as it was.
abbrev pub KeepsOthers : Text → Contents → Contents → Type 0
KeepsOthers id before after = (x : Text) → x ≢ id → find_content x after ≡ find_content x before

distinct_keys : (k id x : Text) → bytes_eq k id ≡ true → x ≢ id → bytes_eq k x ≡ false
distinct_keys k id x h d = elim (Bool-cases (bytes_eq k x)) [
  | inl e ↦ absurd (d (sym ((bytes_eq_iff k x).0 e) ∙ (bytes_eq_iff k id).0 h))
  | inr e ↦ e
]

put_content-KeepsOthers :
    (id payload : Text) (rows : Contents) → KeepsOthers id rows (put_content id payload rows)
unfolding find_content put_content
put_content-KeepsOthers id payload [] x d = rw (distinct_keys id id x (bytes_eq_refl id) d) refl
put_content-KeepsOthers id payload ((k, p) ∷ rest) x d = elim (Bool-cases (bytes_eq k id)) [
  | inl here ↦ rw (here, find_content, distinct_keys k id x here d) refl
  | inr there ↦ elim (Bool-cases (bytes_eq k x)) [
    | inl e ↦ rw (there, find_content, e) refl
    | inr e ↦ rw (there, find_content, e) (put_content-KeepsOthers id payload rest x d)
  ]
]

pub drop_content-KeepsOthers :
    (id : Text) (rows : Contents) → KeepsOthers id rows (drop_content id rows)
unfolding find_content drop_content
drop_content-KeepsOthers id [] x d = refl
drop_content-KeepsOthers id ((k, p) ∷ rest) x d = elim (Bool-cases (bytes_eq k id)) [
  | inl here ↦ rw (here, distinct_keys k id x here d) (drop_content-KeepsOthers id rest x d)
  | inr there ↦ elim (Bool-cases (bytes_eq k x)) [
    | inl e ↦ rw (there, find_content, e) refl
    | inr e ↦ rw (there, find_content, e) (drop_content-KeepsOthers id rest x d)
  ]
]

module _ {C : Crypto} (O : Outside C) where
  -- The verifier's answer that lets content be written: no tombstone is there.
  pub record Unerased (id : Text) (net : O.Net) : Type 0 where
    pub key : Bytes
    pub fields : Fields
    pub encoded : encode (erasure_key id) ≡ some key
    pub answered : (O.verify net (C.b64encode key)).0 ≡ body (obj fields)
    pub unverified : is_true O (get "verified" fields) ≡ false
    pub absent : is_text (get "error_class" fields) (codes "not_found") ≡ true

  erased_by-absent :
      (r : Reply)
      → erased_by O r ≡ some false
      → (d : Fields) × (r ≡ body (obj d))
        × (is_true O (get "verified" d) ≡ false)
        × (is_text (get "error_class" d) (codes "not_found") ≡ true)
  unfolding erased_by
  erased_by-absent lost h = absurd (cc h)
  erased_by-absent (body null) h = absurd (cc h)
  erased_by-absent (body (bool b)) h = absurd (cc h)
  erased_by-absent (body (num n)) h = absurd (cc h)
  erased_by-absent (body (real r)) h = absurd (cc h)
  erased_by-absent (body (str s)) h = absurd (cc h)
  erased_by-absent (body (arr xs)) h = absurd (cc h)
  erased_by-absent (body (obj d)) h = (d, refl, ground (arith, h), ground (arith, h))

  has_tombstone-Unerased :
      (id : Text) (net : O.Net) → (has_tombstone O id net).0 ≡ some false → Unerased id net
  unfolding has_tombstone has_tombstone_key
  has_tombstone-Unerased id net h = elim (Option-cases (encode (erasure_key id))) [
    | inl gone ↦
        let nothing : none ≡ some false = sym (ap (λ o. (has_tombstone_key O o net).0) gone) ∙ h in
        absurd (cc nothing)
    | inr (key, e) ↦
        let asked : erased_by O (O.verify net (C.b64encode key)).0 ≡ some false =
          sym (ap (λ o. (has_tombstone_key O o net).0) e) ∙ h in
        let (d, a, u, n) = erased_by-absent (O.verify net (C.b64encode key)).0 asked in
        record { key = key; fields = d; encoded = e; answered = a; unverified = u; absent = n }
  ]

  pub committed-before :
      (status : Status) (before after : Contents) (r : Bool × O.Net)
      → (committed O status before after r).0 ≢ status
      → (committed O status before after r).1 ≡ before
  unfolding committed
  committed-before status before after (false, net) h = refl
  committed-before status before after (true, net) h = absurd (h refl)

  pub committed-after :
      (before after : Contents) (r : Bool × O.Net)
      → (committed O no_content before after r).0 ≡ no_content
      → (committed O no_content before after r).1 ≡ after
  unfolding committed
  committed-after before after (false, net) h = absurd (cc h)
  committed-after before after (true, net) h = refl

  checked_write-Stored :
      (id payload : Text) (rows : Contents) (t : Option Bool × O.Net)
      → (((checked_write O id payload rows t).0 ≢ no_content)
          → (checked_write O id payload rows t).1 ≡ rows)
        × (((checked_write O id payload rows t).0 ≡ no_content)
            → (t.0 ≡ some false)
              × ((checked_write O id payload rows t).1 ≡ put_content id payload rows))
  unfolding checked_write
  checked_write-Stored id payload rows (none, net) = (λ h. refl, λ h. absurd (cc h))
  checked_write-Stored id payload rows (some true, net) = (λ h. refl, λ h. absurd (cc h))
  checked_write-Stored id payload rows (some false, net) = (
    committed-before no_content rows (put_content id payload rows) (O.commit net),
    λ h. (refl, committed-after rows (put_content id payload rows) (O.commit net) h),
  )

  -- Content is stored, for its call only, exactly where the answer is 204, and then the verifier has
  -- answered that no tombstone of the call is in the ledger; any other answer leaves all as it was.
  pub write_content-Unerased :
      (id payload : Text) (rows : Contents) (net : O.Net)
      → (((write_content O id payload rows net).0 ≢ no_content)
          → (write_content O id payload rows net).1 ≡ rows)
        × (((write_content O id payload rows net).0 ≡ no_content)
            → Unerased id net
              × (find_content id (write_content O id payload rows net).1 ≡ some payload)
              × KeepsOthers id rows (write_content O id payload rows net).1)
  unfolding write_content
  write_content-Unerased id payload rows net =
      let (refused, stored) = checked_write-Stored id payload rows (has_tombstone O id net) in
      (
        refused,
        λ h.
            let (free, after) = stored h in
            (
              has_tombstone-Unerased id net free,
              ap (find_content id) after ∙ find-put_content id payload rows,
              λ x d. ap (find_content x) after ∙ put_content-KeepsOthers id payload rows x d,
            ),
      )
