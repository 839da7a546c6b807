-- ===== src/Verifier/Reads/Proved.antt =====
-- What a read that is answered "verified" has behind it, and what a checkpoint leaves alone.
use compliance_ail.Common.{
  ◌≡◌, refl, sym, ap, ◌⊎◌, inl, inr, ℕ, ◌≤◌, true, false, Option, none, some, Bytes, arith,
  Bool-cases,
}
use compliance_ail.Verifier.Ledger.{Failure, Reply, ok, fail}
use compliance_ail.Verifier.Anchor.{
  State, Verified, good, bad_signature, broken, Platform, Unverified, RootService, get_anchor,
}
use compliance_ail.Verifier.Answers.{
  AnchorState, SafeGet, Sdk, Cause, ErrorClass, anchor_precedes_record, anchor_signature_failure,
  StateRead, root, client, not_decoded,
}
use compliance_ail.Verifier.Reads.{
  refused, failed, held, state_read, reported, report, settle, precedes, settled, proved, fetched,
  prove, from_held, anchor_reply, state_of, is_good, is_signed, from_anchor, connected, verify,
}

module _ {P : Platform} (K : Sdk P) where
  -- Where a supplied checkpoint may be the source of a proof: it decodes to that state, the key of the
  -- client signs it, and the record is not after it.
  pub record Pinned (a : AnchorState) (source : State) (tx : ℕ) : Type 0 where
    pub key : P.Key
    pub decoded : state_of K a ≡ some source
    pub has_key : K.client_key ≡ some key
    pub signed : P.verify key source ≡ good
    pub covers : tx ≤ source.tx_id

  -- What the source is, of the service `r` that connecting left, and the server that is asked: without
  -- a checkpoint the state that `r` holds, which its own `get` returned or fetched; else the checkpoint.
  pub data Sourced (source : State) (server : P.Server) (tx : ℕ) (r : RootService P)
      : Option AnchorState → Type 0 where
    of_held :
        (get_anchor P r).0 ≡ none
        → (get_anchor P r).1.cache ≡ some source
        → (get_anchor P r).1.server ≡ server
        → Sourced source server tx r none
    of_anchor :
        (a : AnchorState)
        → Pinned a source tx
        → r.server ≡ server
        → Sourced source server tx r (some a)

  -- The SDK proved an entry for this key, fetched from the server since the transaction of the source.
  pub record Proof (key : Bytes) (a : Option AnchorState) (r : RootService P) (tx : Option ℕ)
      : Type 0 where
    pub source : State
    pub server : P.Server
    pub entry : K.Entry
    pub found : SafeGet
    pub next_state : State
    pub fetched_entry : (K.verifiable_get server key source.tx_id).0 ≡ ok entry
    pub checked_entry : K.check entry source key K.client_key ≡ ok (found, next_state)
    pub reports : tx ≡ some found.tx_id
    pub sourced : Sourced source server found.tx_id r a

  failed-verified : {A : Type 0} (c : Cause) → (failed K c).verified ≡ true → A
  unfolding failed refused
  failed-verified c h = absurd (cc h)

  refused-verified : {A : Type 0} (e : ErrorClass) → (refused K e none).verified ≡ true → A
  unfolding refused
  refused-verified e h = absurd (cc h)

  reported-tx :
      (source : State) (entry : K.Entry) (resp : SafeGet) (got : Option ℕ × StateRead)
      (u : Option Failure)
      → (reported K source entry resp got u).tx_id ≡ some resp.tx_id
  unfolding reported
  reported-tx source entry resp (id, read) none = refl
  reported-tx source entry resp (id, read) (some f) = refl

  report-tx :
      (a : Option AnchorState) (source : State) (entry : K.Entry) (resp : SafeGet)
      (r : RootService P)
      → (report K a source entry resp r).0.tx_id ≡ some resp.tx_id
  unfolding report
  report-tx a source entry resp r =
      reported-tx source entry resp (state_read K a r).0 (K.unreported source entry resp)

  settled-verified :
      (a : Option AnchorState) (source : State) (entry : K.Entry) (resp : SafeGet)
      (x : Option Unverified × RootService P)
      → (settled K a source entry resp x).0.verified ≡ true
      → (precedes K a resp source ≡ false)
        × ((settled K a source entry resp x).0.tx_id ≡ some resp.tx_id)
  unfolding settled
  settled-verified a source entry resp (some e, r) h = failed-verified (root e) h
  settled-verified a source entry resp (none, r) h = elim (Bool-cases (precedes K a resp source)) [
    | inl early ↦ refused-verified anchor_precedes_record (ground (arith, early, h))
    | inr fine ↦ (fine, rw fine (report-tx a source entry resp r))
  ]

  proved-verified :
      (a : Option AnchorState) (source : State) (entry : K.Entry) (x : Reply (SafeGet × State))
      (r : RootService P)
      → (proved K a source entry x r).0.verified ≡ true
      → (found : SafeGet) × (new : State) × (x ≡ ok (found, new))
        × (precedes K a found source ≡ false)
        × ((proved K a source entry x r).0.tx_id ≡ some found.tx_id)
  unfolding proved
  proved-verified a source entry (fail f) r h = failed-verified (client f) h
  proved-verified a source entry (ok (resp, new)) r h =
      let (fine, tx) = settled-verified a source entry resp (settle K a new r) h in
      (resp, new, refl, fine, tx)

  -- How the source was come by, before the proof, where `r` is what connecting left.
  abbrev Usable : Option AnchorState → State → P.Server → RootService P → Type 0
  Usable a source v r =
      (tx : ℕ) (s : SafeGet)
      → s.tx_id ≡ tx
      → precedes K a s source ≡ false
      → Sourced source v tx r a

  fetched-verified :
      (a : Option AnchorState) (source : State) (key : Bytes) (base r : RootService P)
      (v : P.Server) (x : Reply K.Entry × P.Server)
      → Usable a source v base
      → x ≡ K.verifiable_get v key source.tx_id
      → (fetched K a source key r x).0.verified ≡ true
      → Proof key a base (fetched K a source key r x).0.tx_id
  unfolding fetched
  fetched-verified a source key base r v (fail f, s) u e h = failed-verified (client f) h
  fetched-verified a source key base r v (ok entry, s) u e h =
      let (found, new, checks, fine, tx) =
        proved-verified a source entry (K.check entry source key K.client_key)
          (record r { server = s }) h in
      record {
        source = source;
        server = v;
        entry = entry;
        found = found;
        next_state = new;
        fetched_entry = ap (λ y. y.0) (sym e);
        checked_entry = checks;
        reports = tx;
        sourced = u found.tx_id found refl fine;
      }

  -- A state that `get` returned is the one that the service holds then.
  anchor_reply-held :
      (e : Option Unverified) (c : Option State) (source : State)
      → anchor_reply K e c ≡ inr source
      → (e ≡ none) × (c ≡ some source)
  unfolding anchor_reply
  anchor_reply-held (some e) c source h = absurd (cc h)
  anchor_reply-held none none source h = absurd (cc h)
  anchor_reply-held none (some s) source h = let same : s ≡ source = cc h in (refl, ap some same)

  held-get_anchor :
      (r : RootService P) (source : State)
      → (held K r).0 ≡ inr source
      → ((get_anchor P r).0 ≡ none) × ((get_anchor P r).1.cache ≡ some source)
  unfolding held
  held-get_anchor r source h =
      anchor_reply-held (get_anchor P r).0 (get_anchor P r).1.cache source h

  from_held-verified :
      (key : Bytes) (base : RootService P) (x : (Cause ⊎ State) × RootService P)
      → ((source : State) → x.0 ≡ inr source → Usable none source x.1.server base)
      → (from_held K key x).0.verified ≡ true
      → Proof key none base (from_held K key x).0.tx_id
  unfolding from_held prove
  from_held-verified key base (inl c, r) u h = failed-verified c h
  from_held-verified key base (inr source, r) u h =
      fetched-verified none source key base r r.server (K.verifiable_get r.server key source.tx_id)
        (u source refl) refl h

  held-Usable :
      (r : RootService P) (source : State)
      → (held K r).0 ≡ inr source
      → Usable none source (held K r).1.server r
  unfolding held
  held-Usable r source h tx s e p =
      let (quiet, cached) = held-get_anchor r source h in of_held quiet cached refl

  is_good-good : (v : Verified) → is_good K v ≡ true → v ≡ good
  unfolding is_good
  is_good-good good h = refl
  is_good-good bad_signature h = absurd (cc h)
  is_good-good (broken f) h = absurd (cc h)

  is_signed-good :
      (k : Option P.Key) (s : State)
      → is_signed K k s ≡ true
      → (key : P.Key) × (k ≡ some key) × (P.verify key s ≡ good)
  unfolding is_signed
  is_signed-good none s h = absurd (cc h)
  is_signed-good (some k) s h = (k, refl, is_good-good (P.verify k s) h)

  anchor-Usable :
      (a : AnchorState) (source : State)
      → state_of K a ≡ some source
      → is_signed K K.client_key source ≡ true
      → (r : RootService P) → Usable (some a) source r.server r
  unfolding precedes
  anchor-Usable a source d h r tx s e p =
      let (k, has, signed) = is_signed-good K.client_key source h in
      of_anchor a
        (record {
          key = k;
          decoded = d;
          has_key = has;
          signed = signed;
          covers = ground (arith, e, p);
        })
        refl

  from_anchor-verified :
      (key : Bytes) (a : AnchorState) (o : Option State) (r : RootService P)
      → o ≡ state_of K a
      → (from_anchor K key a o r).0.verified ≡ true
      → Proof key (some a) r (from_anchor K key a o r).0.tx_id
  unfolding from_anchor prove
  from_anchor-verified key a none r e h = failed-verified not_decoded h
  from_anchor-verified key a (some source) r e h =
      elim (Bool-cases (is_signed K K.client_key source)) [
        | inr bare ↦ refused-verified anchor_signature_failure (ground (arith, bare, h))
        | inl signed ↦ rw signed (
            fetched-verified (some a) source key r r r.server
              (K.verifiable_get r.server key source.tx_id) (anchor-Usable a source (sym e) signed r)
              refl (ground (arith, signed, h)))
      ]

  connected-verified :
      (key : Bytes) (a : Option AnchorState) (x : Reply (Unit {0}) × RootService P)
      → (connected K key a x).0.verified ≡ true
      → Proof key a x.1 (connected K key a x).0.tx_id
  unfolding connected
  connected-verified key a (fail f, r) h = failed-verified (client f) h
  connected-verified key none (ok tt, r) h = from_held-verified key r (held K r) (held-Usable r) h
  connected-verified key (some a) (ok tt, r) h = from_anchor-verified key a (state_of K a) r refl h

  -- A read that is answered "verified" rests on an entry that the server returned for this key and
  -- that the SDK proved from a source state. Without a checkpoint that source is the anchor that the
  -- connected client holds, as `get` returned it; with one it is the checkpoint, signed by the key of
  -- the client, and the record is not after it.
  pub verify-Proof :
      (key : Bytes) (a : Option AnchorState) (r : RootService P)
      → (verify K key a r).0.verified ≡ true
      → Proof key a (K.connect r).1 (verify K key a r).0.tx_id
  unfolding verify
  verify-Proof key a r h = connected-verified key a (K.connect r) h
