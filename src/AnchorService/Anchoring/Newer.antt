-- ===== src/AnchorService/Anchoring/Newer.antt =====
-- Only newer heads are anchored, each with a signature over its own bytes.
use compliance_ail.Common.{
  ◌≡◌, refl, sym, ap, ◌∙◌, ℕ, zero, suc, true, false, Option, none, some, List, [], ◌∷◌, Text,
  Bytes, ℤ, IsLess, int_le-IsLess, arith, inl, inr, Bool-cases, Option-cases,
}
use mathlib.Core.Path.{subst}
use compliance_ail.Common.Json.{Json, Fields, get}
use compliance_ail.Provenance.{Crypto, IsSound}
use compliance_ail.AnchorService.Anchoring.{
  Services, Checkpoint, checkpoint_fields, canonical_anchor_bytes, hashedrekord_request, request_of,
  external_fields, checkpoint_of, Anchored, raised, nothing_new, anchored, recorded_at, submitted,
  in_log, configured, with_checkpoint, is_old, with_transaction, with_state, tx_of, anchor_once,
  last_after, rounds, ConfigCache, sigstore_config,
}

-- Above the last anchored transaction, if there is one.
abbrev pub IsNewer : Option ℤ → ℤ → Type 0
IsNewer none tx = Unit {0}
IsNewer (some last) tx = IsLess last tx

is_old-IsNewer : (last : Option ℤ) (tx : ℤ) → is_old last tx ≡ false → IsNewer last tx
unfolding is_old
is_old-IsNewer none tx h = tt
is_old-IsNewer (some last) tx h = int_le-IsLess tx last h

-- Each anchored transaction is above the one before it.
abbrev pub Increases : Option ℤ → List Anchored → Type 0
Increases last [] = Unit {0}
Increases last (raised ∷ rest) = Increases last rest
Increases last (nothing_new ∷ rest) = Increases last rest
Increases last (anchored tx ∷ rest) = IsNewer last tx × Increases (some tx) rest

module _ {C : Crypto} (S : Services C) (sk : C.SigningKey) (vk : C.VerifyingKey) where
  -- The log that the configuration of this cycle names took the request of a checkpoint, and the
  -- control plane answered the POST of the checkpoint with the log's entry, which need not mean that
  -- it was recorded: an anchor that was there at the transaction stands.
  pub record IsSent (c : Checkpoint) (cache : ConfigCache S sk vk) (net : S.Net) : Type 0 where
    pub config : S.SigstoreConfig
    pub configured_as :
        (sigstore_config S sk vk (S.monotonic net).0 cache (S.monotonic net).1).0 ≡ some config
    pub log : Text × Text
    pub chosen :
        S.discover_log_url
          (sigstore_config S sk vk (S.monotonic net).0 cache (S.monotonic net).1).2
          config
        ≡ some log
    pub entry : Fields
    pub logged :
        (S.submit
          (sigstore_config S sk vk (S.monotonic net).0 cache (S.monotonic net).1).2
          log.0
          (request_of S sk vk c)).0
        ≡ some entry
    pub answer : Json
    pub answered :
        (S.record_anchor
          (S.submit
            (sigstore_config S sk vk (S.monotonic net).0 cache (S.monotonic net).1).2
            log.0
            (request_of S sk vk c)).1
          (checkpoint_fields c)
          (external_fields S sk vk log entry)).0
        ≡ some answer

  -- What was anchored: the head that the verifier answered with, which is newer, sent from there.
  pub record Posted (last : Option ℤ) (cache : ConfigCache S sk vk) (net : S.Net) (tx : ℤ)
      : Type 0 where
    pub state : Fields
    pub fetched : (S.fetch_state net).0 ≡ some state
    pub head : tx_of S sk vk (get "tx_id" state) ≡ some tx
    pub newer : IsNewer last tx
    pub checkpoint : Checkpoint
    pub parts :
        checkpoint_of tx (get "db" state) (get "tx_hash" state) (get "signature" state)
        ≡ some checkpoint
    pub sent : IsSent checkpoint cache (S.fetch_state net).1

  -- A request has the digest of the checkpoint's bytes and a signature over them that the key accepts.
  pub record IsRequest (c : Checkpoint) (r : Fields) : Type 0 where
    pub signature : Bytes
    pub made :
        r
        ≡ hashedrekord_request S sk vk
            (S.sha256 (canonical_anchor_bytes S sk vk c))
            signature
            (C.to_der vk)
    pub accepted : C.verifies vk signature (canonical_anchor_bytes S sk vk c) ≡ true

  request_of-IsRequest :
      (sound : IsSound C)
      → vk ≡ C.public_key sk
      → (c : Checkpoint) → IsRequest c (request_of S sk vk c)
  unfolding request_of
  request_of-IsRequest sound own c = record {
    signature = C.sign_deterministic sk (canonical_anchor_bytes S sk vk c);
    made = refl;
    accepted =
        ap
          (λ k.
            C.verifies k (C.sign_deterministic sk (canonical_anchor_bytes S sk vk c))
              (canonical_anchor_bytes S sk vk c))
          own
        ∙ sound.verifies-sign sk (canonical_anchor_bytes S sk vk c);
  }

  recorded_at-answer :
      (t : ℤ) (cache : ConfigCache S sk vk) (r : Option Json × S.Net) (tx : ℤ)
      → (recorded_at S sk vk t cache r).0 ≡ anchored tx
      → (answer : Json) × (r.0 ≡ some answer) × (t ≡ tx)
  unfolding recorded_at
  recorded_at-answer t cache (none, net) tx h = absurd (cc h)
  recorded_at-answer t cache (some answer, net) tx h = (answer, refl, cc h)

  submitted-answer :
      (c : Checkpoint) (log : Text × Text) (cache : ConfigCache S sk vk) (r : Option Fields × S.Net)
      (tx : ℤ)
      → (submitted S sk vk c log cache r).0 ≡ anchored tx
      → (c.tx_id ≡ tx)
        × (entry : Fields) × (r.0 ≡ some entry)
        × (answer : Json) × ((S.record_anchor r.1
              (checkpoint_fields c)
              (external_fields S sk vk log entry)).0
            ≡ some answer)
  unfolding submitted
  submitted-answer c log cache (none, net) tx h = absurd (cc h)
  submitted-answer c log cache (some entry, net) tx h =
      let (answer, answers, same_tx) =
        recorded_at-answer c.tx_id cache
          (S.record_anchor net (checkpoint_fields c) (external_fields S sk vk log entry)) tx h in
      (same_tx, entry, refl, answer, answers)

  -- What a log and the control plane have answered, from this state.
  abbrev IsLogged : Checkpoint → Text × Text → S.Net → Type 0
  IsLogged c log at =
      (entry : Fields) × ((S.submit at log.0 (request_of S sk vk c)).0 ≡ some entry)
      × (answer : Json) × ((S.record_anchor (S.submit at log.0 (request_of S sk vk c)).1
            (checkpoint_fields c) (external_fields S sk vk log entry)).0
          ≡ some answer)

  in_log-IsLogged :
      (c : Checkpoint) (o : Option (Text × Text)) (cache : ConfigCache S sk vk) (net : S.Net)
      (tx : ℤ)
      → (in_log S sk vk c o cache net).0 ≡ anchored tx
      → (c.tx_id ≡ tx) × (log : Text × Text) × (o ≡ some log) × IsLogged c log net
  unfolding in_log
  in_log-IsLogged c none cache net tx h = absurd (cc h)
  in_log-IsLogged c (some (url, source)) cache net tx h =
      let (e, entry, logged, answer, answers) =
        submitted-answer c (url, source) cache (S.submit net url (request_of S sk vk c)) tx h in
      (e, (url, source), refl, (entry, logged, answer, answers))

  configured-IsLogged :
      (c : Checkpoint) (r : Option S.SigstoreConfig × ConfigCache S sk vk × S.Net) (tx : ℤ)
      → (configured S sk vk c r).0 ≡ anchored tx
      → (c.tx_id ≡ tx)
        × (config : S.SigstoreConfig) × (r.0 ≡ some config)
        × (log : Text × Text) × (S.discover_log_url r.2 config ≡ some log)
        × IsLogged c log r.2
  unfolding configured
  configured-IsLogged c (none, cache, net) tx h = absurd (cc h)
  configured-IsLogged c (some config, cache, net) tx h =
      let (e, log, chosen, logged) =
        in_log-IsLogged c (S.discover_log_url net config) cache net tx h in
      (e, config, refl, log, chosen, logged)

  with_checkpoint-IsSent :
      (o : Option Checkpoint) (cache : ConfigCache S sk vk) (net : S.Net) (tx : ℤ)
      → (with_checkpoint S sk vk o cache net).0 ≡ anchored tx
      → (c : Checkpoint) × (o ≡ some c) × IsSent c cache net
  unfolding with_checkpoint
  with_checkpoint-IsSent none cache net tx h = absurd (cc h)
  with_checkpoint-IsSent (some c) cache net tx h =
      let (e, config, is_config, log, chosen, (entry, logged, answer, answers)) =
        configured-IsLogged c
          (sigstore_config S sk vk (S.monotonic net).0 cache (S.monotonic net).1) tx h in
      (
        c,
        refl,
        record {
          config = config;
          configured_as = is_config;
          log = log;
          chosen = chosen;
          entry = entry;
          logged = logged;
          answer = answer;
          answered = answers;
        },
      )

  -- Where a call ends with a transaction, that is the head's.
  with_checkpoint-tx :
      (tx : ℤ) (db hash sig : Option Json) (cache : ConfigCache S sk vk) (net : S.Net) (t : ℤ)
      → (with_checkpoint S sk vk (checkpoint_of tx db hash sig) cache net).0 ≡ anchored t
      → tx ≡ t
  unfolding with_checkpoint checkpoint_of
  with_checkpoint-tx tx none hash sig cache net t h = absurd (cc h)
  with_checkpoint-tx tx (some db) none sig cache net t h = absurd (cc h)
  with_checkpoint-tx tx (some db) (some hash) none cache net t h = absurd (cc h)
  with_checkpoint-tx tx (some db) (some hash) (some sig) cache net t h =
      (configured-IsLogged (record { db = db; tx_id = tx; tx_hash = hash; signature = sig })
        (sigstore_config S sk vk (S.monotonic net).0 cache (S.monotonic net).1) t h).0

  anchor_once-head :
      (last : Option ℤ) (cache : ConfigCache S sk vk) (net : S.Net) (tx : ℤ)
      → (anchor_once S sk vk last cache net).0 ≡ anchored tx
      → Posted last cache net tx
  unfolding anchor_once with_state with_transaction
  anchor_once-head last cache net tx h = elim (Option-cases (S.fetch_state net).0) [
    | inl gone ↦ absurd (ground (arith, gone, h))
    | inr (state, f) ↦
        let fetched : (with_state S sk vk last cache (some state, (S.fetch_state net).1)).0
            ≡ anchored tx =
          ap (λ o. (with_state S sk vk last cache (o, (S.fetch_state net).1)).0) (sym f) ∙ h in
        elim (Option-cases (tx_of S sk vk (get "tx_id" state))) [
          | inl gone ↦ absurd (ground (arith, gone, fetched))
          | inr (t, e) ↦
              let made =
                checkpoint_of t (get "db" state) (get "tx_hash" state) (get "signature" state) in
              let at_tx : (with_transaction S sk vk last state (some t) cache
                    (S.fetch_state net).1).0
                  ≡ anchored tx =
                ap (λ o. (with_transaction S sk vk last state o cache (S.fetch_state net).1).0)
                  (sym e)
                ∙ fetched in
              elim (Bool-cases (is_old last t)) [
                | inl old ↦ absurd (ground (arith, old, at_tx))
                | inr new ↦
                    let sent : (with_checkpoint S sk vk made cache (S.fetch_state net).1).0
                        ≡ anchored tx =
                      ground (arith, new, at_tx) in
                    let same_tx : t ≡ tx =
                      with_checkpoint-tx t (get "db" state) (get "tx_hash" state)
                        (get "signature" state) cache (S.fetch_state net).1 tx sent in
                    let (c, parts, posted) =
                      with_checkpoint-IsSent made cache (S.fetch_state net).1 tx sent in
                    record {
                      state = state;
                      fetched = f;
                      head = e ∙ ap some same_tx;
                      newer = subst (IsNewer last) same_tx (is_old-IsNewer last t new);
                      checkpoint = c;
                      parts =
                          ap
                            (λ k.
                              checkpoint_of k (get "db" state) (get "tx_hash" state)
                                (get "signature" state))
                            (sym same_tx)
                          ∙ parts;
                      sent = posted;
                    }
              ]
        ]
  ]

  -- Over a sound library and with the two keys of one pair, a call of `anchor_once` that ends with a
  -- transaction has fetched the head at it, which is newer than the last one; the log that this
  -- cycle's configuration names has taken a request with the digest of the head's own checkpoint and a
  -- valid signature over its bytes; and the control plane has answered the POST of that checkpoint
  -- with the log's entry, whatever the answer says of recording it.
  pub anchor_once-Posted :
      (sound : IsSound C)
      → vk ≡ C.public_key sk
      → (last : Option ℤ) (cache : ConfigCache S sk vk) (net : S.Net) (tx : ℤ)
      → (anchor_once S sk vk last cache net).0 ≡ anchored tx
      → (p : Posted last cache net tx) × IsRequest p.checkpoint (request_of S sk vk p.checkpoint)
  anchor_once-Posted sound own last cache net tx h =
      let p = anchor_once-head last cache net tx h in
      (p, request_of-IsRequest sound own p.checkpoint)

  Increases-step :
      (last : Option ℤ) (a : Anchored) (rest : List Anchored)
      → ((tx : ℤ) → a ≡ anchored tx → IsNewer last tx)
      → Increases (last_after last a) rest
      → Increases last (a ∷ rest)
  unfolding last_after
  Increases-step last raised rest newer i = i
  Increases-step last nothing_new rest newer i = i
  Increases-step last (anchored tx) rest newer i = (newer tx refl, i)

  -- Over any number of rounds of the loop, whatever comes between them, each transaction that is
  -- anchored is above the one anchored before it.
  pub rounds-Increases :
      (pause : S.Net → S.Net) (n : ℕ) (last : Option ℤ) (cache : ConfigCache S sk vk) (net : S.Net)
      → Increases last (rounds S sk vk pause n last cache net)
  unfolding rounds
  rounds-Increases pause zero last cache net = tt
  rounds-Increases pause (suc n) last cache net =
      let r = anchor_once S sk vk last cache net in
      Increases-step last r.0 (rounds S sk vk pause n (last_after last r.0) r.1 (pause r.2))
        (λ tx e. (anchor_once-head last cache net tx e).newer)
        (rounds-Increases pause n (last_after last r.0) r.1 (pause r.2))
