-- ===== src/AnchorService/Anchoring.antt =====
-- `anchor_once`, `_sigstore_config` and the loop of `run_forever` of anchor_service/main.py, with
-- provenance/anchor.py and the request of provenance/rekor.py. The choice of a log from its
-- configuration (`discover_log_url`), the HTTP calls and the clock are the parameter `Services`.
pub mod Newer
use compliance_ail.Common.{
  ℕ, zero, suc, Bool, true, false, not, Option, none, some, List, [], ◌∷◌, Text, Bytes, codes, ℤ,
  int_le, if◌then◌else◌,
}
use compliance_ail.Common.Json.{Json, num, str, obj, Fields, end, field, get}
use compliance_ail.Provenance.{Crypto, key_fingerprint}

pub record Services (C : Crypto) : Type 1 where
  pub Net : Type 0
  pub Time : Type 0
  -- The pair of a trusted root and a signing configuration.
  pub SigstoreConfig : Type 0
  -- `int(...)` and `str(entry.get("logIndex"))`
  pub int_of : Json → Option ℤ
  pub text_of : Option Json → Text
  pub sha256 : Bytes → Bytes
  -- `(now - fetched_at) < CONFIG_TTL_SECONDS`, of now and of the time of the fetch
  pub is_fresh : Time → Time → Bool
  pub monotonic : Net → Time × Net
  -- What may raise returns an option. GET /state of the verifier:
  pub fetch_state : Net → Option Fields × Net
  pub fetch_sigstore_config : Net → Option SigstoreConfig × Net
  -- A log that is in force at the time of the call:
  pub discover_log_url : Net → SigstoreConfig → Option (Text × Text)
  -- The entry that the log at this URL answers to a request.
  pub submit : Net → Text → Fields → Option Fields × Net
  -- POST /anchors of the control plane, and the JSON of its answer
  pub record_anchor : Net → Fields → Fields → Option Json × Net

-- `ANCHOR_PAYLOAD_FORMAT` and `KEY_DETAILS_P256`
abbrev pub anchor_payload_format : Text
anchor_payload_format = codes "ail-immudb-state-anchor/1"

abbrev pub key_details_p256 : Text
key_details_p256 = codes "PKIX_ECDSA_P256_SHA_256"

-- The fields of a state that are anchored.
pub record Checkpoint : Type 0 where
  pub db : Json
  pub tx_id : ℤ
  pub tx_hash : Json
  pub signature : Json

unfoldable pub checkpoint_fields : Checkpoint → Fields
checkpoint_fields c =
    field "db" c.db
      (field "tx_id" (num c.tx_id) (field "tx_hash" c.tx_hash (field "signature" c.signature end)))

unfoldable pub payload_fields : Checkpoint → Fields
payload_fields c = field "anchor_payload_format" (str anchor_payload_format) (
    field "db" c.db
      (field "tx_id" (num c.tx_id) (field "tx_hash" c.tx_hash (field "signature" c.signature end))))

-- The state's parts, where none of them is missing.
unfoldable pub checkpoint_of : ℤ → Option Json → Option Json → Option Json → Option Checkpoint
checkpoint_of tx (some db) (some hash) (some sig) =
    some (record { db = db; tx_id = tx; tx_hash = hash; signature = sig })
checkpoint_of tx none hash sig = none
checkpoint_of tx (some db) none sig = none
checkpoint_of tx (some db) (some hash) none = none

-- How a call of `anchor_once` ends.
pub data Anchored : Type 0 where
  raised nothing_new : Anchored
  anchored : ℤ → Anchored

-- `last_anchored_tx is not None and tx_id <= last_anchored_tx`
unfoldable pub is_old : Option ℤ → ℤ → Bool
is_old none tx = false
is_old (some last) tx = int_le tx last

-- `last_anchored_tx` after a round of the loop.
unfoldable pub last_after : Option ℤ → Anchored → Option ℤ
last_after last raised = last
last_after last nothing_new = last
last_after last (anchored tx) = some tx

module _ {C : Crypto} (S : Services C) (signing_key : C.SigningKey)
    (verifying_key : C.VerifyingKey) where
  -- `canonical_anchor_bytes`
  unfoldable pub canonical_anchor_bytes : Checkpoint → Bytes
  unfolding payload_fields
  canonical_anchor_bytes c = C.dumps_sorted (payload_fields c)

  -- `build_hashedrekord_request`
  unfoldable pub hashedrekord_request : Bytes → Bytes → Bytes → Fields
  hashedrekord_request digest signature der =
      field "hashedRekordRequestV002"
        (obj (
          field "digest" (str (C.b64encode digest)) (
            field "signature"
              (obj (
                field "content" (str (C.b64encode signature)) (
                  field "verifier"
                    (obj (
                      field "publicKey" (obj (field "rawBytes" (str (C.b64encode der)) end))
                        (field "keyDetails" (str key_details_p256) end)))
                    end)))
              end)))
        end

  -- The request for a checkpoint: the digest of its bytes, and their signature.
  unfoldable pub request_of : Checkpoint → Fields
  unfolding canonical_anchor_bytes hashedrekord_request
  request_of c =
      let payload = canonical_anchor_bytes c in
      hashedrekord_request (S.sha256 payload) (C.sign_deterministic signing_key payload)
        (C.to_der verifying_key)

  unfoldable pub external_fields : Text × Text → Fields → Fields
  external_fields (log_url, source) entry = field "log_url" (str log_url) (
      field "log_url_source" (str source) (
        field "log_index" (str (S.text_of (get "logIndex" entry))) (
          field "anchor_key_fingerprint" (str (key_fingerprint C verifying_key)) (
            field "anchor_payload_format" (str anchor_payload_format)
              (field "transparency_log_entry" (obj entry) end)))))

  -- `_config_cache`
  abbrev pub ConfigCache : Type 0
  ConfigCache = Option (S.Time × S.SigstoreConfig)

  refreshed :
      S.Time
      → ConfigCache
      → Option S.SigstoreConfig × S.Net
      → Option S.SigstoreConfig × ConfigCache × S.Net
  refreshed now cache (none, net) = (none, cache, net)
  refreshed now cache (some config, net) = (some config, some (now, config), net)

  -- `_sigstore_config`
  unfoldable pub sigstore_config :
      S.Time → ConfigCache → S.Net → Option S.SigstoreConfig × ConfigCache × S.Net
  unfolding refreshed
  sigstore_config now none net = refreshed now none (S.fetch_sigstore_config net)
  sigstore_config now (some (fetched_at, config)) net =
      let later = refreshed now (some (fetched_at, config)) (S.fetch_sigstore_config net) in
      if S.is_fresh now fetched_at then (some config, some (fetched_at, config), net) else later

  -- Any answer of the control plane will do: what it says in `recorded` is only logged.
  recorded_at : ℤ → ConfigCache → Option Json × S.Net → Anchored × ConfigCache × S.Net
  recorded_at tx cache (none, net) = (raised, cache, net)
  recorded_at tx cache (some answer, net) = (anchored tx, cache, net)

  submitted :
      Checkpoint
      → Text × Text
      → ConfigCache
      → Option Fields × S.Net
      → Anchored × ConfigCache × S.Net
  unfolding recorded_at checkpoint_fields external_fields
  submitted c log cache (none, net) = (raised, cache, net)
  submitted c log cache (some entry, net) =
      recorded_at c.tx_id cache
        (S.record_anchor net (checkpoint_fields c) (external_fields log entry))

  in_log : Checkpoint → Option (Text × Text) → ConfigCache → S.Net → Anchored × ConfigCache × S.Net
  unfolding submitted request_of
  in_log c none cache net = (raised, cache, net)
  in_log c (some (url, source)) cache net =
      submitted c (url, source) cache (S.submit net url (request_of c))

  configured :
      Checkpoint → Option S.SigstoreConfig × ConfigCache × S.Net → Anchored × ConfigCache × S.Net
  unfolding in_log
  configured c (none, cache, net) = (raised, cache, net)
  configured c (some config, cache, net) = in_log c (S.discover_log_url net config) cache net

  with_checkpoint : Option Checkpoint → ConfigCache → S.Net → Anchored × ConfigCache × S.Net
  unfolding configured sigstore_config
  with_checkpoint none cache net = (raised, cache, net)
  with_checkpoint (some c) cache net =
      configured c (sigstore_config (S.monotonic net).0 cache (S.monotonic net).1)

  with_transaction :
      Option ℤ → Fields → Option ℤ → ConfigCache → S.Net → Anchored × ConfigCache × S.Net
  unfolding with_checkpoint checkpoint_of is_old
  with_transaction last state none cache net = (raised, cache, net)
  with_transaction last state (some tx) cache net =
      let later =
        with_checkpoint
          (checkpoint_of tx (get "db" state) (get "tx_hash" state) (get "signature" state)) cache
          net in
      if is_old last tx then (nothing_new, cache, net) else later

  unfoldable pub tx_of : Option Json → Option ℤ
  tx_of none = none
  tx_of (some j) = S.int_of j

  with_state : Option ℤ → ConfigCache → Option Fields × S.Net → Anchored × ConfigCache × S.Net
  unfolding with_transaction tx_of
  with_state last cache (none, net) = (raised, cache, net)
  with_state last cache (some state, net) =
      with_transaction last state (tx_of (get "tx_id" state)) cache net

  -- `anchor_once`
  unfoldable pub anchor_once : Option ℤ → ConfigCache → S.Net → Anchored × ConfigCache × S.Net
  unfolding with_state
  anchor_once last cache net = with_state last cache (S.fetch_state net)

  -- The rounds of `run_forever`, this many of them, each with what its call of `anchor_once` did, and
  -- what the reconciliation and the sleep do to the rest of the world.
  unfoldable pub rounds : (S.Net → S.Net) → ℕ → Option ℤ → ConfigCache → S.Net → List Anchored
  unfolding anchor_once last_after
  rounds pause zero last cache net = []
  rounds pause (suc n) last cache net =
      let r = anchor_once last cache net in
      r.0 ∷ rounds pause n (last_after last r.0) r.1 (pause r.2)
