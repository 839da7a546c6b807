-- ===== src/Verifier/Reads.antt =====
-- The read routes of verifier/main.py: POST /verify and the reads that it makes.
pub mod Pinned
pub mod Proved
use compliance_ail.Common.{
  ◌≡◌, ℕ, Bool, true, false, ltb, length, drop, starts_with, ◌-◌, ◌⊎◌, inl, inr, [], Option, none,
  some, if◌then◌else◌, Text, Bytes, codes,
}
use compliance_ail.Verifier.Ledger.{
  FailureKind, corrupted_data, bad_signature, rpc_error, other_error, Failure, Reply, ok, fail,
}
use compliance_ail.Verifier.Anchor.{
  State, Verified, good, broken, Platform, Unverified, RootService, get_anchor, set_anchor, raised,
}
use compliance_ail.Verifier.Answers.{
  AnchorState, Cause, ErrorClass, ReadStatus, SafeGet, Sdk, StateRead, VerifyResponse, anchor,
  anchor_precedes_record, anchor_signature_failure, client, consistency_failure, ends_with, head,
  kind_of, no_state, not_decoded, not_found, ok_read, or_empty, root, signature_failure,
  unavailable, unchecked, unknown,
}

module _ {P : Platform} (K : Sdk P) where
  unfoldable pub refused : ErrorClass → Option Cause → VerifyResponse K.Entry
  refused e c = record {
    verified = false;
    tx_id = none;
    value = none;
    timestamp = none;
    state_id = none;
    error_class = some e;
    cause = c;
    proof_material = none;
    state_read = none;
  }

  rpc_class : Cause → ErrorClass
  rpc_class (client f) =
      if ends_with (K.details f) (codes "key not found") then not_found else unknown
  rpc_class (root (raised f)) =
      if ends_with (K.details f) (codes "key not found") then not_found else unknown
  rpc_class (root _) = unknown
  rpc_class no_state = unknown
  rpc_class not_decoded = unknown

  -- The `except` clauses of the proof, in their order.
  unfoldable pub class_of : Cause → ErrorClass
  unfolding kind_of rpc_class
  class_of c = elim (kind_of c) [
    | corrupted_data ↦ consistency_failure
    | bad_signature ↦ signature_failure
    | rpc_error ↦ rpc_class c
    | other_error ↦ unknown
  ]

  failed : Cause → VerifyResponse K.Entry
  unfolding refused class_of
  failed c = refused (class_of c) (some c)

  -- The state that `head_state` returns, with whether it was checked, or what it raises.
  checked_head : Option P.Key → State → Reply (State × Bool)
  checked_head none s = ok (s, false)
  checked_head (some k) s = elim (P.verify k s) [
    | good ↦ ok (s, true)
    | Verified.bad_signature ↦ fail (record { kind = bad_signature; text = codes "" })
    | broken f ↦ fail f
  ]

  head_reply : RootService P → Reply State × P.Server → Reply (State × Bool) × RootService P
  unfolding checked_head
  head_reply r (fail f, v) = (fail f, record r { server = v })
  head_reply r (ok s, v) = (checked_head K.client_key s, record r { server = v })

  unfoldable pub head_state : RootService P → Reply (State × Bool) × RootService P
  unfolding head_reply
  head_state r = head_reply r (P.current_state r.server)

  -- What `_rs.get()` returns or raises.
  anchor_reply : Option Unverified → Option State → Cause ⊎ State
  anchor_reply (some e) c = inl (root e)
  anchor_reply none none = inl no_state
  anchor_reply none (some s) = inr s

  unfoldable pub held : RootService P → (Cause ⊎ State) × RootService P
  unfolding anchor_reply
  held r = let got = get_anchor P r in (anchor_reply got.0 got.1.cache, got.1)

  read_head : Reply (State × Bool) → Option ℕ × StateRead
  read_head (fail f) = (none, record { source = head; status = unavailable (client f) })
  read_head (ok (s, true)) = (some s.tx_id, record { source = head; status = ok_read })
  read_head (ok (s, false)) = (some s.tx_id, record { source = head; status = unchecked })

  keyed_status : Option P.Key → ReadStatus
  keyed_status none = unchecked
  keyed_status (some k) = ok_read

  read_anchor : Cause ⊎ State → Option ℕ × StateRead
  unfolding keyed_status
  read_anchor (inl c) = (none, record { source = anchor; status = unavailable c })
  read_anchor (inr s) =
      (some s.tx_id, record { source = anchor; status = keyed_status K.client_key })

  -- `_state_read`
  unfoldable pub state_read :
      Option AnchorState → RootService P → (Option ℕ × StateRead) × RootService P
  unfolding read_head read_anchor
  state_read none r = let got = head_state r in (read_head got.0, got.1)
  state_read (some a) r = let got = held r in (read_anchor got.0, got.1)

  reported :
      State → K.Entry → SafeGet → Option ℕ × StateRead → Option Failure → VerifyResponse K.Entry
  reported source entry resp (id, read) none = record {
    verified = true;
    tx_id = some resp.tx_id;
    value = some resp.value;
    timestamp = some resp.timestamp;
    state_id = id;
    error_class = none;
    cause = none;
    proof_material = some (record {
      source_state = source;
      verifiable_entry = entry;
      prove_since_tx = source.tx_id;
      entry_tx_id = resp.tx_id;
    });
    state_read = some read;
  }
  reported source entry resp (id, read) (some f) = record {
    verified = true;
    tx_id = some resp.tx_id;
    value = none;
    timestamp = none;
    state_id = id;
    error_class = none;
    cause = some (client f);
    proof_material = none;
    state_read = some read;
  }

  -- After the proof: the state read, and the response around it.
  report :
      Option AnchorState
      → State
      → K.Entry
      → SafeGet
      → RootService P
      → VerifyResponse K.Entry × RootService P
  unfolding reported state_read
  report a source entry resp r =
      let got = state_read a r in
      (reported source entry resp got.0 (K.unreported source entry resp), got.1)

  -- `root_service.set`, of the service that was proved with.
  settle : Option AnchorState → State → RootService P → Option Unverified × RootService P
  settle none s r = set_anchor P r s
  settle (some a) s r = (none, r)

  precedes : Option AnchorState → SafeGet → State → Bool
  precedes none resp source = false
  precedes (some a) resp source = ltb source.tx_id resp.tx_id

  settled :
      Option AnchorState
      → State
      → K.Entry
      → SafeGet
      → Option Unverified × RootService P
      → VerifyResponse K.Entry × RootService P
  unfolding failed refused precedes report
  settled a source entry resp (some e, r) = (failed (root e), r)
  settled a source entry resp (none, r) =
      if precedes a resp source
      then (refused anchor_precedes_record none, r)
      else report a source entry resp r

  proved :
      Option AnchorState
      → State
      → K.Entry
      → Reply (SafeGet × State)
      → RootService P
      → VerifyResponse K.Entry × RootService P
  unfolding settled settle
  proved a source entry (fail f) r = (failed (client f), r)
  proved a source entry (ok (resp, new)) r = settled a source entry resp (settle a new r)

  fetched :
      Option AnchorState
      → State
      → Bytes
      → RootService P
      → Reply K.Entry × P.Server
      → VerifyResponse K.Entry × RootService P
  unfolding proved
  fetched a source key r (fail f, v) = (failed (client f), record r { server = v })
  fetched a source key r (ok entry, v) =
      proved a source entry (K.check entry source key K.client_key) (record r { server = v })

  prove :
      Option AnchorState → State → Bytes → RootService P → VerifyResponse K.Entry × RootService P
  unfolding fetched
  prove a source key r = fetched a source key r (K.verifiable_get r.server key source.tx_id)

  from_held : Bytes → (Cause ⊎ State) × RootService P → VerifyResponse K.Entry × RootService P
  unfolding prove
  from_held key (inl c, r) = (failed c, r)
  from_held key (inr source, r) = prove none source key r

  -- `State(...)` of a supplied anchor.
  unfoldable pub state_of : AnchorState → Option State
  unfolding or_empty
  state_of a = elim (K.b64decode a.tx_hash) [
    | none ↦ none
    | some hash ↦ elim (K.b64decode (or_empty a.signature)) [
      | none ↦ none
      | some signature ↦
          some (record { db = a.db; tx_id = a.tx_id; tx_hash = hash; signature = signature })
    ]
  ]

  is_good : Verified → Bool
  is_good good = true
  is_good Verified.bad_signature = false
  is_good (broken f) = false

  -- An anchor is used only where it is signed by the key of the client.
  is_signed : Option P.Key → State → Bool
  unfolding is_good
  is_signed none s = false
  is_signed (some k) s = is_good (P.verify k s)

  from_anchor :
      Bytes → AnchorState → Option State → RootService P → VerifyResponse K.Entry × RootService P
  unfolding is_signed
  from_anchor key a none r = (failed not_decoded, r)
  from_anchor key a (some source) r =
      if is_signed K.client_key source
      then prove (some a) source key r
      else (refused anchor_signature_failure none, r)

  connected :
      Bytes
      → Option AnchorState
      → Reply (Unit {0}) × RootService P
      → VerifyResponse K.Entry × RootService P
  unfolding from_held from_anchor held
  connected key a (fail f, r) = (failed (client f), r)
  connected key none (ok tt, r) = from_held key (held r)
  connected key (some a) (ok tt, r) = from_anchor key a (state_of a) r

  -- `verify`, of the decoded key.
  unfoldable pub verify :
      Bytes → Option AnchorState → RootService P → VerifyResponse K.Entry × RootService P
  unfolding connected
  verify key a r = connected key a (K.connect r)
