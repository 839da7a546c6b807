-- ===== src/Client/Keys.antt =====
-- The keys of the client on the two write routes.
use compliance_ail.Common.{
  ◌≡◌, refl, false, none, some, ◌++◌, String, Text, Bytes, codes, encode, encode-prefix, is_ascii,
  starts_with,
}
use compliance_ail.Common.Json.{obj, Fields, get, is_text}
use compliance_ail.Client.{record_key}
use compliance_ail.Verifier.Service.{
  Service, key_prefix, refuse_plain, refuse_ordered, fault_record_type,
}

module _ (V : Service) (agent_id nonce : Text) (tool_name : String) (key value : Bytes) where
  -- The client's key of a decision is refused on the plain route for its prefix, and the ordered route
  -- takes it with any JSON object whose record type is not that of a fault.
  pub record_key-refuse_plain :
      encode (record_key (codes "tool_call:") agent_id nonce tool_name) ≡ some key
      → (d : Fields) → V.loads value ≡ some (obj d)
      → is_text (get "record_type" d) (codes fault_record_type) ≡ false
      → (refuse_plain V key value ≡ some (key_prefix "tool_call:"))
        × (refuse_ordered V key value ≡ none)
  unfolding record_key refuse_plain refuse_ordered codes is_ascii starts_with
  record_key-refuse_plain e d reads kind =
      let (rest, same) =
        encode-prefix (codes "tool_call:")
          (agent_id ++ (codes ":" ++ (nonce ++ (codes ":" ++ codes tool_name)))) key refl e in
      rw same (refl, rw (reads, kind) refl)

  -- The client's key of an intent is refused on the plain route for its own prefix, and the ordered
  -- route takes it with any JSON object whose record type is not that of a fault.
  pub record_key-refuse_plain_intent :
      encode (record_key (codes "tool_call_intent:") agent_id nonce tool_name) ≡ some key
      → (d : Fields) → V.loads value ≡ some (obj d)
      → is_text (get "record_type" d) (codes fault_record_type) ≡ false
      → (refuse_plain V key value ≡ some (key_prefix "tool_call_intent:"))
        × (refuse_ordered V key value ≡ none)
  unfolding record_key refuse_plain refuse_ordered codes is_ascii starts_with
  record_key-refuse_plain_intent e d reads kind =
      let (rest, same) =
        encode-prefix (codes "tool_call_intent:")
          (agent_id ++ (codes ":" ++ (nonce ++ (codes ":" ++ codes tool_name)))) key refl e in
      rw same (refl, rw (reads, kind) refl)
