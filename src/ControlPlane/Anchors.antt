-- ===== src/ControlPlane/Anchors.antt =====
-- The anchored checkpoints in control_plane/main.py: POST /anchors. The session's commit
-- is a Boolean, which says whether it returned; the latest anchor is a query of the database.
pub mod Standing
use compliance_ail.Common.{
  Bool, true, false, Option, none, some, List, [], ◌∷◌, ◌++◌, Text, ℤ, int_eq, if◌then◌else◌,
}
use compliance_ail.Common.Json.{Fields}

-- A row of the table of anchors.
pub record StateAnchor : Type 0 where
  pub checkpoint_tx_id : ℤ
  pub checkpoint_db : Text
  pub checkpoint_tx_hash : Text
  pub checkpoint_signature : Text
  pub log_url : Text
  pub log_url_source : Text
  pub log_index : Text
  pub anchor_key_fingerprint : Text
  pub anchor_payload_format : Text
  pub entry : Fields

-- `filter_by(checkpoint_tx_id=tx_id).first()`
unfoldable pub find_anchor : ℤ → List StateAnchor → Option StateAnchor
find_anchor tx [] = none
find_anchor tx (a ∷ rest) = if int_eq a.checkpoint_tx_id tx then some a else find_anchor tx rest

pub data Answer : Type 0 where
  already_recorded recorded crashed : Answer

add_anchor : StateAnchor → List StateAnchor → Bool → Answer × List StateAnchor
add_anchor a rows false = (crashed, rows)
add_anchor a rows true = (recorded, rows ++ a ∷ [])

unless_found :
    Option StateAnchor → StateAnchor → List StateAnchor → Bool → Answer × List StateAnchor
unfolding add_anchor
unless_found (some existing) a rows commits = (already_recorded, rows)
unless_found none a rows commits = add_anchor a rows commits

-- `record_anchor`
unfoldable pub record_anchor : StateAnchor → List StateAnchor → Bool → Answer × List StateAnchor
unfolding unless_found
record_anchor a rows commits = unless_found (find_anchor a.checkpoint_tx_id rows) a rows commits
