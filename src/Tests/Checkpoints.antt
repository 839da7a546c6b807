-- ===== src/Tests/Checkpoints.antt =====
-- A table with one anchored checkpoint, at transaction 5.
use compliance_ail.Common.{◌≡◌, true, some, [], ◌∷◌, ℤ, pos}
use compliance_ail.Common.Json.{end}
use compliance_ail.ControlPlane.Anchors.{StateAnchor, find_anchor, recorded, record_anchor}
use compliance_ail.ControlPlane.Anchors.Standing.{Stands, record_anchor-Stands}

abbrev anchor_at : ℤ → StateAnchor
anchor_at tx = record {
  checkpoint_tx_id = tx;
  checkpoint_db = b'd' ∷ [];
  checkpoint_tx_hash = [];
  checkpoint_signature = [];
  log_url = [];
  log_url_source = [];
  log_index = [];
  anchor_key_fingerprint = [];
  anchor_payload_format = [];
  entry = end;
}

record_anchor-Stands_example :
    Stands
      (anchor_at (pos 5) ∷ [])
      (record_anchor (anchor_at (pos 9)) (anchor_at (pos 5) ∷ []) true).1
    × (((record_anchor (anchor_at (pos 9)) (anchor_at (pos 5) ∷ []) true).0 ≡ recorded)
        → find_anchor (pos 9) (record_anchor (anchor_at (pos 9)) (anchor_at (pos 5) ∷ []) true).1
          ≡ some (anchor_at (pos 9)))
record_anchor-Stands_example =
    record_anchor-Stands (anchor_at (pos 9)) (anchor_at (pos 5) ∷ []) true
