-- ===== src/AnchorService.antt =====
-- anchor_service/main.py: the anchoring of ledger heads, and the reconciliation of the commit
-- positions with the views.
pub mod Collect
pub mod Reconcile
pub mod Anchoring
