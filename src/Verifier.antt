-- ===== src/Verifier.antt =====
-- verifier/main.py: the service that writes to the ledger and reads proofs from it.
pub mod Anchor
pub mod Answers
pub mod Ledger
pub mod Reads
pub mod Reserve
pub mod Sequence
pub mod Service
pub mod Fault
pub mod Routes
