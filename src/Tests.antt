-- ===== src/Tests.antt =====
-- Runs at concrete inputs, and the theorems at inputs where their hypotheses hold.
mod OneShot
mod Samples
mod Writes
mod Records
mod Decisions
mod Anchors
mod Posts
mod Shims
mod Pages
mod Passes
mod Contents
mod Heads
mod Checkpoints
