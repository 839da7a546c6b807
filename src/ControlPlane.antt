-- ===== src/ControlPlane.antt =====
-- control_plane/main.py: the paged audit view, its order check and its fault records.
pub mod Faults
pub mod Order
pub mod Window
pub mod Content
pub mod Anchors
