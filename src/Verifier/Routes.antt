-- ===== src/Verifier/Routes.antt =====
-- `POST /write` and `POST /write-ordered` of verifier/main.py, behind the write key. The texts of
-- `detail` are data: a constructor for each, with what the source formats into it.
pub mod Shapes
pub mod Ordered
pub mod Plain
