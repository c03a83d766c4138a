-- ===== src/V2.antt =====
-- src/v2: the succinct structures of the second format.
pub mod BitVec
