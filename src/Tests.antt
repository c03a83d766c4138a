-- ===== src/Tests.antt =====
-- The theorems at concrete inputs: a writer that holds three bits, and short buffers.
pub mod Streams
pub mod Buffers
pub mod BitVecs
pub mod Encoders
pub mod Builds
pub mod Dicts
pub mod Tries
pub mod Lookups
pub mod Iters
pub mod Values
pub mod Data
