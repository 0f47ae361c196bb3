-- ===== src/Generator/Reverse.antt =====
-- `GraphGeneratorBase::bitreverse`.
mod Code
pub mod Spec
pub mod Bytes
pub mod Correct
unfoldable pub use Code.{bswap64, swap4, swap2, swap1, bitreverse}
