-- ===== src/ModArith.antt =====
-- Arithmetic modulo 2^31 - 1: generator/mod_arith.h and the headers it chooses from.
-- `ModArith` is what the random number generator relies on; each header is one value of it.
mod Spec
pub mod Wide
pub mod Narrow
pub use Spec.*
