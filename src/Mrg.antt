-- ===== src/Mrg.antt =====
-- generator/splittable_mrg.h and generator/splittable_mrg.c: the splittable multiple recursive
-- random number generator, over the operations of generator/mod_arith.h.
mod Defs
pub mod Sequence
pub mod Valid
pub mod Apply
pub mod Advance
pub mod Matrix
pub mod Power
pub mod Skip
unfoldable pub use Defs.*
