-- ===== src/Generator.antt =====
-- generator/graph_generator.hpp.
mod Defs
pub mod Reverse
pub mod Seed
pub mod Scramble
pub mod Rmat
pub mod Range
unfoldable pub use Defs.*
