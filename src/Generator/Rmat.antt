-- ===== src/Generator/Rmat.antt =====
-- `RmatGraphGenerator` of generator/graph_generator.hpp.
mod Code
pub mod Draw
pub mod Edge
unfoldable pub use Code.*
