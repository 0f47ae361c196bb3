-- ===== src/Primitives.antt =====
-- mpi/primitives.hpp: the edge types and the index arrays.
mod Edges
pub mod Packing
pub mod Index
unfoldable pub use Edges.*
