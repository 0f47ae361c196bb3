-- ===== src/Vertices.antt =====
-- The identifiers of vertices: mpi/graph_constructor.hpp and `SeparatedId` of mpi/utils_core.h.
pub mod Separated
pub mod Grid
pub mod Maps
pub mod Swizzle
