-- ===== src/Generator/Range.antt =====
-- A range of edges in a buffer: `generateInitialEdge`, `generateWeight` and `generateRange` of
-- generator/graph_generator.hpp.
pub mod Code
pub mod Written
pub mod Weights
pub mod Whole
