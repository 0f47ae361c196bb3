-- ===== src/Storage.antt =====
-- The edge list of generator/graph_generator.hpp: its state, its operations, and what a pass that
-- reads and writes at once leaves.
pub mod Code
pub mod Written
pub mod Pass
pub mod Steps
pub mod Unread
pub mod Reads
pub mod Flush
pub mod Redistribute
pub mod Stored
pub mod Begun
pub mod Ending
pub mod Whole
pub mod Generated
pub mod Grow
pub mod Chunks
