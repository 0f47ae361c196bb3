-- ===== src/Validate.antt =====
-- mpi/validate.hpp: the check of a search's predecessors and depths.
pub mod Entry
pub mod Loops
pub mod Run
pub mod Code
pub mod Spec
pub mod Distance
pub mod Counts
pub mod Placed
pub mod Accepted
pub mod Sound
