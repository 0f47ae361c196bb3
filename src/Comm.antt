-- ===== src/Comm.antt =====
-- AsyncAlltoallManager of mpi/abstract_comm.hpp: the buffers and the pointers that a rank collects
-- for each other rank, and what it sends of them in each round.
pub mod Buffers
pub mod Puts
pub mod Pointers
pub mod Blocks
pub mod Carried
pub mod Progress
pub mod Rounds
