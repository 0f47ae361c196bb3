-- ===== src/Utils.antt =====
-- mpi/utils.hpp: the shares of threads and the numbers of ranks.
pub mod Partition
pub mod Ranks
pub mod Scatter
