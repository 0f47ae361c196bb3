-- ===== src/Utils/Scatter.antt =====
-- `ScatterContext` of mpi/utils.hpp: how the items of all threads are sorted by their destinations
-- and exchanged.
pub mod Code
pub mod Sums
pub mod Place
pub mod Whole
pub mod Exchange
