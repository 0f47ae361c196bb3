-- ===== src/Primitives/Index.antt =====
-- The index arrays of mpi/primitives.hpp: what each promises, and `move` over any of them.
pub mod Move
pub mod Rails
