-- ===== src/Fiber.antt =====
-- mpi/fiber.hpp: the queues of jobs that the worker threads share.
pub mod Code
pub mod Valid
pub mod Steps
pub mod Count
