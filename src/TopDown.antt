-- ===== src/TopDown.antt =====
-- The top-down step of mpi/bfs.hpp: the words that carry the edges to their owners, and what the
-- owners do with them.
pub mod Send
pub mod Receive
pub mod Words
pub mod Stream
pub mod Sent
pub mod Packed
pub mod Delivered
pub mod Visits
pub mod Outcome
pub mod Rows
pub mod Cut
pub mod Large
