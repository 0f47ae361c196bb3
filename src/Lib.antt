-- ===== src/Lib.antt =====
-- A model of the Graph500 benchmark of this repository, with the theorems that make its parts
-- correct.
--
-- The program. `mpi/main.cc` builds a random graph and times breadth-first searches on it. The
-- edges come from a splittable random number generator (generator/splittable_mrg.c) over
-- arithmetic modulo 2^31 - 1 (generator/mod_arith_64bit.h and generator/mod_arith_32bit.h, chosen
-- by generator/mod_arith.h). generator/graph_generator.hpp draws each edge from its own part of
-- the random sequence, so that any rank can make any range of edges, and renames the vertices by
-- a scrambling that depends on two values of the same sequence. mpi/primitives.hpp packs the
-- edges. The searches (mpi/bfs.hpp) work on a graph that mpi/graph_constructor.hpp distributes,
-- and mpi/validate.hpp checks their result.
--
-- How the code is modelled. Numbers are natural numbers; `u8` to `u64` of Base/Word write the
-- wrap-around out where the source's type has it, and subtraction stands only where the source's
-- own guard keeps it from wrapping. `uint_fast32_t` is read at 32 bits. An assertion is a
-- hypothesis of the theorems that need it. State is passed explicitly, a failing lookup or a loop
-- that its fuel may not finish returns an option, and loops of OpenMP run in the order of their
-- index, since their iterations write different places.
--
-- The files.
--   Base: tests, lists, machine words, integers, bitwise operations and residues that the
--     components share.
--   ModArith: the nine operations that every mod_arith header declares, as a record with what they
--     promise. ModArith/Wide is generator/mod_arith_64bit.h, ModArith/Narrow is
--     generator/mod_arith_32bit.h.
--   Mrg: generator/splittable_mrg.c over that record. Mrg/Defs holds the code; the specification is
--     the sequence of the recurrence (Mrg/Sequence), on which a matrix is a polynomial in the
--     shift. The table of generator/mrg_transitions.c is a parameter; dump_mrg_powers, which prints
--     that file, is modelled, and rows of the file are tested against it. `power_loop` has fuel
--     equal to the exponent, which it halves, and `skip_loop` 8 rounds, one for each byte of a
--     64-bit word.
--   Generator: generator/graph_generator.hpp. Generator/Defs holds the generator object, the seeds
--     and the scrambling, Generator/Reverse the reversal of 64 bits, Generator/Rmat one edge, and
--     Generator/Range generateRange into a buffer, a function from its slots. The draws of
--     generate_4way_bernoulli repeat while the output is below a limit; they have fuel, and that it
--     is enough is a hypothesis on the random sequence.
--   Primitives: mpi/primitives.hpp, the edge types and, in Primitives/Index, the index arrays over
--     one interface. The loops of `move` count in an `int`: its theorems are for sizes that fit
--     one.
--   Storage: EdgeListStorage of generator/graph_generator.hpp, in Storage/Code, and its use by
--     mpi/benchmark_helper.hpp, in Storage/Redistribute and Storage/Chunks. Memory and the file are
--     functions of the index; a read of the file takes its elements when it is waited for, and a
--     wait for a request that was never made is an exception of the model. The edges that a round
--     receives are a parameter, and so is what realloc grants. The loop of endRead has a round of
--     fuel for each waiting edge, and the loop that doubles the buffer one for each edge it must
--     hold.
--   TopDown: the top-down step of mpi/bfs.hpp. TopDown/Send fills the packets of a thread and
--     TopDown/Receive reads the words back; an atomic operation is one step with the test before
--     it, so the order of the edges stands for that of the threads. The bitmap of the visited
--     vertices is a function to its bits. The loop over a stream has its words as fuel, and the
--     binary search of TopDown/Cut the width of its range.
--   Comm: AsyncAlltoallManager of mpi/abstract_comm.hpp. Comm/Buffers is `put` over the pool of
--     mpi/bfs.hpp, one put after the other; Comm/Pointers is the loop of run_with_ptr on all ranks,
--     which go on while one of them has data; it has a round of fuel for each target that is left.
--   Vertices: the owners and identifiers of vertices, mpi/graph_constructor.hpp, and `SeparatedId`
--     of mpi/utils_core.h.
--   Validate: mpi/validate.hpp. Validate/Entry is the word of a vertex, Validate/Code the checks
--     and `validate` over all ranks at once, Validate/Spec what a valid result is;
--     Validate/Distance and Validate/Sound hold the proofs. The reductions add the low 32 bits of
--     the 64-bit counters, on ranks that store the low half first; Validate/Counts bounds what the
--     checks can count. A rank that returns from a collective computation early leaves the others
--     waiting, which the model has as the outcome `stuck`. A chunked loop has a round of fuel for
--     each index, enough since a chunk is not empty. What a gather or scatter delivers is read
--     directly from its owner.
--   Fiber: mpi/fiber.hpp. Fiber/Code holds the operations of FiberManager, each one step under its
--     lock; Fiber/Steps is the relation of the states that threads reach in any order. A job is a
--     number; the loop of pop_command runs over the priorities.
--   Utils: get_partition and compute_rank_2d of mpi/utils.hpp, and, in Utils/Scatter,
--     ScatterContext with the loops of MpiCol::scatter; what the exchanges bring are parameters.
--   Tests: the theorems at concrete inputs.
--
-- Not modelled: the bottom-up search and the loop over the levels, the construction of the
-- distributed graph, the calls of MPI and of the vendor's network, the GPU code, the driver, its
-- statistics and its logs.
pub mod Base
pub mod ModArith
pub mod Mrg
pub mod Generator
pub mod Primitives
pub mod Comm
pub mod Fiber
pub mod Storage
pub mod TopDown
pub mod Utils
pub mod Validate
pub mod Vertices
pub mod Tests
