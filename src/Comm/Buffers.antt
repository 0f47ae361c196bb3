-- ===== src/Comm/Buffers.antt =====
-- `put` of AsyncAlltoallManager over the buffers of CommBufferPool of mpi/bfs.hpp. A thread that
-- puts words is not interrupted by another one for the same destination: the reservation of the
-- code makes the others wait.
use graph.Base.{
  ℕ, ◌+◌, Option, none, some, List, [], ◌∷◌, ◌++◌, leb, ltb, ◌==◌, if◌then◌else◌, Result, returns,
  throws, buffer_size_not_enough, ◌>>=◌,
}
use graph.Base.Lists.{length}
use graph.Base.Array.{at}

-- The current buffer with the words in it, which `filled_size` counts, and those that are full.
pub record CommTarget : Type 0 where
  pub filled_size : ℕ
  pub cur_buf : Option (List ℕ)
  pub send_data : List (List ℕ)

pub record AlltoallManager : Type 0 where
  pub nodes : ℕ → CommTarget
  pub current_index : ℕ

module _ (buffer_size num_buffers : ℕ) where
  -- All counts say that the buffer is full, so the first `put` takes one.
  unfoldable pub prepare : AlltoallManager → AlltoallManager
  prepare m = record m { nodes = λ i. record (m.nodes i) { filled_size = buffer_size } }

  unfoldable pub get_next : AlltoallManager → Result AlltoallManager
  get_next m =
      if leb num_buffers m.current_index
      then throws buffer_size_not_enough
      else returns (record m { current_index = m.current_index + 1 })

  -- The current buffer, if there is one, goes to the full ones.
  abbrev pub flushed : Option (List ℕ) → List (List ℕ) → List (List ℕ)
  flushed none send_data = send_data
  flushed (some buffer) send_data = send_data ++ (buffer ∷ [])

  unfoldable pub flush : CommTarget → CommTarget
  flush node = record node { send_data = flushed node.cur_buf node.send_data; cur_buf = none }

  -- The words behind those of the current buffer.
  abbrev pub added : Option (List ℕ) → List ℕ → Option (List ℕ)
  added none words = none
  added (some buffer) words = some (buffer ++ words)

  unfoldable pub add_words : List ℕ → ℕ → AlltoallManager → AlltoallManager
  add_words words target m =
      let node = m.nodes target in
      record m {
        nodes =
            at target
              (record node {
                cur_buf = added node.cur_buf words;
                filled_size = node.filled_size + length words;
              })
              m.nodes;
      }

  -- The words into a new buffer.
  unfoldable pub swap_buffer : List ℕ → ℕ → AlltoallManager → Result AlltoallManager
  swap_buffer words target m = returns (record m {
    nodes =
        at target
          (record (flush (m.nodes target)) { cur_buf = some words; filled_size = length words })
          m.nodes;
  })

  unfoldable pub put : List ℕ → ℕ → AlltoallManager → Result AlltoallManager
  put words target m =
      if length words == 0
      then returns m
      else if ltb buffer_size ((m.nodes target).filled_size + length words)
      then get_next m >>= swap_buffer words target
      else returns (add_words words target m)

  -- Several puts, each of words for a destination.
  unfoldable pub put_all : List (List ℕ × ℕ) → AlltoallManager → Result AlltoallManager
  put_all [] m = returns m
  put_all (p ∷ puts) m = put p.0 p.1 m >>= put_all puts
