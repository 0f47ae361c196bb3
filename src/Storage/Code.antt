-- ===== src/Storage/Code.antt =====
-- `EdgeListStorage`: its fields, and its operations on them.
use graph.Base.{
  ℕ, zero, suc, ◌+◌, ◌-◌, ◌*◌, ◌/◌, ◌%◌, min, max, Bool, true, false, Option, none, some, List, [],
  ◌++◌, ◌&&◌, ltb, leb, ◌==◌, if◌then◌else◌, Result, returns, throws, out_of_memory, unset_request,
  ◌>>=◌,
}
use graph.Base.Lists.{length}
use graph.Base.Array.{put_at, slice, take, drop}

-- `MPI_File_iread_at` under way: `count` elements of the file from `offset` on, to the place
-- `target` of the read buffer.
pub record Request : Type 0 where
  pub offset : ℕ
  pub target : ℕ
  pub count : ℕ

-- `read_request_`: the constructor leaves it unset, and MPI_Wait leaves MPI_REQUEST_NULL in it.
pub data ReadRequest : Type 0 where
  unset idle : ReadRequest
  pending : Request → ReadRequest

abbrev pub is_set : ReadRequest → Bool
is_set unset = false
is_set idle = true
is_set (pending request) = true

-- A null pointer is `none`. The write buffer is the part of it that is filled; its length is
-- `write_buffer_filled_size_`.
pub record EdgeListStorage (E : Type 0) : Type 0 where
  pub data_in_file : Bool
  pub edge_memory : Option (ℕ → E)
  pub edge_memory_size : ℕ
  pub edge_file : ℕ → E
  pub num_local_edges : ℕ
  pub edge_filled_size : ℕ
  pub max_edge_size : ℕ
  pub read_enabled : Bool
  pub read_block_index : ℕ
  pub read_request : ReadRequest
  pub read_buffer : Option (ℕ → E)
  pub write_enabled : Bool
  pub write_offset : ℕ
  pub write_buffer : List E
  pub write_buffer_size : ℕ

-- `fresh` is what memory holds that is just allocated, and a file that is just made; `realloc_ok`
-- tells whether realloc grants that many elements. The other allocations end the program when
-- they fail.
module _ (CHUNK_SIZE : ℕ) {E : Type 0} (fresh : ℕ → E) (realloc_ok : ℕ → Bool) where
  unfoldable pub new_storage : ℕ → Bool → EdgeListStorage E
  new_storage num_local_edges in_file = record {
    data_in_file = in_file;
    edge_memory = some fresh;
    edge_memory_size = (num_local_edges * 103) / 100 + CHUNK_SIZE;
    edge_file = fresh;
    num_local_edges = num_local_edges;
    edge_filled_size = 0;
    max_edge_size = 0;
    read_enabled = false;
    read_block_index = 0;
    read_request = unset;
    read_buffer = none;
    write_enabled = false;
    write_offset = 0;
    write_buffer = [];
    write_buffer_size = 0;
  }

  -- `getReadBuffer`: the places of the half to read to, and of the half for the user.
  abbrev pub get_read_buffer : ℕ → ℕ × ℕ
  get_read_buffer read_block_index =
      if (read_block_index % 2) == 0 then (0, CHUNK_SIZE) else (CHUNK_SIZE, 0)

  -- The chunk of the file from `read_offset` on.
  abbrev pub chunk_at : ℕ → ℕ → ℕ → Request
  chunk_at edge_filled_size read_block_index read_offset = record {
    offset = read_offset;
    target = (get_read_buffer read_block_index).0;
    count = min (edge_filled_size - read_offset) CHUNK_SIZE;
  }

  -- A request for it, when the file has edges there.
  abbrev pub request_at : ℕ → ℕ → ℕ → ReadRequest → ReadRequest
  request_at edge_filled_size read_block_index read_offset request =
      if ltb read_offset edge_filled_size
      then pending (chunk_at edge_filled_size read_block_index read_offset)
      else request

  -- What is left in memory: a file's edges may be released from it.
  abbrev pub released : Bool → EdgeListStorage E → Option (ℕ → E)
  released release_buffer s = if s.data_in_file && release_buffer then none else s.edge_memory

  -- The first request, when the edges are in the file alone.
  abbrev pub begin_request : Option (ℕ → E) → EdgeListStorage E → EdgeListStorage E
  begin_request (some memory) s = s
  begin_request none s = record s {
    read_buffer = some fresh;
    read_request = request_at s.edge_filled_size 0 0 s.read_request;
  }

  -- `beginRead`, with the number of loops that each process must do.
  unfoldable pub begin_read : Bool → EdgeListStorage E → ℕ × EdgeListStorage E
  begin_read release_buffer s = (
    (s.max_edge_size + CHUNK_SIZE - 1) / CHUNK_SIZE,
    begin_request (released release_buffer s) (record s {
      read_enabled = true;
      read_block_index = 0;
      edge_memory = released release_buffer s;
    }),
  )

  -- The elements of a request come to its place of the buffer.
  abbrev pub arrived : Option (ℕ → E) → Request → (ℕ → E) → Option (ℕ → E)
  arrived none request file = none
  arrived (some buffer) request file =
      some (put_at (slice file request.offset request.count) request.target buffer)

  -- `MPI_Wait(&read_request_)`.
  abbrev pub wait : EdgeListStorage E → ReadRequest → Result (EdgeListStorage E)
  wait s unset = throws unset_request
  wait s idle = returns s
  wait s (pending request) =
      returns
        record s { read_buffer = arrived s.read_buffer request s.edge_file; read_request = idle }

  abbrev pub buffer_of : Option (ℕ → E) → ℕ → E
  buffer_of none = fresh
  buffer_of (some buffer) = buffer

  -- The end of `read` after the wait: the half of the buffer that has arrived, and a request for
  -- the other half.
  abbrev pub read_waited : ℕ → EdgeListStorage E → Result (List E × EdgeListStorage E)
  read_waited filled_count s =
      let index = s.read_block_index + 1 in
      returns (
        slice (buffer_of s.read_buffer) ((get_read_buffer index).1) filled_count,
        record s {
          read_block_index = index;
          read_request = request_at s.edge_filled_size index (index * CHUNK_SIZE) s.read_request;
        },
      )

  -- The end of `read` from memory, or else from the file.
  abbrev pub read_edges :
      Option (ℕ → E) → ℕ → EdgeListStorage E → Result (List E × EdgeListStorage E)
  read_edges (some memory) filled_count s = returns (
    slice memory (s.read_block_index * CHUNK_SIZE) filled_count,
    record s { read_block_index = s.read_block_index + 1 },
  )
  read_edges none filled_count s = wait s s.read_request >>= read_waited filled_count

  -- `read`: the elements that the user gets, as they are when it returns.
  unfoldable pub read : EdgeListStorage E → Result (List E × EdgeListStorage E)
  read s =
      let read_offset = s.read_block_index * CHUNK_SIZE in
      if leb s.edge_filled_size read_offset
      then returns ([], s)
      else read_edges s.edge_memory (min (s.edge_filled_size - read_offset) CHUNK_SIZE) s

  -- The file's part of `writeInternal`, and the new offset.
  abbrev pub write_file : List E → EdgeListStorage E → EdgeListStorage E
  write_file edge_data s = record s {
    edge_file = if s.data_in_file then put_at edge_data s.write_offset s.edge_file else s.edge_file;
    write_offset = s.write_offset + length edge_data;
  }

  -- The memory's part, with its size after the test.
  abbrev pub write_memory : List E → (ℕ → E) → ℕ → EdgeListStorage E → EdgeListStorage E
  write_memory edge_data memory size s = record s {
    edge_memory = some (put_at edge_data s.write_offset memory);
    edge_memory_size = size;
  }

  unfoldable pub write_internal : List E → EdgeListStorage E → Result (EdgeListStorage E)
  write_internal edge_data s =
      let end = s.write_offset + length edge_data in
      (elim s.edge_memory [
        | none ↦ returns (write_file edge_data s)
        | some memory ↦
            if ltb s.edge_memory_size end
            then if realloc_ok end
              then returns (write_file edge_data (write_memory edge_data memory end s))
              else throws out_of_memory
            else returns (write_file edge_data (write_memory edge_data memory s.edge_memory_size s))
      ])

  unfoldable pub reduce_write_buffer : EdgeListStorage E → Result (EdgeListStorage E)
  reduce_write_buffer s =
      let write_count = min (length s.write_buffer) CHUNK_SIZE in
      write_internal (take write_count s.write_buffer) s >>= λ s1.
      returns (record s1 { write_buffer = drop write_count s1.write_buffer })

  -- `while(write_buffer_filled_size_ > 0) reduceWriteBuffer();`
  unfoldable pub reduce_loop : ℕ → EdgeListStorage E → Result (EdgeListStorage E)
  reduce_loop zero s = returns s
  reduce_loop (suc fuel) s =
      if ltb 0 (length s.write_buffer)
      then reduce_write_buffer s >>= reduce_loop fuel
      else returns s

  -- `endRead` after the loop.
  abbrev pub emptied : EdgeListStorage E → Result (EdgeListStorage E)
  emptied s = returns record s {
    write_buffer_size = 0;
    edge_filled_size = if s.write_enabled then s.edge_filled_size else s.write_offset;
    read_enabled = false;
  }

  abbrev pub free_buffer : EdgeListStorage E → Result (EdgeListStorage E)
  free_buffer s = returns (record s { read_buffer = none })

  -- The request that is waited for when the reading stops early, and the buffer that is freed.
  abbrev pub end_request : Option (ℕ → E) → EdgeListStorage E → Result (EdgeListStorage E)
  end_request (some memory) s = returns s
  end_request none s =
      (if ltb (s.read_block_index * CHUNK_SIZE) s.edge_filled_size
        then wait s s.read_request
        else returns s)
      >>= free_buffer

  -- The edges that still wait.
  abbrev pub flush : EdgeListStorage E → Result (EdgeListStorage E)
  flush s =
      if ltb 0 (length s.write_buffer)
      then reduce_loop (length s.write_buffer) s >>= emptied
      else returns (record s { read_enabled = false })

  unfoldable pub end_read : EdgeListStorage E → Result (EdgeListStorage E)
  end_read s = end_request s.edge_memory s >>= flush

  unfoldable pub begin_write : EdgeListStorage E → EdgeListStorage E
  begin_write s = record s { write_enabled = true; write_offset = 0; write_buffer = [] }

  -- `while(needed > write_buffer_size_) write_buffer_size_ = max(4096, write_buffer_size_ * 2);`
  unfoldable pub grow_loop : ℕ → ℕ → ℕ → ℕ
  grow_loop zero needed size = size
  grow_loop (suc fuel) needed size =
      let rest = grow_loop fuel needed (max 4096 (size * 2)) in
      if ltb size needed then rest else size

  -- The end of `write` where the reading has not come by: the edges wait in the buffer.
  abbrev pub buffer_edges : List E → EdgeListStorage E → EdgeListStorage E
  buffer_edges edge_data s =
      let needed = length s.write_buffer + length edge_data in
      record s {
        write_buffer_size = grow_loop needed needed s.write_buffer_size;
        write_buffer = s.write_buffer ++ edge_data;
      }

  abbrev pub buffer_rest : List E → EdgeListStorage E → Result (EdgeListStorage E)
  buffer_rest edge_data s = returns (buffer_edges edge_data s)

  -- What goes to its place at once, and the rest to the buffer.
  unfoldable pub write_behind : List E → EdgeListStorage E → Result (EdgeListStorage E)
  write_behind edge_data s =
      let read_offset = s.read_block_index * CHUNK_SIZE in
      let write_count = read_offset - s.write_offset in
      if leb (s.write_offset + length edge_data) read_offset
      then write_internal edge_data s
      else if leb s.write_offset read_offset
      then write_internal (take write_count edge_data) s
        >>= buffer_rest (drop write_count edge_data)
      else returns (buffer_edges edge_data s)

  unfoldable pub write : List E → EdgeListStorage E → Result (EdgeListStorage E)
  write edge_data s =
      if s.read_enabled
      then (if ltb 0 (length s.write_buffer) then reduce_write_buffer s else returns s)
        >>= write_behind edge_data
      else write_internal edge_data s

  -- `others` is the largest size that another process has written.
  unfoldable pub end_write : ℕ → EdgeListStorage E → EdgeListStorage E
  end_write others s = record s {
    write_enabled = false;
    edge_filled_size = if ltb 0 (length s.write_buffer) then s.edge_filled_size else s.write_offset;
    max_edge_size = max (s.write_offset + length s.write_buffer) others;
  }
