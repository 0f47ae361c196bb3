-- ===== src/Storage/Whole.antt =====
-- A whole pass: every edge is sent once, in chunks, and what is received is the new edge list.
use mathlib.Core.Path.{subst}
use mathlib.Core.List.{append_assoc, append-nil}
use graph.Base.{
  ℕ, zero, suc, ◌+◌, ◌*◌, ◌≤◌, ◌≡◌, refl, sym, ap, ◌∙◌, Bool, true, List, [], ◌++◌, returns, ◌>>=◌,
}
use graph.Base.Lists.{length}
use graph.Base.Array.{take, drop}
use graph.Storage.Code.{EdgeListStorage, begin_read, begin_write, write}
use graph.Storage.Pass.{InPass}
use graph.Storage.Steps.{write-InPass}
use graph.Storage.Reads.{read-IsNext}
use graph.Storage.Redistribute.{send_round, redistribute_loop, finish, redistribute_edge_2d}
use graph.Storage.Stored.{IsStored, IsReadable, exchanged}
use graph.Storage.Begun.{begin_read-InPass, begin_read-enough}
use graph.Storage.Ending.{finish-IsStored}

module _ (CHUNK_SIZE : ℕ) {E : Type 0} (fresh : ℕ → E) (realloc_ok : ℕ → Bool)
    (granted : (n : ℕ) → realloc_ok n ≡ true) (exchange : ℕ → List E → List E) where
  redistribute_loop-InPass :
      (loop_count rounds : ℕ) (s : EdgeListStorage E) (rest acc : List E)
      → InPass CHUNK_SIZE fresh realloc_ok s rest acc
      → (now : EdgeListStorage E) × (redistribute_loop CHUNK_SIZE fresh realloc_ok exchange
            loop_count rounds s
          ≡ returns now)
        × ((left : List E) × InPass CHUNK_SIZE fresh realloc_ok now left
              (acc ++ exchanged CHUNK_SIZE exchange loop_count rounds rest))
  unfolding redistribute_loop exchanged
  redistribute_loop-InPass loop_count zero s rest acc pass = (
    s,
    refl,
    (rest, subst (InPass CHUNK_SIZE fresh realloc_ok s rest) (sym (append-nil acc)) pass),
  )
  redistribute_loop-InPass loop_count (suc rounds) s rest acc pass =
      let next = read-IsNext CHUNK_SIZE fresh realloc_ok s rest acc pass in
      let r = next.0 in
      let received = exchange loop_count (take CHUNK_SIZE rest) in
      let w =
        write-InPass CHUNK_SIZE fresh realloc_ok granted r.1 (drop CHUNK_SIZE rest) acc received
          ((next.2).1) in
      let later =
        redistribute_loop-InPass (loop_count + 1) rounds w.0 (drop CHUNK_SIZE rest)
          (acc ++ received) w.2 in
      (
        later.0,
        ap
              (λ m.
                m
                >>= send_round CHUNK_SIZE fresh realloc_ok exchange loop_count
                >>= redistribute_loop CHUNK_SIZE fresh realloc_ok exchange (loop_count + 1) rounds)
              next.1
            ∙ ap
                (λ t.
                  write CHUNK_SIZE fresh realloc_ok (exchange loop_count t) r.1
                  >>= redistribute_loop CHUNK_SIZE fresh realloc_ok exchange (loop_count + 1)
                      rounds)
                (next.2).0
            ∙ ap
                (λ m.
                  m
                  >>= redistribute_loop CHUNK_SIZE fresh realloc_ok exchange (loop_count + 1)
                      rounds)
                w.1
            ∙ later.1,
        (
          (later.2).0,
          subst (InPass CHUNK_SIZE fresh realloc_ok later.0 (later.2).0)
              (append_assoc acc received
                (exchanged CHUNK_SIZE exchange (loop_count + 1) rounds (drop CHUNK_SIZE rest)))
              (later.2).1,
        ),
      )

  -- With memory for the edges and chunks of at least one edge, a pass over a list in memory, over
  -- some edges, or after a pass that has made a request, returns: each edge of the list is sent
  -- once, a chunk in each round, and what the rounds receive, in their order, is the new list.
  pub redistribute_edge_2d_lem :
      (s : EdgeListStorage E) (edges : List E) (others : ℕ)
      → 1 ≤ CHUNK_SIZE
      → IsStored s edges
      → IsReadable s edges
      → (now : EdgeListStorage E) × (redistribute_edge_2d CHUNK_SIZE fresh realloc_ok exchange
            others s
          ≡ returns now)
        × IsStored now (
            exchanged CHUNK_SIZE exchange 0 (begin_read CHUNK_SIZE fresh realloc_ok true s).0 edges)
        × (length edges ≤ (begin_read CHUNK_SIZE fresh realloc_ok true s).0 * CHUNK_SIZE)
  unfolding redistribute_edge_2d
  redistribute_edge_2d_lem s edges others chunk stored readable =
      let r = begin_read CHUNK_SIZE fresh realloc_ok true s in
      let rounds =
        redistribute_loop-InPass 0 r.0 (begin_write CHUNK_SIZE fresh realloc_ok r.1) edges []
          (begin_read-InPass CHUNK_SIZE fresh realloc_ok s edges stored readable) in
      let last =
        finish-IsStored CHUNK_SIZE fresh realloc_ok granted exchange rounds.0 (rounds.2).0
          (exchanged CHUNK_SIZE exchange 0 r.0 edges) others chunk (rounds.2).1 in
      (
        last.0,
        ap (λ m. m >>= finish CHUNK_SIZE fresh realloc_ok exchange others) rounds.1 ∙ last.1,
        last.2,
        begin_read-enough CHUNK_SIZE fresh realloc_ok s edges chunk stored,
      )
