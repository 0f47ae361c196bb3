-- ===== src/TopDown/Delivered.antt =====
-- From the sends of a thread to the receipt at a destination.
use mathlib.Core.Path.{subst}
use mathlib.Core.List.{append-nil}
use graph.Base.{
  ℕ, zero, suc, ◌<◌, ◌≤◌, ◌≡◌, refl, sym, ap, ◌∙◌, arith, Bool, Option, none, List, [], ◌++◌, ltb,
  ◌==◌, Bool-cases, inl, inr, le-cases,
}
use graph.Base.Lists.{length}
use graph.TopDown.Send.{
  LocalPacket, Sender, empty_packet, new_sender, put_packet, send_edges, flush_packet,
  flush_packets,
}
use graph.TopDown.Receive.{Search, top_down_receive}
use graph.TopDown.Stream.{Stream, ended, receive_edges, top_down_receive-Stream}
use graph.TopDown.Packed.{
  at_here, edges_to, no_words, none_left, CarriesAt, if-CarriesAt, sends-CarriesAt, HasSmallSources,
}

module _ (WIDTH TOP_DOWN_LENGTH lgl r_bits : ℕ) where
  flush_packet-own :
      (st : Sender) (d : ℕ)
      → ((flush_packet TOP_DOWN_LENGTH lgl r_bits d st).packet_array d).words ≡ []
  unfolding flush_packet put_packet
  flush_packet-own st d = elim (Bool-cases (ltb 0 (length (st.packet_array d).words))) [
    | inl e ↦ rw e (ap (λ (pk : LocalPacket). pk.words) (at_here d empty_packet st.packet_array))
    | inr e ↦ rw e (none_left (st.packet_array d).words e)
  ]

  put_packet-other :
      (st : Sender) (k d : ℕ)
      → (st.packet_array d).words ≡ []
      → ((put_packet k st).packet_array d).words ≡ []
  unfolding put_packet
  put_packet-other st k d h = elim (Bool-cases (d == k)) [ inl e ↦ rw e refl | inr e ↦ rw e h ]

  flush_packet-other :
      (st : Sender) (k d : ℕ)
      → (st.packet_array d).words ≡ []
      → ((flush_packet TOP_DOWN_LENGTH lgl r_bits k st).packet_array d).words ≡ []
  unfolding flush_packet
  flush_packet-other st k d h = elim (Bool-cases (ltb 0 (length (st.packet_array k).words))) [
    | inl e ↦ rw e (put_packet-other st k d h)
    | inr e ↦ rw e h
  ]

  flush_packets-empty :
      (st : Sender) (n d : ℕ)
      → d < n
      → ((flush_packets TOP_DOWN_LENGTH lgl r_bits n st).packet_array d).words ≡ []
  unfolding flush_packets
  flush_packets-empty st zero d h = absurd (omega arith)
  flush_packets-empty st (suc n) d h = elim (le-cases d n (omega arith)) [
    | inl e ↦
        subst
          (λ k.
            ((flush_packet TOP_DOWN_LENGTH lgl r_bits n
                (flush_packets TOP_DOWN_LENGTH lgl r_bits n st)).packet_array
              k).words
            ≡ [])
          e (flush_packet-own (flush_packets TOP_DOWN_LENGTH lgl r_bits n st) n)
    | inr below ↦
        flush_packet-other (flush_packets TOP_DOWN_LENGTH lgl r_bits n st) n d
          (flush_packets-empty st n d below)
  ]

  flush_packets-CarriesAt :
      (st : Sender) (n d : ℕ) (edges : List (ℕ × ℕ))
      → CarriesAt WIDTH TOP_DOWN_LENGTH lgl r_bits st d edges
      → CarriesAt WIDTH TOP_DOWN_LENGTH lgl r_bits
          (flush_packets TOP_DOWN_LENGTH lgl r_bits n st)
          d
          edges
  unfolding flush_packets flush_packet
  flush_packets-CarriesAt st zero d edges h = h
  flush_packets-CarriesAt st (suc n) d edges h =
      let st1 = flush_packets TOP_DOWN_LENGTH lgl r_bits n st in
      if-CarriesAt WIDTH TOP_DOWN_LENGTH lgl r_bits (ltb 0 (length (st1.packet_array n).words)) st1
        n d edges (flush_packets-CarriesAt st n d edges h)

  -- A thread's sends, flushed at the end, are words for each destination.
  sent-Stream :
      (sends : List (ℕ × ℕ)) (size_2dr dest : ℕ)
      → lgl ≤ 31
      → dest < size_2dr
      → HasSmallSources sends
      → (last : Option ℕ) × Stream WIDTH none
          ((flush_packets TOP_DOWN_LENGTH lgl r_bits size_2dr
              (send_edges TOP_DOWN_LENGTH lgl r_bits sends new_sender)).sent
            dest)
          (edges_to lgl r_bits dest sends)
          []
          last
  sent-Stream sends size_2dr dest fits inside small =
      let st = send_edges TOP_DOWN_LENGTH lgl r_bits sends new_sender in
      let start : CarriesAt WIDTH TOP_DOWN_LENGTH lgl r_bits new_sender dest [] = record {
        first = [];
        second = [];
        last = none;
        put_before = ended;
        in_packet = ended;
        all_edges = refl;
      } in
      let h = flush_packets-CarriesAt st size_2dr dest (edges_to lgl r_bits dest sends) (
        sends-CarriesAt WIDTH TOP_DOWN_LENGTH lgl r_bits sends new_sender dest [] fits small
          start) in
      (
        h.last,
        subst
            (λ t.
              Stream WIDTH none ((flush_packets TOP_DOWN_LENGTH lgl r_bits size_2dr st).sent dest) t
                [] h.last)
            (sym (append-nil h.first)
              ∙ ap (λ t. h.first ++ t)
                  (sym (no_words WIDTH h.in_packet (flush_packets-empty st size_2dr dest inside)))
              ∙ h.all_edges)
            h.put_before,
      )

module _ (growing : Bool) (SIZE WIDTH TOP_DOWN_LENGTH lgl r_bits current_level : ℕ)
    (invert_map : ℕ → ℕ) where
  -- Local parts of at most 31 bits and sources of 48: what a rank receives for the edges that a
  -- thread sends in a step, and then flushes, is the edges that go to this rank, one by one, in
  -- their order, and no row is put off.
  pub top_down_receive-send_edges :
      (sends : List (ℕ × ℕ)) (size_2dr dest : ℕ) (s : Search)
      → lgl ≤ 31
      → dest < size_2dr
      → HasSmallSources sends
      → top_down_receive growing SIZE lgl current_level invert_map WIDTH
          ((flush_packets TOP_DOWN_LENGTH lgl r_bits size_2dr
              (send_edges TOP_DOWN_LENGTH lgl r_bits sends new_sender)).sent
            dest)
          (s, [])
        ≡ (
          receive_edges growing SIZE lgl current_level invert_map
              (edges_to lgl r_bits dest sends)
              s,
          [],
        )
  top_down_receive-send_edges sends size_2dr dest s fits inside small =
      top_down_receive-Stream growing SIZE lgl current_level invert_map WIDTH
        (sent-Stream WIDTH TOP_DOWN_LENGTH lgl r_bits sends size_2dr dest fits inside small).1 s []
