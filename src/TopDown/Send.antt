-- ===== src/TopDown/Send.antt =====
-- `top_down_send`: edges are collected in a packet for each destination, as words of 32 bits.
use graph.Base.{
  ℕ, zero, suc, ◌-◌, Bool, false, Option, none, some, List, [], ◌∷◌, ◌++◌, ltb, ◌==◌, if◌then◌else◌,
  bit_and, bit_or,
}
use graph.Base.Lists.{length}
use graph.Base.Array.{at}
use graph.Base.Word.{u32, ◌<<<◌, ◌>>>◌, low_mask}

-- The source -1 is `none`; the length of the data is the field `length`.
pub record LocalPacket : Type 0 where
  pub src : Option ℕ
  pub words : List ℕ

abbrev pub empty_packet : LocalPacket
empty_packet = record { src = none; words = [] }

-- The packets of one thread, and the words that were put for each destination, in order.
pub record Sender : Type 0 where
  pub packet_array : ℕ → LocalPacket
  pub sent : ℕ → List ℕ

abbrev pub new_sender : Sender
new_sender = record { packet_array = λ dest. empty_packet; sent = λ dest. [] }

-- The two words of a source, the first with the bits `flags` at its top.
abbrev pub header : ℕ → ℕ → List ℕ
header flags src = u32 (bit_or (src >>> 32) (flags <<< 30)) ∷ u32 src ∷ []

abbrev pub has_src : Option ℕ → ℕ → Bool
has_src none src = false
has_src (some old) src = old == src

-- `td_comm_.put` for a packet, which is empty afterwards.
unfoldable pub put_packet : ℕ → Sender → Sender
put_packet dest st = record {
  packet_array = at dest empty_packet st.packet_array;
  sent = at dest (st.sent dest ++ (st.packet_array dest).words) st.sent;
}

-- The source, when the packet has another, and the local part of the target.
unfoldable pub append_edge : ℕ → ℕ → ℕ → LocalPacket → LocalPacket
append_edge lgl tgt src pk = record {
  src = some src;
  words =
      (if has_src pk.src src then pk.words else pk.words ++ header 2 src)
      ++ (bit_and tgt (low_mask lgl) ∷ []);
}

-- `TOP_DOWN_LENGTH` is the number of words of a packet; the mask has `r_bits` bits.
module _ (TOP_DOWN_LENGTH lgl r_bits : ℕ) where
  abbrev pub dest_of : ℕ → ℕ
  dest_of tgt = bit_and (tgt >>> lgl) (low_mask r_bits)

  unfoldable pub top_down_send : ℕ → ℕ → Sender → Sender
  top_down_send tgt src st =
      let dest = dest_of tgt in
      let full = ltb (TOP_DOWN_LENGTH - 3) (length (st.packet_array dest).words) in
      let st1 = if full then put_packet dest st else st in
      record st1 {
        packet_array = at dest (append_edge lgl tgt src (st1.packet_array dest)) st1.packet_array;
      }

  -- The edges of a search step, each a target and a source.
  unfoldable pub send_edges : List (ℕ × ℕ) → Sender → Sender
  send_edges [] st = st
  send_edges (e ∷ edges) st = send_edges edges (top_down_send e.0 e.1 st)

  -- The end of the section: the packets that are not empty are put.
  unfoldable pub flush_packet : ℕ → Sender → Sender
  flush_packet dest st =
      if ltb 0 (length (st.packet_array dest).words) then put_packet dest st else st

  unfoldable pub flush_packets : ℕ → Sender → Sender
  flush_packets zero st = st
  flush_packets (suc size_2dr) st = flush_packet size_2dr (flush_packets size_2dr st)
