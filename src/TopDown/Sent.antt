-- ===== src/TopDown/Sent.antt =====
-- The words that are put for a destination carry the edges that are sent there, in their order.
use mathlib.Core.Path.{subst}
use native.Mathlib.Nat.{mod-lt, one-le-pow, pow-le-pow_right}
use mathlib.Core.List.{append-nil, append_assoc}
use graph.Base.{
  ℕ, ◌^◌, ◌<◌, ◌≤◌, ◌≡◌, sym, ap, ◌∙◌, arith, true, Option, none, some, List, [], ◌∷◌, ◌++◌,
  if◌then◌else◌, bit_and, bit_or, Bool-cases, inl, inr, ==_iff,
}
use graph.Base.Lists.{length}
use graph.Base.Word.{u32, ◌<<<◌, ◌>>>◌, low_mask}
use graph.Base.Bits.{bit_and_mask}
use graph.TopDown.Send.{LocalPacket, empty_packet, header, has_src, append_edge}
use graph.TopDown.Receive.{TopDownRow}
use graph.TopDown.Words.{bits-IsHeader}
use graph.TopDown.Stream.{Stream, block_edges, ended, source, target, short_block, long_block}

module _ (WIDTH : ℕ) where
  pub from_start :
      {q : Option ℕ} {words : List ℕ} {edges : List (ℕ × ℕ)} {rows : List TopDownRow}
      → Stream WIDTH none words edges rows q
      → (r : Option ℕ) → (now : Option ℕ) × Stream WIDTH r words edges rows now
  from_start {q = q} ended r = (r, ended)
  from_start (source src high low head stream) r = (_, source src high low head stream)
  from_start (short_block src high low targets head short stream) r =
      (_, short_block src high low targets head short stream)
  from_start (long_block src high low targets head long stream) r =
      (_, long_block src high low targets head long stream)

  pub joined :
      {p q r : Option ℕ} {words more : List ℕ} {edges others : List (ℕ × ℕ)}
      {rows : List TopDownRow}
      → Stream WIDTH p words edges [] q
      → Stream WIDTH q more others rows r
      → Stream WIDTH p (words ++ more) (edges ++ others) rows r
  joined ended next = next
  joined (source src high low head stream) next = source src high low head (joined stream next)
  joined (target src tgt small stream) next = target src tgt small (joined stream next)
  joined {p = p} {r = r} {more = more} {others = others} {rows = rows}
        (short_block {words = words} {edges = edges} src high low targets head short stream) next =
      subst
        (λ w.
          Stream WIDTH p (high ∷ low ∷ length targets ∷ w)
            ((block_edges src targets ++ edges) ++ others) rows r)
        (sym (append_assoc targets words more))
        (subst
          (λ t.
            Stream WIDTH p (high ∷ low ∷ length targets ∷ (targets ++ (words ++ more))) t rows r)
          (sym (append_assoc (block_edges src targets) edges others))
          (short_block src high low targets head short (joined stream next)))

-- `edges` are those that were put, and those in the packet.
pub record Carries (WIDTH : ℕ) (pk : LocalPacket) (sent : List ℕ) (edges : List (ℕ × ℕ))
    : Type 0 where
  pub first : List (ℕ × ℕ)
  pub second : List (ℕ × ℕ)
  pub last : Option ℕ
  pub put_before : Stream WIDTH none sent first [] last
  pub in_packet : Stream WIDTH none pk.words second [] pk.src
  pub all_edges : first ++ second ≡ edges

local_part : (lgl tgt : ℕ) → lgl ≤ 31 → bit_and tgt (low_mask lgl) < 2 ^ 31
local_part lgl tgt fits =
    (let e = bit_and_mask lgl tgt in
      let u = mod-lt tgt (one-le-pow lgl 2 (omega arith)) in
      let top : 2 ^ lgl ≤ 2 ^ 31 = pow-le-pow_right (omega arith) fits in omega arith)

has_src-eq : (o : Option ℕ) (src : ℕ) → has_src o src ≡ true → o ≡ some src
has_src-eq none src h = absurd (ground arith)
has_src-eq (some old) src h = ap some ((==_iff old src).0 h)

module _ (WIDTH TOP_DOWN_LENGTH lgl r_bits : ℕ) where
  pub Carries-put :
      (pk : LocalPacket) (sent : List ℕ) (edges : List (ℕ × ℕ))
      → Carries WIDTH pk sent edges
      → Carries WIDTH empty_packet (sent ++ pk.words) edges
  Carries-put pk sent edges h =
      let moved = from_start WIDTH h.in_packet h.last in
      record {
        first = h.first ++ h.second;
        second = [];
        last = moved.0;
        put_before = joined WIDTH h.put_before moved.1;
        in_packet = ended;
        all_edges = append-nil (h.first ++ h.second) ∙ h.all_edges;
      }

  -- More words in the packet.
  carried :
      (pk : LocalPacket) (sent : List ℕ) (edges : List (ℕ × ℕ)) (src : ℕ) (words : List ℕ)
      (more : List (ℕ × ℕ))
      → Carries WIDTH pk sent edges
      → Stream WIDTH pk.src words more [] (some src)
      → Carries WIDTH (record { src = some src; words = pk.words ++ words }) sent (edges ++ more)
  carried pk sent edges src words more h next = record {
    first = h.first;
    second = h.second ++ more;
    last = h.last;
    put_before = h.put_before;
    in_packet = joined WIDTH h.in_packet next;
    all_edges = sym (append_assoc h.first h.second more) ∙ ap (λ t. t ++ more) h.all_edges;
  }

  pub Carries-append :
      (pk : LocalPacket) (sent : List ℕ) (edges : List (ℕ × ℕ)) (tgt src : ℕ)
      → lgl ≤ 31
      → src < 2 ^ 48
      → Carries WIDTH pk sent edges
      → Carries WIDTH
          (append_edge lgl tgt src pk)
          sent
          (edges ++ ((bit_and tgt (low_mask lgl), src) ∷ []))
  unfolding append_edge
  Carries-append pk sent edges tgt src fits small h =
      let t = bit_and tgt (low_mask lgl) in
      let added : Stream WIDTH (some src) (t ∷ []) ((t, src) ∷ []) [] (some src) =
        target src t (local_part lgl tgt fits) ended in
      elim (Bool-cases (has_src pk.src src)) [
        | inl e ↦
            subst
              (λ b.
                Carries WIDTH
                  (record {
                    src = some src;
                    words = (if b then pk.words else pk.words ++ header 2 src) ++ (t ∷ []);
                  })
                  sent (edges ++ ((t, src) ∷ [])))
              (sym e)
              (carried pk sent edges src (t ∷ []) ((t, src) ∷ []) h (
                subst (λ o. Stream WIDTH o (t ∷ []) ((t, src) ∷ []) [] (some src))
                  (sym (has_src-eq pk.src src e)) added))
        | inr e ↦
            subst
              (λ b.
                Carries WIDTH
                  (record {
                    src = some src;
                    words = (if b then pk.words else pk.words ++ header 2 src) ++ (t ∷ []);
                  })
                  sent (edges ++ ((t, src) ∷ [])))
              (sym e)
              (subst
                (λ w.
                  Carries WIDTH (record { src = some src; words = w }) sent
                    (edges ++ ((t, src) ∷ [])))
                (sym (append_assoc pk.words (header 2 src) (t ∷ [])))
                (carried pk sent edges src (header 2 src ++ (t ∷ [])) ((t, src) ∷ []) h (
                  source src (u32 (bit_or (src >>> 32) (2 <<< 30))) (u32 src)
                    (bits-IsHeader 2 src (omega arith) small) added)))
      ]
