-- ===== src/TopDown/Packed.antt =====
-- The edges that a thread sends are in the words put for their destinations and in its packets.
use mathlib.Core.Path.{subst}
use mathlib.Core.List.{append-nil, append_assoc}
use graph.Base.{
  ℕ, ◌-◌, ◌^◌, ◌<◌, ◌≤◌, ◌≡◌, refl, sym, ap, ◌∙◌, arith, Bool, true, false, Option, List, [], ◌∷◌,
  ◌++◌, ltb, ◌==◌, if◌then◌else◌, bit_and, Bool-cases, inl, inr, ==_iff,
}
use graph.Base.Lists.{length}
use graph.Base.Word.{◌>>>◌, low_mask}
use graph.TopDown.Send.{Sender, empty_packet, put_packet, append_edge, top_down_send, send_edges}
use graph.Base.Array.{at}
use graph.TopDown.Receive.{TopDownRow}
use graph.TopDown.Stream.{Stream, ended, source, target, short_block, long_block}
use graph.TopDown.Sent.{Carries, Carries-put, Carries-append}

-- Sources have 48 bits.
unfoldable pub HasSmallSources : List (ℕ × ℕ) → Type 0
HasSmallSources [] = Unit
HasSmallSources (e ∷ edges) = (e.1 < 2 ^ 48) × HasSmallSources edges

module _ {ℓ} {A : Type ℓ} where
  pub at_here : (i : ℕ) (x : A) (f : ℕ → A) → at i x f i ≡ x
  at_here i x f = ground arith

  at_elsewhere : (i j : ℕ) (x : A) (f : ℕ → A) → (j == i) ≡ false → at i x f j ≡ f j
  at_elsewhere i j x f h = rw h refl

module _ (lgl r_bits : ℕ) where
  -- The edges of a list that go to `dest`, with the local parts of their targets.
  unfoldable pub edges_to : ℕ → List (ℕ × ℕ) → List (ℕ × ℕ)
  edges_to dest [] = []
  edges_to dest (e ∷ edges) =
      let rest = edges_to dest edges in
      if dest == bit_and (e.0 >>> lgl) (low_mask r_bits)
      then (bit_and e.0 (low_mask lgl), e.1) ∷ rest
      else rest

if-++ :
    (b : Bool) (e : ℕ × ℕ) (rest : List (ℕ × ℕ))
    → (if b then e ∷ [] else []) ++ rest ≡ (if b then e ∷ rest else rest)
if-++ true e rest = refl
if-++ false e rest = refl

pub no_words :
    (WIDTH : ℕ) {p q : Option ℕ} {words : List ℕ} {edges : List (ℕ × ℕ)} {rows : List TopDownRow}
    → Stream WIDTH p words edges rows q
    → words ≡ []
    → edges ≡ []
no_words WIDTH ended e = refl
no_words WIDTH (source src high low head stream) e = (let l = ap length e in absurd (omega arith))
no_words WIDTH (target src tgt small stream) e = (let l = ap length e in absurd (omega arith))
no_words WIDTH (short_block src high low targets head short stream) e =
    (let l = ap length e in absurd (omega arith))
no_words WIDTH (long_block src high low targets head long stream) e =
    (let l = ap length e in absurd (omega arith))

pub none_left : (words : List ℕ) → ltb 0 (length words) ≡ false → words ≡ []
none_left [] h = refl
none_left (w ∷ words) h = absurd (ground arith)

module _ (WIDTH TOP_DOWN_LENGTH lgl r_bits : ℕ) where
  -- What is put for a destination, and its packet, carry these edges.
  abbrev pub CarriesAt : Sender → ℕ → List (ℕ × ℕ) → Type 0
  CarriesAt st d edges = Carries WIDTH (st.packet_array d) (st.sent d) edges

  put_packet-CarriesAt :
      (st : Sender) (dest d : ℕ) (edges : List (ℕ × ℕ))
      → CarriesAt st d edges
      → CarriesAt (put_packet dest st) d edges
  unfolding put_packet
  put_packet-CarriesAt st dest d edges h = elim (Bool-cases (d == dest)) [
    | inl e ↦
        subst
          (λ b.
            Carries WIDTH (if b then empty_packet else st.packet_array d)
              (if b then st.sent dest ++ (st.packet_array dest).words else st.sent d) edges)
          (sym e)
          (subst (λ k. Carries WIDTH empty_packet (st.sent k ++ (st.packet_array k).words) edges)
            ((==_iff d dest).0 e)
            (Carries-put WIDTH TOP_DOWN_LENGTH lgl r_bits (st.packet_array d) (st.sent d) edges h))
    | inr e ↦
        subst
          (λ b.
            Carries WIDTH (if b then empty_packet else st.packet_array d)
              (if b then st.sent dest ++ (st.packet_array dest).words else st.sent d) edges)
          (sym e) h
  ]

  pub if-CarriesAt :
      (b : Bool) (st : Sender) (dest d : ℕ) (edges : List (ℕ × ℕ))
      → CarriesAt st d edges
      → CarriesAt (if b then put_packet dest st else st) d edges
  if-CarriesAt true st dest d edges h = put_packet-CarriesAt st dest d edges h
  if-CarriesAt false st dest d edges h = h

  send-CarriesAt :
      (st : Sender) (tgt src d : ℕ) (edges : List (ℕ × ℕ))
      → lgl ≤ 31
      → src < 2 ^ 48
      → CarriesAt st d edges
      → CarriesAt
          (top_down_send TOP_DOWN_LENGTH lgl r_bits tgt src st)
          d
          (edges ++ edges_to lgl r_bits d ((tgt, src) ∷ []))
  unfolding top_down_send edges_to
  send-CarriesAt st tgt src d edges fits small h =
      let dest = bit_and (tgt >>> lgl) (low_mask r_bits) in
      let full = ltb (TOP_DOWN_LENGTH - 3) (length (st.packet_array dest).words) in
      let st1 = if full then put_packet dest st else st in
      let h1 = if-CarriesAt full st dest d edges h in
      let edge : ℕ × ℕ = (bit_and tgt (low_mask lgl), src) in
      elim (Bool-cases (d == dest)) [
        | inl e ↦
            subst
              (λ b.
                Carries WIDTH
                  (if b
                    then append_edge lgl tgt src (st1.packet_array dest)
                    else st1.packet_array d)
                  (st1.sent d) (edges ++ (if b then edge ∷ [] else [])))
              (sym e)
              (subst
                (λ k.
                  Carries WIDTH (append_edge lgl tgt src (st1.packet_array k)) (st1.sent d)
                    (edges ++ (edge ∷ [])))
                ((==_iff d dest).0 e)
                (Carries-append WIDTH TOP_DOWN_LENGTH lgl r_bits (st1.packet_array d) (st1.sent d)
                  edges tgt src fits small h1))
        | inr e ↦
            subst
              (λ b.
                Carries WIDTH
                  (if b
                    then append_edge lgl tgt src (st1.packet_array dest)
                    else st1.packet_array d)
                  (st1.sent d) (edges ++ (if b then edge ∷ [] else [])))
              (sym e)
              (subst (Carries WIDTH (st1.packet_array d) (st1.sent d)) (sym (append-nil edges)) h1)
      ]

  edges_to-cons :
      (d : ℕ) (before : List (ℕ × ℕ)) (e : ℕ × ℕ) (edges : List (ℕ × ℕ))
      → (before ++ edges_to lgl r_bits d (e ∷ [])) ++ edges_to lgl r_bits d edges
        ≡ before ++ edges_to lgl r_bits d (e ∷ edges)
  unfolding edges_to
  edges_to-cons d before e edges =
      append_assoc before (edges_to lgl r_bits d (e ∷ [])) (edges_to lgl r_bits d edges)
      ∙ ap (λ t. before ++ t)
          (if-++ (d == bit_and (e.0 >>> lgl) (low_mask r_bits)) (bit_and e.0 (low_mask lgl), e.1)
            (edges_to lgl r_bits d edges))

  pub sends-CarriesAt :
      (sends : List (ℕ × ℕ)) (st : Sender) (d : ℕ) (edges : List (ℕ × ℕ))
      → lgl ≤ 31
      → HasSmallSources sends
      → CarriesAt st d edges
      → CarriesAt
          (send_edges TOP_DOWN_LENGTH lgl r_bits sends st)
          d
          (edges ++ edges_to lgl r_bits d sends)
  unfolding send_edges HasSmallSources edges_to
  sends-CarriesAt [] st d edges fits small h = subst (CarriesAt st d) (sym (append-nil edges)) h
  sends-CarriesAt (e ∷ sends) st d edges fits small h =
      let st1 = top_down_send TOP_DOWN_LENGTH lgl r_bits e.0 e.1 st in
      subst (CarriesAt (send_edges TOP_DOWN_LENGTH lgl r_bits sends st1) d)
        (edges_to-cons d edges e sends)
        (sends-CarriesAt sends st1 d (edges ++ edges_to lgl r_bits d (e ∷ [])) fits small.1
          (send-CarriesAt st e.0 e.1 d edges fits small.0 h))
