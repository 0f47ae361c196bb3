-- ===== src/Comm/Puts.antt =====
-- What the buffers of a destination hold after some puts.
use mathlib.Core.Path.{subst}
use mathlib.Core.List.{append_assoc, append-nil}
use graph.Base.{
  ℕ, ◌+◌, ◌<◌, ◌≤◌, ◌≡◌, refl, sym, ap, ◌∙◌, arith, Bool, true, false, Option, none, some, List, [],
  ◌∷◌, ◌++◌, leb, ltb, ◌==◌, ==_iff, if◌then◌else◌, returns, ◌>>=◌, Bool-cases, inl, inr,
}
use graph.Base.Lists.{length}
use graph.Base.Array.{at, length-++}
use graph.Comm.Buffers.{
  CommTarget, AlltoallManager, get_next, flushed, flush, added, add_words, swap_buffer, put,
  put_all,
}

unfoldable pub all_words : List (List ℕ) → List ℕ
all_words [] = []
all_words (b ∷ bs) = b ++ all_words bs

all_words-end : (bs : List (List ℕ)) (b : List ℕ) → all_words (bs ++ (b ∷ [])) ≡ all_words bs ++ b
unfolding all_words
all_words-end [] b = append-nil b
all_words-end (c ∷ bs) b =
    ap (λ t. c ++ t) (all_words-end bs b) ∙ sym (append_assoc c (all_words bs) b)

if-++ : (b : Bool) (xs ys : List ℕ) → (if b then xs else []) ++ ys ≡ (if b then xs ++ ys else ys)
if-++ true xs ys = refl
if-++ false xs ys = refl

if-nil : (b : Bool) (xs : List ℕ) → length xs ≡ 0 → (if b then xs else []) ≡ []
if-nil true [] h = refl
if-nil true (x ∷ xs) h = absurd (omega arith)
if-nil false xs h = refl

module _ (buffer_size num_buffers : ℕ) where
  -- The words that wait for a destination, in the buffers that `flush` leaves.
  unfoldable pub words_of : CommTarget → List ℕ
  words_of node = all_words (flush buffer_size num_buffers node).send_data

  abbrev FitsBuffer : ℕ → Option (List ℕ) → Type 0
  FitsBuffer filled none = filled ≡ buffer_size
  FitsBuffer filled (some buffer) = (filled ≡ length buffer) × (filled ≤ buffer_size)

  unfoldable pub AllFit : List (List ℕ) → Type 0
  AllFit [] = Unit
  AllFit (b ∷ bs) = (length b ≤ buffer_size) × AllFit bs

  -- The count is that of the words, and no buffer has more than fit.
  pub record IsCounted (node : CommTarget) : Type 0 where
    pub fits : FitsBuffer node.filled_size node.cur_buf
    pub full_fit : AllFit node.send_data

  AllFit-end :
      (bs : List (List ℕ)) (b : List ℕ)
      → AllFit bs
      → length b ≤ buffer_size
      → AllFit (bs ++ (b ∷ []))
  unfolding AllFit
  AllFit-end [] b h l = (l, tt)
  AllFit-end (c ∷ bs) b h l = (h.0, AllFit-end bs b h.1 l)

  AllFit-flushed :
      (filled : ℕ) (cur : Option (List ℕ)) (bs : List (List ℕ))
      → FitsBuffer filled cur
      → AllFit bs
      → AllFit (flushed buffer_size num_buffers cur bs)
  AllFit-flushed filled none bs h all = all
  AllFit-flushed filled (some b) bs h all =
      (let a = h.0 in let c = h.1 in AllFit-end bs b all (omega arith))

  -- The node that takes the words into a new buffer, or behind the others.
  abbrev swapped : List ℕ → CommTarget → CommTarget
  swapped words node = record (flush buffer_size num_buffers node) {
    cur_buf = some words;
    filled_size = length words;
  }

  abbrev extended : List ℕ → CommTarget → CommTarget
  extended words node = record node {
    cur_buf = added buffer_size num_buffers node.cur_buf words;
    filled_size = node.filled_size + length words;
  }

  IsCounted-swapped :
      (words : List ℕ) (node : CommTarget)
      → length words ≤ buffer_size
      → IsCounted node
      → IsCounted (swapped words node)
  unfolding flush
  IsCounted-swapped words node l h = record {
    fits = (refl, l);
    full_fit = AllFit-flushed node.filled_size node.cur_buf node.send_data h.fits h.full_fit;
  }

  words-swapped :
      (words : List ℕ) (node : CommTarget) → words_of (swapped words node) ≡ words_of node ++ words
  unfolding words_of flush
  words-swapped words node =
      all_words-end (flushed buffer_size num_buffers node.cur_buf node.send_data) words

  fits-extended :
      (filled : ℕ) (cur : Option (List ℕ)) (words : List ℕ)
      → 1 ≤ length words
      → filled + length words ≤ buffer_size
      → FitsBuffer filled cur
      → FitsBuffer (filled + length words) (added buffer_size num_buffers cur words)
  fits-extended filled none words some_word l h = absurd (omega arith)
  fits-extended filled (some b) words some_word l h =
      (let a = h.0 in let c = length-++ b words in (omega arith, l))

  words-added :
      (filled : ℕ) (cur : Option (List ℕ)) (words : List ℕ) (bs : List (List ℕ))
      → 1 ≤ length words
      → filled + length words ≤ buffer_size
      → FitsBuffer filled cur
      → all_words (flushed buffer_size num_buffers (added buffer_size num_buffers cur words) bs)
        ≡ all_words (flushed buffer_size num_buffers cur bs) ++ words
  words-added filled none words bs some_word l h = absurd (omega arith)
  words-added filled (some b) words bs some_word l h =
      all_words-end bs (b ++ words)
      ∙ sym (append_assoc (all_words bs) b words)
      ∙ ap (λ t. t ++ words) (sym (all_words-end bs b))

  -- What is put for a destination.
  unfoldable pub words_to : ℕ → List (List ℕ × ℕ) → List ℕ
  words_to d [] = []
  words_to d (p ∷ puts) = let rest = words_to d puts in if d == p.1 then p.0 ++ rest else rest

  unfoldable pub PutsFit : List (List ℕ × ℕ) → Type 0
  PutsFit [] = Unit
  PutsFit (p ∷ puts) = (length p.0 ≤ buffer_size) × PutsFit puts

  abbrev Grown : CommTarget → CommTarget → List ℕ → Type 0
  Grown node now words = IsCounted now × (words_of now ≡ words_of node ++ words)

  unchanged : (node : CommTarget) → IsCounted node → Grown node node []
  unchanged node h = (h, sym (append-nil (words_of node)))

  Grown-at :
      (b : Bool) (node new : CommTarget) (words : List ℕ)
      → IsCounted node
      → (b ≡ true → Grown node new words)
      → Grown node (if b then new else node) (if b then words else [])
  Grown-at true node new words h k = k refl
  Grown-at false node new words h k = unchanged node h

  Grown-extended :
      (words : List ℕ) (node : CommTarget)
      → 1 ≤ length words
      → node.filled_size + length words ≤ buffer_size
      → IsCounted node
      → Grown node (extended words node) words
  unfolding words_of flush
  Grown-extended words node some_word l h = (
    record {
      fits = fits-extended node.filled_size node.cur_buf words some_word l h.fits;
      full_fit = h.full_fit;
    },
    words-added node.filled_size node.cur_buf words node.send_data some_word l h.fits,
  )

  abbrev AllGrown : AlltoallManager → AlltoallManager → (ℕ → List ℕ) → Type 0
  AllGrown m now words = (d : ℕ) → Grown (m.nodes d) (now.nodes d) (words d)

  -- One put, when a buffer is left.
  put-AllGrown :
      (words : List ℕ) (target : ℕ) (m : AlltoallManager)
      → length words ≤ buffer_size
      → m.current_index < num_buffers
      → ((d : ℕ) → IsCounted (m.nodes d))
      → (now : AlltoallManager) × (put buffer_size num_buffers words target m ≡ returns now)
        × (now.current_index ≤ m.current_index + 1)
        × AllGrown m now (λ d. if d == target then words else [])
  unfolding put get_next swap_buffer add_words
  put-AllGrown words target m l left h =
      let node = m.nodes target in
      elim (Bool-cases (length words == 0)) [
        | inl e ↦ (
          m,
          rw e refl,
          omega arith,
          λ d.
              subst (Grown (m.nodes d) (m.nodes d))
                (sym (if-nil (d == target) words (ground arith))) (unchanged (m.nodes d) (h d)),
        )
        | inr e ↦ elim (Bool-cases (ltb buffer_size (node.filled_size + length words))) [
          | inl e2 ↦
              (let free : leb num_buffers m.current_index ≡ false = ground arith in
                (
                  record m {
                    current_index = m.current_index + 1;
                    nodes = at target (swapped words node) m.nodes;
                  },
                  rw (e, e2, free) refl,
                  omega arith,
                  λ d. Grown-at (d == target) (m.nodes d) (swapped words node) words (h d) (λ same.
                      subst (λ k. Grown (m.nodes k) (swapped words node) words)
                        (sym ((==_iff d target).0 same))
                        (IsCounted-swapped words node l (h target), words-swapped words node)),
                ))
          | inr e2 ↦
              (let some_word : 1 ≤ length words = ground arith in
                let fits : node.filled_size + length words ≤ buffer_size = ground (arith, e2) in
                (
                  record m { nodes = at target (extended words node) m.nodes },
                  rw (e, e2) refl,
                  omega arith,
                  λ d. Grown-at (d == target) (m.nodes d) (extended words node) words (h d) (λ same.
                      subst (λ k. Grown (m.nodes k) (extended words node) words)
                        (sym ((==_iff d target).0 same))
                        (Grown-extended words node some_word fits (h target))),
                ))
        ]
      ]

  -- When each put fits a buffer and there are as many buffers left as puts: the puts return, the
  -- words of each destination are followed by those that were put for it, in their order, and no
  -- buffer holds more than fit.
  pub put_all-AllGrown :
      (puts : List (List ℕ × ℕ)) (m : AlltoallManager)
      → PutsFit puts
      → m.current_index + length puts ≤ num_buffers
      → ((d : ℕ) → IsCounted (m.nodes d))
      → (now : AlltoallManager) × (put_all buffer_size num_buffers puts m ≡ returns now)
        × ((d : ℕ)
            → IsCounted (now.nodes d)
              × (words_of (now.nodes d) ≡ words_of (m.nodes d) ++ words_to d puts))
  unfolding put_all words_to PutsFit
  put_all-AllGrown [] m fit enough h = (m, refl, λ d. unchanged (m.nodes d) (h d))
  put_all-AllGrown (p ∷ puts) m fit enough h =
      let one = put-AllGrown p.0 p.1 m fit.0 (omega arith) h in
      (let index = one.2 in
        let rest = put_all-AllGrown puts one.0 fit.1 (omega arith) (λ d. (one.3 d).0) in
        (
          rest.0,
          ap (λ r. r >>= put_all buffer_size num_buffers puts) one.1 ∙ rest.1,
          λ d. (
            (rest.2 d).0,
            (rest.2 d).1
                ∙ ap (λ t. t ++ words_to d puts) (one.3 d).1
                ∙ append_assoc (words_of (m.nodes d)) (if d == p.1 then p.0 else [])
                    (words_to d puts)
                ∙ ap (λ t. words_of (m.nodes d) ++ t) (if-++ (d == p.1) p.0 (words_to d puts)),
          ),
        ))
