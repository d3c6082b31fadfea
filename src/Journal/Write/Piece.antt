-- ===== src/Journal/Write/Piece.antt =====
-- One round of the write loop of memjrnlWrite (src/memjournal.c): the chunk that the end of the file
-- is in, a new one if needed, gets the next bytes.
use litebtree.Base.{
  ℕ, zero, suc, ◌+◌, ◌-◌, ◌*◌, ◌%◌, ◌≤◌, ◌<◌, ◌≡◌, ◌≢◌, refl, ap, sym, ◌∙◌, arith, List, [], ◌∷◌,
  ◌++◌, Option, none, some, length, take, flat, ◌⊎◌, inl, inr, ℕ_discrete, length-append,
  take-append_short, take_all, take-patch, All-append,
}
use litebtree.Journal.{MemJournal, copy_piece, link_chunk, place}
use litebtree.Journal.Chunks.{
  Sized, mul_suc, length-flat, flat-append, flat-copy_in, Sized-copy_in, length-copy_in, rem_place,
}
use litebtree.Journal.State.{Points, IsJournal, contents, last_place}

abbrev IsReader : MemJournal → Type 0
IsReader p = (p.read_offset ≡ 0) ⊎ Points p.chunk_size (length p.chunks) p.read_chunk p.read_offset

-- A state with a chunk for the byte at the end of the file, pos bytes into it.
pub record Ready (p : MemJournal) (pos : ℕ) : Type 0 where
  pub at : ℕ
  pub end_at : p.end_chunk ≡ some at
  pub count : length p.chunks ≡ suc at
  pub sized : Sized p.chunk_size p.chunks
  pub offset : p.end_offset ≡ at * p.chunk_size + pos
  pub small : pos < p.chunk_size
  pub reader : IsReader p

more_reader :
    (size n m : ℕ) (k : Option ℕ) (offset : ℕ)
    → (offset ≡ 0) ⊎ Points size n k offset
    → (offset ≡ 0) ⊎ Points size (n + m) k offset
more_reader size n m k offset (inl z) = inl z
more_reader size n m k offset (inr q) = inr (record {
  at = q.at;
  there = q.there;
  inside = let l = q.inside in omega arith;
  from = q.from;
  to = q.to;
})

module _ (p : MemJournal) (j : IsJournal p) where
  -- The number of chunks, and the bytes in the last one.
  filled_part :
      (m : ℕ)
      → length p.chunks ≡ suc m
      → (r : ℕ) × (p.end_offset ≡ m * p.chunk_size + r) × (0 < r) × (r ≤ p.chunk_size)
  filled_part m e =
      let t = j.tight in
      let n = j.enough in
      let s = mul_suc m p.chunk_size in
      let c = ap (λ t. t * p.chunk_size) e in
      (p.end_offset - m * p.chunk_size, omega arith, omega arith, omega arith)

  part_rem :
      (m r : ℕ)
      → p.end_offset ≡ m * p.chunk_size + r
      → r < p.chunk_size
      → p.end_offset % p.chunk_size ≡ r
  part_rem m r e l = ap (λ t. t % p.chunk_size) e ∙ rem_place p.chunk_size m r l

  full_rem : (m : ℕ) → p.end_offset ≡ m * p.chunk_size → p.end_offset % p.chunk_size ≡ 0
  full_rem m e = part_rem m 0 (omega arith) j.some_size

  pub chunks-Ready :
      (n : ℕ)
      → length p.chunks ≡ n
      → p.end_offset % p.chunk_size ≢ 0
      → Ready p (p.end_offset % p.chunk_size)
  chunks-Ready zero c h =
      let n = j.enough in
      let c' = ap (λ t. t * p.chunk_size) c in absurd (h (full_rem 0 (omega arith)))
  chunks-Ready (suc m) c h =
      let (r, e, pos, le) = filled_part m c in
      elim (ℕ_discrete r p.chunk_size) [
        | yes z ↦ let s = mul_suc m p.chunk_size in absurd (h (full_rem (suc m) (omega arith)))
        | no z ↦
            let rem = part_rem m r e (omega arith) in
            record {
              at = m;
              end_at = j.last ∙ ap last_place c;
              count = c;
              sized = j.sized;
              offset = e ∙ ap (λ t. m * p.chunk_size + t) (sym rem);
              small = rw rem (omega arith);
              reader = j.reader;
            }
      ]

  -- A file that ends with its last chunk.
  no_part :
      (n : ℕ)
      → length p.chunks ≡ n
      → p.end_offset % p.chunk_size ≡ 0
      → p.end_offset ≡ n * p.chunk_size
  no_part zero c h = let n = j.enough in let c' = ap (λ t. t * p.chunk_size) c in omega arith
  no_part (suc m) c h =
      let (r, e, pos, le) = filled_part m c in
      elim (ℕ_discrete r p.chunk_size) [
        | yes z ↦ let s = mul_suc m p.chunk_size in omega arith
        | no z ↦ let rem = part_rem m r e (omega arith) in absurd (omega arith)
      ]

-- The list with one more chunk.
abbrev pub linked : MemJournal → List ℕ → MemJournal
linked p c = record p { chunks = p.chunks ++ (c ∷ []); end_chunk = some (length p.chunks) }

pub link_chunk-linked :
    (p : MemJournal) (c : List ℕ)
    → p.end_chunk ≡ last_place (length p.chunks)
    → link_chunk p c ≡ linked p c
unfolding link_chunk
link_chunk-linked p c e = go p.chunks p.end_chunk e
  where
    go :
        (cs : List (List ℕ)) (k : Option ℕ)
        → k ≡ last_place (length cs)
        → elim k [
          | none ↦ record p { chunks = c ∷ []; end_chunk = some 0 }
          | some m ↦ record p { chunks = take (suc m) cs ++ (c ∷ []); end_chunk = some (suc m) }
        ]
          ≡ record p { chunks = cs ++ (c ∷ []); end_chunk = some (length cs) }
    go [] none e = refl
    go [] (some m) e = absurd (cc)
    go (d ∷ ds) none e = absurd (cc)
    go (d ∷ ds) (some m) e =
        let same : m ≡ length ds = cc in rw (same, take_all (length ds) ds (omega arith)) refl

pub linked-Ready :
    (p : MemJournal) (c : List ℕ)
    → IsJournal p
    → p.end_offset % p.chunk_size ≡ 0
    → length c ≡ p.chunk_size
    → Ready (linked p c) 0
linked-Ready p c j h e =
    let l = length-append p.chunks (c ∷ []) in
    let offset = no_part p j (length p.chunks) refl h in
    record {
      at = length p.chunks;
      end_at = refl;
      count = omega arith;
      sized = All-append (λ d. length d ≡ p.chunk_size) p.chunks (c ∷ []) j.sized (e, tt);
      offset = omega arith;
      small = j.some_size;
      reader =
          rw l (more_reader p.chunk_size (length p.chunks) 1 p.read_chunk p.read_offset j.reader);
    }

pub linked-contents :
    (p : MemJournal) (c : List ℕ) → IsJournal p → contents (linked p c) ≡ contents p
linked-contents p c j =
    let n = j.enough in
    let l = length-flat p.chunk_size p.chunks j.sized in
    rw (flat-append p.chunks (c ∷ []))
      (take-append_short p.end_offset (flat p.chunks) (c ++ []) (omega arith))

module _ (p : MemJournal) (pos : ℕ) (ready : Ready p pos) (piece : List ℕ)
    (room : pos + length piece ≤ p.chunk_size) where
  pub copy_piece-contents : contents (copy_piece p pos piece) ≡ contents p ++ piece
  unfolding copy_piece
  copy_piece-contents =
      let count = ready.count in
      let offset = ready.offset in
      let at = ready.at in
      let l = length-flat p.chunk_size p.chunks ready.sized in
      let s = mul_suc at p.chunk_size in
      let c = ap (λ t. t * p.chunk_size) count in
      let there : place p.end_chunk ≡ at = ap place ready.end_at in
      let flattened =
        flat-copy_in p.chunk_size at pos piece p.chunks ready.sized (omega arith) room in
      rw (there, flattened, ← offset)
        (take-patch p.end_offset (p.end_offset + length piece) piece (flat p.chunks) refl
          (omega arith))

  pub copy_piece-IsJournal : 0 < length piece → IsJournal (copy_piece p pos piece)
  unfolding copy_piece
  copy_piece-IsJournal some_bytes =
      let count = ready.count in
      let offset = ready.offset in
      let at = ready.at in
      let small = ready.small in
      let s = mul_suc at p.chunk_size in
      let c = ap (λ t. t * p.chunk_size) count in
      let l = length-copy_in (place p.end_chunk) pos piece p.chunks in
      record {
        some_size = omega arith;
        sized = Sized-copy_in p.chunk_size (place p.end_chunk) pos piece p.chunks ready.sized;
        enough = rw l (omega arith);
        tight = rw l (omega arith);
        last = rw (l, count) ready.end_at;
        reader = rw l ready.reader;
      }
