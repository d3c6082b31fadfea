-- ===== src/Journal/State.antt =====
-- What holds of an in-memory journal between two calls (src/memjournal.c): the state of the two
-- FilePoint cursors and the bytes of the file.
use litebtree.Base.{
  ℕ, zero, suc, ◌+◌, ◌*◌, ◌≤◌, ◌<◌, ◌≡◌, ◌⊎◌, List, Option, none, some, length, take, flat,
}
use litebtree.Journal.{MemJournal}
use litebtree.Journal.Chunks.{Sized}

-- The bytes of the file.
abbrev pub contents : MemJournal → List ℕ
contents p = take p.end_offset (flat p.chunks)

abbrev pub last_place : ℕ → Option ℕ
last_place zero = none
last_place (suc n) = some n

-- The chunk k is the one that an offset lies in.
pub record Points (size count : ℕ) (k : Option ℕ) (offset : ℕ) : Type 0 where
  pub at : ℕ
  pub there : k ≡ some at
  pub inside : at < count
  pub from : at * size ≤ offset
  pub to : offset < at * size + size

-- The chunks have one size, and just as many are held as the file needs; the end is in the last one;
-- the place of the last read is unset, or the chunk of its offset.
pub record IsJournal (p : MemJournal) : Type 0 where
  pub some_size : 0 < p.chunk_size
  pub sized : Sized p.chunk_size p.chunks
  pub enough : p.end_offset ≤ length p.chunks * p.chunk_size
  pub tight : length p.chunks * p.chunk_size < p.end_offset + p.chunk_size
  pub last : p.end_chunk ≡ last_place (length p.chunks)
  pub reader :
      (p.read_offset ≡ 0) ⊎ Points p.chunk_size (length p.chunks) p.read_chunk p.read_offset
