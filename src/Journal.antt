-- ===== src/Journal.antt =====
-- The in-memory journal (src/memjournal.c): a list of chunks of one size that is written at its end,
-- truncated, read from any offset, and spilled to a real file when it grows too large.
use litebtree.Base.{
  ℕ, zero, suc, ◌+◌, ◌-◌, ◌*◌, ◌%◌, List, [], ◌∷◌, ◌++◌, Option, none, some, Rc, ok, ioerr_nomem,
  short_read, if◌then◌else◌, ltb, leb, ◌==◌, not, ◌||◌, ◌&&◌, length, take, drop, patch, min, is_ok,
}
pub mod Chunks
pub mod State
pub mod Read
pub mod Write
pub mod Truncate
pub mod Spill

-- A FileChunk pointer is the place of the chunk in the list, and none is the null pointer.
pub record MemJournal : Type 0 where
  pub chunk_size : ℕ
  pub spill : ℕ
  pub chunks : List (List ℕ)
  pub end_offset : ℕ
  pub end_chunk : Option ℕ
  pub read_offset : ℕ
  pub read_chunk : Option ℕ

-- sqlite3JournalOpen with an nSpill above zero, or with a negative one (spill is then 0: never).
unfoldable pub journal_open : ℕ → MemJournal
journal_open spill = record {
  chunk_size = if ltb 0 spill then spill else 1016;
  spill = spill;
  chunks = [];
  end_offset = 0;
  end_chunk = none;
  read_offset = 0;
  read_chunk = none;
}

-- The loop that finds the chunk of an offset, at the chunk k with iOff bytes in front of it.
unfoldable pub seek_chunk : ℕ → ℕ → ℕ → ℕ → List (List ℕ) → Option ℕ
seek_chunk size ofst off k [] = none
seek_chunk size ofst off k (c ∷ cs) =
    let rest = seek_chunk size ofst (off + size) (suc k) cs in
    if leb (off + size) ofst then rest else some k

abbrev pub chunks_from : List (List ℕ) → Option ℕ → List (List ℕ)
chunks_from cs none = []
chunks_from cs (some k) = drop k cs

abbrev pub next_chunk : ℕ → List (List ℕ) → Option ℕ
next_chunk k [] = none
next_chunk k (c ∷ cs) = some (suc k)

abbrev pub place : Option ℕ → ℕ
place none = 0
place (some k) = k

abbrev pub from_or_zero : Option ℕ → ℕ → ℕ
from_or_zero none n = 0
from_or_zero (some k) n = n

-- The copy loop of memjrnlRead at the chunk k, first of the rest of the list: the bytes copied, and
-- the chunk that the loop ends at.
unfoldable pub copy_out : ℕ → ℕ → ℕ → ℕ → List (List ℕ) → List ℕ × Option ℕ
copy_out size k pos n [] = ([], none)
copy_out size k pos n (c ∷ cs) =
    let rest = copy_out size (suc k) 0 (n - (size - pos)) cs in
    let got = take (min n (size - pos)) (drop pos c) in
    if ltb n (size - pos)
    then (got, some k)
    else if n == size - pos
    then (got, next_chunk k cs)
    else (got ++ rest.0, rest.1)

unfoldable pub start_chunk : MemJournal → ℕ → Option ℕ
unfolding seek_chunk
start_chunk p ofst =
    if not (p.read_offset == ofst) || ofst == 0
    then seek_chunk p.chunk_size ofst 0 0 p.chunks
    else p.read_chunk

unfoldable pub memjrnl_read : MemJournal → ℕ → ℕ → Rc × List ℕ × MemJournal
unfolding copy_out start_chunk
memjrnl_read p amt ofst =
    let k = start_chunk p ofst in
    let r = copy_out p.chunk_size (place k) (ofst % p.chunk_size) amt (chunks_from p.chunks k) in
    if ltb p.end_offset (amt + ofst)
    then (short_read, [], p)
    else (ok, r.0, record p { read_offset = from_or_zero r.1 (ofst + amt); read_chunk = r.1 })

-- The loop of memjrnlTruncate at the chunk k, with iOff bytes up to its end: the chunk that is kept
-- last.
unfoldable pub cut_chunk : ℕ → ℕ → ℕ → ℕ → List (List ℕ) → Option ℕ
cut_chunk size limit off k [] = none
cut_chunk size limit off k (c ∷ cs) =
    let rest = cut_chunk size limit (off + size) (suc k) cs in
    if ltb off limit then rest else some k

-- The list with nothing behind a chunk; the whole list where the loop ran off its end.
abbrev pub chunks_to : List (List ℕ) → Option ℕ → List (List ℕ)
chunks_to cs none = cs
chunks_to cs (some k) = take (suc k) cs

unfoldable pub memjrnl_truncate : MemJournal → ℕ → Rc × MemJournal
unfolding cut_chunk
memjrnl_truncate p size =
    let k = if size == 0 then none else cut_chunk p.chunk_size size p.chunk_size 0 p.chunks in
    if ltb size p.end_offset
    then (
      ok,
      record p {
        chunks = if size == 0 then [] else chunks_to p.chunks k;
        end_chunk = k;
        end_offset = size;
        read_chunk = none;
        read_offset = 0;
      },
    )
    else (ok, p)

-- memcpy into the chunk k.
abbrev pub copy_in : ℕ → ℕ → List ℕ → List (List ℕ) → List (List ℕ)
copy_in k pos src [] = []
copy_in zero pos src (c ∷ cs) = patch pos src c ∷ cs
copy_in (suc k) pos src (c ∷ cs) = c ∷ copy_in k pos src cs

-- A new chunk behind the last one.
unfoldable pub link_chunk : MemJournal → List ℕ → MemJournal
link_chunk p c = elim p.end_chunk [
  | none ↦ record p { chunks = c ∷ []; end_chunk = some 0 }
  | some k ↦ record p { chunks = take (suc k) p.chunks ++ (c ∷ []); end_chunk = some (suc k) }
]

-- The copy of one round of the write loop, into the chunk that the end of the file is in.
unfoldable pub copy_piece : MemJournal → ℕ → List ℕ → MemJournal
copy_piece p pos piece = record p {
  chunks = copy_in (place p.end_chunk) pos piece p.chunks;
  end_offset = p.end_offset + length piece;
}

-- The write loop, with as much fuel as there are bytes. The memory allocator says for each place in
-- the list what block the chunk gets, if any.
unfoldable pub write_loop : ℕ → (ℕ → Option (List ℕ)) → MemJournal → List ℕ → Rc × MemJournal
unfolding link_chunk copy_piece
write_loop zero malloc p buf = (ok, p)
write_loop (suc fuel) malloc p buf =
    let pos = p.end_offset % p.chunk_size in
    let space = min (length buf) (p.chunk_size - pos) in
    let again = λ (q : MemJournal).
      write_loop fuel malloc (copy_piece q pos (take space buf)) (drop space buf) in
    if length buf == 0
    then (ok, p)
    else if pos == 0
    then elim (malloc (length p.chunks)) [
      | none ↦ (ioerr_nomem, p)
      | some c ↦ again (link_chunk p c)
    ]
    else again p

-- memjrnlWrite where the file is not to be created.
unfoldable pub write_in_memory : (ℕ → Option (List ℕ)) → MemJournal → List ℕ → ℕ → Rc × MemJournal
unfolding write_loop memjrnl_truncate
write_in_memory malloc p₀ buf ofst =
    let p =
      if ltb 0 ofst && not (ofst == p₀.end_offset) then (memjrnl_truncate p₀ ofst).1 else p₀ in
    if ofst == 0 && not (length p.chunks == 0)
    then (ok, record p { chunks = copy_in 0 0 buf p.chunks })
    else write_loop (length buf) malloc p buf

-- A journal that is in memory, or the real file that it was spilled to.
pub data Handle (F : Type 0) : Type 0 where
  in_memory : MemJournal → Handle F
  on_disk : F → Handle F

-- A real file of the operating system: sqlite3OsOpen, and sqlite3OsWrite of bytes at an offset.
module _ {F : Type 0} (os_open : Rc × F) (os_write : F → List ℕ → ℕ → Rc × F) where
  -- The loop of memjrnlCreateFile over the chunks. The size of a piece is lowered at the last one.
  unfoldable pub spill_loop : ℕ → ℕ → ℕ → List (List ℕ) → F → Rc × F
  spill_loop end n off [] f = (ok, f)
  spill_loop end n₀ off (c ∷ cs) f =
      let n = if ltb end (off + n₀) then end - off else n₀ in
      let r = os_write f (take n c) off in
      let rest = spill_loop end n (off + n) cs r.1 in if is_ok r.0 then rest else r

  unfoldable pub memjrnl_create_file : MemJournal → Rc × Handle F
  unfolding spill_loop
  memjrnl_create_file p =
      let r = spill_loop p.end_offset p.chunk_size 0 p.chunks os_open.1 in
      if is_ok os_open.0
      then (if is_ok r.0 then (ok, on_disk r.1) else (r.0, in_memory p))
      else (os_open.0, in_memory p)

  unfoldable pub disk_write : Rc × Handle F → List ℕ → ℕ → Rc × Handle F
  disk_write (rc, in_memory p) buf ofst = (rc, in_memory p)
  disk_write (rc, on_disk f) buf ofst = let r = os_write f buf ofst in (r.0, on_disk r.1)

  unfoldable pub memjrnl_write : (ℕ → Option (List ℕ)) → MemJournal → List ℕ → ℕ → Rc × Handle F
  unfolding memjrnl_create_file disk_write write_in_memory
  memjrnl_write malloc p buf ofst =
      let r = write_in_memory malloc p buf ofst in
      if ltb 0 p.spill && ltb p.spill (length buf + ofst)
      then disk_write (memjrnl_create_file p) buf ofst
      else (r.0, in_memory r.1)
