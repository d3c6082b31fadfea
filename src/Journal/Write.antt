-- ===== src/Journal/Write.antt =====
-- memjrnlWrite in memory (src/memjournal.c): a write at the end of the file puts the bytes behind it,
-- or reports that a chunk could not be allocated; the header is written in place.
use litebtree.Base.{
  ℕ, zero, suc, ◌+◌, ◌*◌, ◌≤◌, ◌<◌, ◌≡◌, ◌≢◌, refl, ap, sym, ◌∙◌, subst, arith, List, [], ◌∷◌, ◌++◌,
  Option, length, take, flat, patch, patch-take, Rc, ok, ℕ_discrete, dec_lt, take_all, length-take,
}
use litebtree.Journal.{MemJournal, copy_in, write_loop, write_in_memory, memjrnl_truncate}
use litebtree.Journal.Chunks.{
  Sized, no_chunks, flat-copy_in, Sized-copy_in, length-copy_in, length-flat,
}
use litebtree.Journal.State.{IsJournal, contents}
use litebtree.Journal.Truncate.{memjrnl_truncate-IsTruncated}
mod Piece
pub mod Loop
use litebtree.Journal.Write.Loop.{Allocates, IsAppended, write_loop-Appends}

pub length-contents : (p : MemJournal) → IsJournal p → length (contents p) ≡ p.end_offset
length-contents p j =
    let enough = j.enough in
    let l = length-flat p.chunk_size p.chunks j.sized in
    length-take p.end_offset (flat p.chunks) (omega arith)

module _ (malloc : ℕ → Option (List ℕ)) (p : MemJournal) (buf : List ℕ) where
  -- What a write that starts at an offset within the file, or at its end, promises: the bytes in
  -- front of the offset stay, those behind it are dropped, and the new ones follow.
  abbrev pub Overwrites : ℕ → Type 0
  Overwrites ofst =
      (rc : Rc) × (p₁ : MemJournal) × (p' : MemJournal) × (write_in_memory malloc p buf ofst
        ≡ (rc, p'))
      × (contents p₁ ≡ take ofst (contents p))
      × IsAppended malloc p₁ p' buf rc

  write-behind :
      (ofst : ℕ) (p' : MemJournal)
      → 0 < ofst
      → ofst ≢ p.end_offset
      → memjrnl_truncate p ofst ≡ (ok, p')
      → write_in_memory malloc p buf ofst ≡ write_loop (length buf) malloc p' buf
  unfolding write_in_memory
  write-behind ofst p' l n e = rw e (ground (arith, l, n))

  write-end :
      0 < p.end_offset
      → write_in_memory malloc p buf p.end_offset ≡ write_loop (length buf) malloc p buf
  unfolding write_in_memory
  write-end l = ground (arith, l)

  write-first :
      (ofst : ℕ)
      → ofst ≡ 0
      → length p.chunks ≡ 0
      → write_in_memory malloc p buf ofst ≡ write_loop (length buf) malloc p buf
  unfolding write_in_memory
  write-first ofst z e = ground (arith, z, e)

  write-header :
      length p.chunks ≢ 0
      → write_in_memory malloc p buf 0 ≡ (ok, record p { chunks = copy_in 0 0 buf p.chunks })
  unfolding write_in_memory
  write-header n = ground (arith, n)

  module _ (j : IsJournal p) (allocates : Allocates malloc p.chunk_size) where
    end_eq :
        (n : ℕ)
        → p.end_offset ≡ n
        → write_in_memory malloc p buf p.end_offset ≡ write_loop (length buf) malloc p buf
    end_eq (suc n) e = write-end (omega arith)
    end_eq zero e =
        let tight = j.tight in
        write-first p.end_offset e (ap length (no_chunks p.chunk_size p.chunks (omega arith)))

    at_end : Overwrites p.end_offset
    at_end =
        let (rc, p', e, r) =
          write_loop-Appends malloc (length buf) p buf j allocates (omega arith) in
        let l = length-contents p j in
        (
          rc,
          p,
          p',
          end_eq p.end_offset refl ∙ e,
          sym (take_all p.end_offset (contents p) (omega arith)),
          r,
        )

    -- If the state is an in-memory journal's, the allocator gives blocks of the chunk size, and
    -- the offset is at most the end of the file, and zero only for an empty file, then the bytes
    -- in front of the offset stay and the written ones follow: all of them with SQLITE_OK, or a
    -- first part of them with SQLITE_IOERR_NOMEM where the allocator failed. The invariant is kept
    -- in both cases.
    pub write_in_memory-Overwrites :
        (ofst : ℕ) → ofst ≤ p.end_offset → (ofst ≡ 0 → p.end_offset ≡ 0) → Overwrites ofst
    write_in_memory-Overwrites ofst le z = elim (ℕ_discrete ofst p.end_offset) [
      | yes e ↦ subst Overwrites (sym e) at_end
      | no n ↦
          let (p₁, t, j₁, s, c) = memjrnl_truncate-IsTruncated p j ofst in
          let (rc, p', e, r) =
            write_loop-Appends malloc (length buf) p₁ buf j₁ (rw s allocates) (omega arith) in
          (rc, p₁, p', write-behind ofst p₁ (some_offset ofst le z n) n t ∙ e, c, r)
    ]
      where
        some_offset :
            (ofst : ℕ)
            → ofst ≤ p.end_offset
            → (ofst ≡ 0 → p.end_offset ≡ 0)
            → ofst ≢ p.end_offset
            → 0 < ofst
        some_offset zero le z n = absurd (n (sym (z refl)))
        some_offset (suc m) le z n = omega arith

    header_written : MemJournal
    header_written = record p { chunks = copy_in 0 0 buf p.chunks }

    header-IsJournal : IsJournal header_written
    unfolding header_written
    header-IsJournal =
        let l = length-copy_in 0 0 buf p.chunks in
        record {
          some_size = j.some_size;
          sized = Sized-copy_in p.chunk_size 0 0 buf p.chunks j.sized;
          enough = rw l j.enough;
          tight = rw l j.tight;
          last = rw l j.last;
          reader = rw l j.reader;
        }

    header-contents :
        0 < length p.chunks
        → length buf ≤ p.end_offset
        → length buf ≤ p.chunk_size
        → contents header_written ≡ patch 0 buf (contents p)
    unfolding header_written
    header-contents l le room =
        let z : 0 * p.chunk_size + 0 ≡ 0 = omega arith in
        flat_eq (
          flat-copy_in p.chunk_size 0 0 buf p.chunks j.sized l (omega arith)
          ∙ ap (λ t. patch t buf (flat p.chunks)) z)
        ∙ patch-take p.end_offset buf (flat p.chunks) le
      where
        flat_eq :
            flat (copy_in 0 0 buf p.chunks) ≡ patch 0 buf (flat p.chunks)
            → contents (record p { chunks = copy_in 0 0 buf p.chunks })
              ≡ take p.end_offset (patch 0 buf (flat p.chunks))
        flat_eq e = ap (λ t. take p.end_offset t) e

    -- If the state is an in-memory journal's and its file is not empty, a write at offset zero of
    -- no more bytes than the file has and a chunk holds returns SQLITE_OK, replaces just the first
    -- bytes of the file, and keeps the invariant.
    pub write_in_memory-patch :
        0 < p.end_offset
        → length buf ≤ p.end_offset
        → length buf ≤ p.chunk_size
        → (p' : MemJournal) × (write_in_memory malloc p buf 0 ≡ (ok, p'))
          × IsJournal p'
          × (contents p' ≡ patch 0 buf (contents p))
    unfolding header_written
    write_in_memory-patch l le room =
        let some = has_chunks p.chunks j.enough in
        (
          header_written,
          write-header (λ z. let s : 0 < length p.chunks = some in omega arith),
          header-IsJournal,
          header-contents some le room,
        )
      where
        has_chunks : (cs : List (List ℕ)) → p.end_offset ≤ length cs * p.chunk_size → 0 < length cs
        has_chunks [] h = absurd (omega arith)
        has_chunks (c ∷ cs) h = omega arith
