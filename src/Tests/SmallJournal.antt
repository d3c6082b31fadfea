-- ===== src/Tests/SmallJournal.antt =====
-- A journal with chunks of 8 bytes: the methods of src/memjournal.c run on it, and the theorems about
-- them at it.
use litebtree.Base.{
  ℕ, zero, suc, ◌≡◌, refl, arith, List, [], ◌∷◌, ◌++◌, Option, some, none, Rc, ok, ioerr_nomem,
  short_read, take, drop, patch, inl, is_ok, true,
}
use litebtree.Journal.{
  MemJournal, on_disk, journal_open, seek_chunk, copy_out, start_chunk, memjrnl_read, cut_chunk,
  memjrnl_truncate, link_chunk, copy_piece, write_loop, write_in_memory, spill_loop,
  memjrnl_create_file, disk_write, memjrnl_write,
}
use litebtree.Journal.State.{IsJournal, contents}
use litebtree.Journal.Read.{memjrnl_read-contents}
use litebtree.Journal.Truncate.{IsTruncated, memjrnl_truncate-IsTruncated}
use litebtree.Journal.Write.{Overwrites, write_in_memory-Overwrites, write_in_memory-patch}
use litebtree.Journal.Write.Loop.{Allocates}
use litebtree.Journal.Spill.{overwritten, IsFile, IsSpilled, memjrnl_create_file-IsSpilled}
use litebtree.Journal.Spill.Whole.{HasBytes, memjrnl_write-HasBytes}

abbrev blank : List ℕ
blank = 99 ∷ 99 ∷ 99 ∷ 99 ∷ 99 ∷ 99 ∷ 99 ∷ 99 ∷ []

-- A malloc that has a block for every call, and one with a single block.
abbrev plenty : ℕ → Option (List ℕ)
plenty k = some blank

abbrev one_block : ℕ → Option (List ℕ)
one_block zero = some blank
one_block (suc k) = none

abbrev first_bytes : List ℕ
first_bytes = 1 ∷ 2 ∷ 3 ∷ 4 ∷ 5 ∷ []

abbrev more_bytes : List ℕ
more_bytes = 6 ∷ 7 ∷ 8 ∷ 9 ∷ 10 ∷ 11 ∷ []

program : Unit {0}
unfolding journal_open seek_chunk copy_out start_chunk memjrnl_read cut_chunk memjrnl_truncate
    link_chunk copy_piece write_loop write_in_memory spill_loop memjrnl_create_file disk_write
    memjrnl_write
program = tt

-- Eleven bytes in two chunks.
abbrev eleven : MemJournal
eleven = record {
  chunk_size = 8;
  spill = 8;
  chunks = (1 ∷ 2 ∷ 3 ∷ 4 ∷ 5 ∷ 6 ∷ 7 ∷ 8 ∷ []) ∷ (9 ∷ 10 ∷ 11 ∷ 99 ∷ 99 ∷ 99 ∷ 99 ∷ 99 ∷ []) ∷ [];
  end_offset = 11;
  end_chunk = some 1;
  read_offset = 0;
  read_chunk = none;
}

writes :
    write_in_memory plenty (write_in_memory plenty (journal_open 8) first_bytes 0).1 more_bytes 5
    ≡ (ok, eleven)
unfolding program
writes = refl

no_memory :
    (write_in_memory one_block
      (write_in_memory plenty (journal_open 8) first_bytes 0).1
      more_bytes
      5).0
    ≡ ioerr_nomem
unfolding program
no_memory = refl

reads : (memjrnl_read eleven 4 6).1 ≡ 7 ∷ 8 ∷ 9 ∷ 10 ∷ []
unfolding program
reads = refl

reads_past_end : memjrnl_read eleven 4 8 ≡ (short_read, [], eleven)
unfolding program
reads_past_end = refl

eleven-IsJournal : IsJournal eleven
eleven-IsJournal = record {
  some_size = omega arith;
  sized = (refl, (refl, tt));
  enough = omega arith;
  tight = omega arith;
  last = refl;
  reader = inl refl;
}

plenty-Allocates : Allocates plenty 8
plenty-Allocates k c h = let e : blank ≡ c = cc in rw (← e) refl

memjrnl_read-contents_example :
    (p' : MemJournal) × (memjrnl_read eleven 4 6 ≡ (ok, take 4 (drop 6 (contents eleven)), p'))
    × IsJournal p'
    × (contents p' ≡ contents eleven)
memjrnl_read-contents_example =
    memjrnl_read-contents eleven 4 6 eleven-IsJournal (omega arith) (omega arith)

memjrnl_truncate-IsTruncated_example : IsTruncated eleven eleven-IsJournal 8
memjrnl_truncate-IsTruncated_example = memjrnl_truncate-IsTruncated eleven eleven-IsJournal 8

write_in_memory-Overwrites_example : Overwrites plenty eleven more_bytes 9
write_in_memory-Overwrites_example =
    write_in_memory-Overwrites plenty eleven more_bytes eleven-IsJournal plenty-Allocates 9
      (omega arith) (λ z. absurd (omega arith))

write_in_memory-patch_example :
    (p' : MemJournal) × (write_in_memory plenty eleven first_bytes 0 ≡ (ok, p'))
    × IsJournal p'
    × (contents p' ≡ patch 0 first_bytes (contents eleven))
write_in_memory-patch_example =
    write_in_memory-patch plenty eleven first_bytes eleven-IsJournal plenty-Allocates (omega arith)
      (omega arith) (omega arith)

-- A file in memory, whose writes succeed, and an opened one that has four bytes in it.
abbrev file_write : List ℕ → List ℕ → ℕ → Rc × List ℕ
file_write f buf ofst = (ok, overwritten ofst buf f)

file_write-IsFile : IsFile file_write (λ f. f)
file_write-IsFile = record { write = λ f buf ofst l h. refl }

abbrev reused : Rc × List ℕ
reused = (ok, 50 ∷ 51 ∷ 52 ∷ 53 ∷ [])

spills : memjrnl_create_file reused file_write eleven ≡ (ok, on_disk (contents eleven))
unfolding program
spills = refl

memjrnl_create_file-IsSpilled_example :
    IsSpilled reused file_write (λ f. f) file_write-IsFile eleven eleven-IsJournal
memjrnl_create_file-IsSpilled_example =
    memjrnl_create_file-IsSpilled reused file_write (λ f. f) file_write-IsFile eleven
      eleven-IsJournal

all_written : is_ok (memjrnl_write reused file_write plenty eleven more_bytes 11).0 ≡ true
unfolding program
all_written = refl

memjrnl_write-HasBytes_example :
    HasBytes
      (λ f. f)
      (50 ∷ 51 ∷ 52 ∷ 53 ∷ [])
      (contents eleven ++ more_bytes)
      (memjrnl_write reused file_write plenty eleven more_bytes 11).1
memjrnl_write-HasBytes_example =
    memjrnl_write-HasBytes reused file_write (λ f. f) file_write-IsFile plenty eleven more_bytes
      eleven-IsJournal plenty-Allocates all_written
