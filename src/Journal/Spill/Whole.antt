-- ===== src/Journal/Spill/Whole.antt =====
-- memjrnlWrite (src/memjournal.c) as a whole: in memory, or into the real file that it spills to.
use litebtree.Base.{
  ℕ, ◌+◌, ◌<◌, ◌≡◌, refl, ap, sym, ◌∙◌, subst, arith, List, ◌++◌, length, drop, length-append, ◌⊎◌,
  inl, inr, Rc, is_ok, Bool, true, false, Option, dec_lt, take_all,
}
use litebtree.Journal.{
  MemJournal, Handle, in_memory, on_disk, memjrnl_create_file, memjrnl_write, disk_write,
  write_in_memory,
}
use litebtree.Journal.Write.{Overwrites, write_in_memory-Overwrites, length-contents}
use litebtree.Journal.Write.Loop.{Allocates}
use litebtree.Journal.State.{IsJournal, contents}
use litebtree.Journal.Spill.{
  overwritten, overwritten-front, IsFile, IsSpilled, memjrnl_create_file-IsSpilled,
}

not_both : {b : Bool} → b ≡ true → b ≡ false → ⊥
not_both p q = cc

-- A journal has just these bytes, and a real file has them in front, with the rest of what it was.
abbrev pub HasBytes : {F : Type 0} → (F → List ℕ) → List ℕ → List ℕ → Handle F → Type 0
HasBytes bytes old xs (in_memory p) = contents p ≡ xs
HasBytes bytes old xs (on_disk f) = bytes f ≡ xs ++ drop (length xs) old

module _ {F : Type 0} (os_open : Rc × F) (os_write : F → List ℕ → ℕ → Rc × F) (bytes : F → List ℕ)
    (file : IsFile os_write bytes) where
  -- The whole write, by where it goes.
  module _ (malloc : ℕ → Option (List ℕ)) (p : MemJournal) (buf : List ℕ) (ofst : ℕ) where
    memjrnl_write-spill :
        0 < p.spill
        → p.spill < length buf + ofst
        → memjrnl_write os_open os_write malloc p buf ofst
          ≡ disk_write os_open os_write (memjrnl_create_file os_open os_write p) buf ofst
    unfolding memjrnl_write
    memjrnl_write-spill some over = ground (arith, some, over)

    memjrnl_write-stay :
        (¬ (0 < p.spill)) ⊎ (¬ (p.spill < length buf + ofst))
        → memjrnl_write os_open os_write malloc p buf ofst
          ≡ ((write_in_memory malloc p buf ofst).0, in_memory (write_in_memory malloc p buf ofst).1)
    unfolding memjrnl_write
    memjrnl_write-stay (inl n) = ground (arith, n)
    memjrnl_write-stay (inr n) = ground (arith, n)

  module _ (malloc : ℕ → Option (List ℕ)) (p : MemJournal) (buf : List ℕ) (j : IsJournal p)
      (allocates : Allocates malloc p.chunk_size) where
    abbrev old : List ℕ
    old = bytes os_open.1

    -- A write that succeeds puts the bytes behind those of the journal.
    abbrev Continues : Rc × Handle F → Type 0
    Continues r = is_ok r.0 ≡ true → HasBytes bytes old (contents p ++ buf) r.1

    overwritten-end :
        (file_bytes : List ℕ)
        → file_bytes ≡ contents p ++ drop p.end_offset old
        → overwritten p.end_offset buf file_bytes
          ≡ (contents p ++ buf) ++ drop (length (contents p ++ buf)) old
    overwritten-end file_bytes e =
        let l = length-contents p j in
        let both = length-append (contents p) buf in
        let n : length (contents p ++ buf) ≡ p.end_offset + length buf = omega arith in
        rw (e, n)
          (overwritten-front os_open os_write bytes file (contents p) buf p.end_offset (length buf)
            l refl)

    disk_write-Continues :
        IsSpilled os_open os_write bytes file p j
        → Continues
            (disk_write os_open os_write (memjrnl_create_file os_open os_write p) buf p.end_offset)
    unfolding disk_write
    disk_write-Continues (inr (rc, bad, e)) = rw e (λ good. absurd (not_both good bad))
    disk_write-Continues (inl (f, e, same)) =
        let l = length-contents p j in
        let lf = ap length same in
        let la = length-append (contents p) (drop p.end_offset old) in
        rw e (λ good.
          file.write f buf p.end_offset (omega arith) good ∙ overwritten-end (bytes f) same)

    stay-Continues :
        Overwrites malloc p buf p.end_offset
        → Continues (
          (write_in_memory malloc p buf p.end_offset).0,
          in_memory (write_in_memory malloc p buf p.end_offset).1,
        )
    stay-Continues (rc, p₁, p', e, front, r) = rw e (λ good. elim r.outcome [
      | inr (bad, k, fails) ↦ absurd (not_both good (ap is_ok bad))
      | inl (fine, all) ↦
          let l = length-contents p j in
          r.bytes
          ∙ rw (front, take_all p.end_offset (contents p) (omega arith), take_all r.count buf all)
              refl
    ])

    -- If the state is an in-memory journal's, the allocator gives blocks of the chunk size, and a
    -- write that succeeds at an offset not behind the end of the real file puts its bytes there
    -- and leaves the rest, then a memjrnlWrite at the end that returns SQLITE_OK leaves the bytes
    -- of the journal with the written ones behind them: a journal in memory has just these, and
    -- the real file that it was spilled to has them in front and, behind them, what the opened
    -- file had there.
    pub memjrnl_write-HasBytes :
        is_ok (memjrnl_write os_open os_write malloc p buf p.end_offset).0 ≡ true
        → HasBytes bytes
            (bytes os_open.1)
            (contents p ++ buf)
            (memjrnl_write os_open os_write malloc p buf p.end_offset).1
    memjrnl_write-HasBytes =
        let stay = stay-Continues (
          write_in_memory-Overwrites malloc p buf j allocates p.end_offset (omega arith)
            (λ z. z)) in
        elim (dec_lt 0 p.spill) [
          | no n ↦ subst Continues (sym (memjrnl_write-stay malloc p buf p.end_offset (inl n))) stay
          | yes y ↦ elim (dec_lt p.spill (length buf + p.end_offset)) [
            | no n ↦
                subst Continues (sym (memjrnl_write-stay malloc p buf p.end_offset (inr n))) stay
            | yes over ↦
                subst Continues (sym (memjrnl_write-spill malloc p buf p.end_offset y over)) (
                  disk_write-Continues
                    (memjrnl_create_file-IsSpilled os_open os_write bytes file p j))
          ]
        ]
