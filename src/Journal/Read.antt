-- ===== src/Journal/Read.antt =====
-- memjrnlRead (src/memjournal.c) gives the bytes of the file at an offset, whatever chunk it starts
-- from, and leaves the place for the next read.
use litebtree.Base.{
  ℕ, zero, suc, ◌+◌, ◌-◌, ◌*◌, ◌%◌, ◌≤◌, ◌<◌, ◌≡◌, refl, ap, sym, ◌∙◌, subst, arith, List, Option,
  none, some, length, take, drop, flat, ◌⊎◌, inl, inr, Rc, ok, short_read, dec_lt, ℕ_discrete,
  take-drop-take, drop-add, length-drop,
}
use litebtree.Journal.{
  MemJournal, seek_chunk, copy_out, start_chunk, memjrnl_read, chunks_from, place, from_or_zero,
}
use litebtree.Journal.Chunks.{Sized, add_mul, sub_mul, flat-drop, Sized-drop, rem_place}
use litebtree.Journal.State.{Points, IsJournal, contents}
mod Copy
use litebtree.Journal.Read.Copy.{Ends, copy_out_lem, seek_chunk_lem}

start_chunk-Points :
    (p : MemJournal) (ofst : ℕ)
    → IsJournal p
    → ofst < p.end_offset
    → Points p.chunk_size (length p.chunks) (start_chunk p ofst) ofst
unfolding start_chunk
start_chunk-Points p ofst j l =
    let enough = j.enough in
    let (d, e, i, f, t) =
      seek_chunk_lem p.chunk_size j.some_size ofst 0 0 p.chunks (omega arith) (omega arith) in
    let there : 0 + d ≡ d = omega arith in
    let sought : Points p.chunk_size (length p.chunks) (seek_chunk p.chunk_size ofst 0 0 p.chunks)
        ofst =
      record {
        at = d;
        there = e ∙ ap some there;
        inside = i;
        from = omega arith;
        to = omega arith;
      } in
    elim (ℕ_discrete ofst 0) [
      | yes z ↦
          let eq : start_chunk p ofst ≡ seek_chunk p.chunk_size ofst 0 0 p.chunks =
            ground (arith, z) in
          rw eq sought
      | no z ↦ elim (ℕ_discrete p.read_offset ofst) [
        | no n ↦
            let eq : start_chunk p ofst ≡ seek_chunk p.chunk_size ofst 0 0 p.chunks =
              ground (arith, n) in
            rw eq sought
        | yes same ↦ elim j.reader [
          | inl zero_read ↦ absurd (z (sym same ∙ zero_read))
          | inr points ↦
              let eq : start_chunk p ofst ≡ p.read_chunk = ground (arith, z, same) in
              rw eq (subst (Points p.chunk_size (length p.chunks) p.read_chunk) same points)
        ]
      ]
    ]

not_none : {k : ℕ} → none ≡ some k → ⊥
not_none e = cc

-- The state behind a read.
abbrev after_read : MemJournal → ℕ → Option ℕ → MemJournal
after_read p offset k = record p { read_offset = from_or_zero k offset; read_chunk = k }

moved-IsJournal :
    (p : MemJournal) (offset : ℕ) (k : Option ℕ)
    → IsJournal p
    → (offset ≡ 0) ⊎ Points p.chunk_size (length p.chunks) k offset
    → IsJournal (record p { read_offset = offset; read_chunk = k })
moved-IsJournal p offset k j reader = record {
  some_size = j.some_size;
  sized = j.sized;
  enough = j.enough;
  tight = j.tight;
  last = j.last;
  reader = reader;
}

after_read-IsJournal :
    (p : MemJournal) (k pos reach : ℕ) (r : Option ℕ)
    → IsJournal p
    → k < length p.chunks
    → Ends p.chunk_size k (length p.chunks - k) pos r
    → reach ≡ k * p.chunk_size + pos
    → IsJournal (after_read p reach r)
after_read-IsJournal p k pos reach none j l ends e = moved-IsJournal p 0 none j (inl refl)
after_read-IsJournal p k pos reach (some r) j l (inl bad) e = absurd (not_none (sym bad))
after_read-IsJournal p k pos reach (some r) j l (inr (d, there, i, f, t)) e =
    let m = add_mul k d p.chunk_size in
    moved-IsJournal p reach (some r) j (
      inr (record {
        at = k + d;
        there = there;
        inside = omega arith;
        from = omega arith;
        to = omega arith;
      }))

module _ (p : MemJournal) (amt ofst : ℕ) (j : IsJournal p) (some_bytes : 0 < amt)
    (inside : amt + ofst ≤ p.end_offset) where
  memjrnl_read_eq :
      (k : ℕ)
      → start_chunk p ofst ≡ some k
      → memjrnl_read p amt ofst ≡ (
        ok,
        (copy_out p.chunk_size k (ofst % p.chunk_size) amt (drop k p.chunks)).0,
        after_read p
            (ofst + amt)
            (copy_out p.chunk_size k (ofst % p.chunk_size) amt (drop k p.chunks)).1,
      )
  unfolding memjrnl_read
  memjrnl_read_eq k e = rw e (ground (arith, inside))

  bytes_eq :
      (k pos : ℕ)
      → k < length p.chunks
      → ofst ≡ k * p.chunk_size + pos
      → take amt (drop pos (flat (drop k p.chunks))) ≡ take amt (drop ofst (contents p))
  bytes_eq k pos l e =
      let flattened = flat-drop p.chunk_size k p.chunks j.sized (omega arith) in
      let moved = drop-add (k * p.chunk_size) pos (flat p.chunks) in
      let front = take-drop-take amt ofst p.end_offset (flat p.chunks) inside in
      rw (flattened, ← moved, ← e) (sym front)

  -- If the state is an in-memory journal's, and at least one byte is read from a range within the
  -- file, memjrnlRead returns SQLITE_OK and the bytes of that range; the file stays the same, and
  -- so does the invariant, with the place of the read updated.
  pub memjrnl_read-contents :
      (p' : MemJournal) × (memjrnl_read p amt ofst ≡ (ok, take amt (drop ofst (contents p)), p'))
      × IsJournal p'
      × (contents p' ≡ contents p)
  memjrnl_read-contents =
      let points = start_chunk-Points p ofst j (omega arith) in
      let k = points.at in
      let pos = ofst - k * p.chunk_size in
      let e : ofst ≡ k * p.chunk_size + pos = let f = points.from in omega arith in
      let small : pos < p.chunk_size = let t = points.to in omega arith in
      let rem : ofst % p.chunk_size ≡ pos =
        ap (λ t. t % p.chunk_size) e ∙ rem_place p.chunk_size k pos small in
      let enough = j.enough in
      let inside' = points.inside in
      let there = length-drop k p.chunks in
      let m = sub_mul k (length p.chunks) p.chunk_size (omega arith) in
      let m' = ap (λ t. t * p.chunk_size) there in
      let (got, ends) =
        copy_out_lem p.chunk_size j.some_size k pos amt (drop k p.chunks)
          (Sized-drop p.chunk_size k p.chunks j.sized) small some_bytes (omega arith) in
      let eq = memjrnl_read_eq k points.there in
      (
        after_read p (ofst + amt) (copy_out p.chunk_size k pos amt (drop k p.chunks)).1,
        eq ∙ rw (rem, got, bytes_eq k pos inside' e) refl,
        after_read-IsJournal p k (pos + amt) (ofst + amt) _ j inside' (rw (← there) ends)
            (omega arith),
        refl,
      )
