-- ===== src/Journal/Write/Loop.antt =====
-- The write loop of memjrnlWrite (src/memjournal.c) puts the bytes behind those of the file, or as
-- many of them as there was memory for.
use litebtree.Base.{
  ℕ, zero, suc, ◌+◌, ◌-◌, ◌%◌, ◌≤◌, ◌≡◌, ◌≢◌, refl, ap, sym, ◌∙◌, subst, arith, List, ◌++◌, Option,
  none, some, length, take, drop, ◌⊎◌, inl, inr, ℕ_discrete, min, Option-cases, Rc, ok, ioerr_nomem,
  append_assoc, append_nil, take-add, length-take, length-drop,
}
use native.Mathlib.Nat.{mod-lt}
use litebtree.Journal.{MemJournal, copy_piece, link_chunk, write_loop}
use litebtree.Journal.State.{IsJournal, contents}
use litebtree.Journal.Write.Piece.{
  Ready, chunks-Ready, linked, link_chunk-linked, linked-Ready, linked-contents,
  copy_piece-contents, copy_piece-IsJournal,
}

-- What the memory allocator gives is a block of the size asked for.
abbrev pub Allocates : (ℕ → Option (List ℕ)) → ℕ → Type 0
Allocates malloc size = (k : ℕ) (c : List ℕ) → malloc k ≡ some c → length c ≡ size

-- The end of a write at the end of the file: all the bytes, or as many as there was memory for.
pub record IsAppended (malloc : ℕ → Option (List ℕ)) (p p' : MemJournal) (buf : List ℕ) (rc : Rc)
    : Type 0 where
  pub count : ℕ
  pub journal : IsJournal p'
  pub same_size : p'.chunk_size ≡ p.chunk_size
  pub bytes : contents p' ≡ contents p ++ take count buf
  pub outcome :
      ((rc ≡ ok) × (length buf ≤ count)) ⊎ ((rc ≡ ioerr_nomem) × (k : ℕ) × (malloc k ≡ none))

module _ (malloc : ℕ → Option (List ℕ)) where
  -- The bytes that the round writes.
  abbrev space_of : MemJournal → List ℕ → ℕ
  space_of p buf = min (length buf) (p.chunk_size - p.end_offset % p.chunk_size)

  abbrev next_state : MemJournal → MemJournal → List ℕ → MemJournal
  next_state p q buf = copy_piece q (p.end_offset % p.chunk_size) (take (space_of p buf) buf)

  module _ (fuel : ℕ) (p : MemJournal) (buf : List ℕ) where
    write_loop-done : length buf ≡ 0 → write_loop (suc fuel) malloc p buf ≡ (ok, p)
    unfolding write_loop
    write_loop-done e = ground (arith, e)

    write_loop-stop :
        length buf ≢ 0
        → p.end_offset % p.chunk_size ≡ 0
        → malloc (length p.chunks) ≡ none
        → write_loop (suc fuel) malloc p buf ≡ (ioerr_nomem, p)
    unfolding write_loop
    write_loop-stop n z e = rw e (ground (arith, n, z))

    write_loop-new :
        (c : List ℕ)
        → length buf ≢ 0
        → p.end_offset % p.chunk_size ≡ 0
        → malloc (length p.chunks) ≡ some c
        → write_loop (suc fuel) malloc p buf
          ≡ write_loop fuel malloc (next_state p (link_chunk p c) buf) (drop (space_of p buf) buf)
    unfolding write_loop
    write_loop-new c n z e = rw e (ground (arith, n, z))

    write_loop-old :
        length buf ≢ 0
        → p.end_offset % p.chunk_size ≢ 0
        → write_loop (suc fuel) malloc p buf
          ≡ write_loop fuel malloc (next_state p p buf) (drop (space_of p buf) buf)
    unfolding write_loop
    write_loop-old n z = ground (arith, n, z)

  -- A round that wrote into the state q, followed by the rest of the loop.
  prepend-IsAppended :
      (p q p' : MemJournal) (buf : List ℕ) (rc : Rc)
      → q.chunk_size ≡ p.chunk_size
      → contents (next_state p q buf) ≡ contents p ++ take (space_of p buf) buf
      → space_of p buf ≤ length buf
      → IsAppended malloc (next_state p q buf) p' (drop (space_of p buf) buf) rc
      → IsAppended malloc p p' buf rc
  unfolding copy_piece
  prepend-IsAppended p q p' buf rc same bytes le rest =
      let space = space_of p buf in
      record {
        count = space + rest.count;
        journal = rest.journal;
        same_size = rest.same_size ∙ same;
        bytes =
            rest.bytes
            ∙ rw (bytes, take-add space rest.count buf)
                (append_assoc (contents p) (take space buf) (take rest.count (drop space buf)));
        outcome = whole rest.outcome;
      }
    where
      whole :
          ((rc ≡ ok) × (length (drop (space_of p buf) buf) ≤ rest.count))
            ⊎ ((rc ≡ ioerr_nomem) × (k : ℕ) × (malloc k ≡ none))
          → ((rc ≡ ok) × (length buf ≤ space_of p buf + rest.count))
            ⊎ ((rc ≡ ioerr_nomem) × (k : ℕ) × (malloc k ≡ none))
      whole (inr e) = inr e
      whole (inl (e, l)) = let d = length-drop (space_of p buf) buf in inl (e, omega arith)

  -- What the loop is to give.
  abbrev pub Appends : ℕ → MemJournal → List ℕ → Type 0
  Appends fuel p buf =
      (rc : Rc) × (p' : MemJournal) × (write_loop fuel malloc p buf ≡ (rc, p'))
      × IsAppended malloc p p' buf rc

  -- A round, for a state with room for the next byte.
  round-Appends :
      (fuel : ℕ) (p q : MemJournal) (buf : List ℕ)
      → length buf ≢ 0
      → Ready q (p.end_offset % p.chunk_size)
      → q.chunk_size ≡ p.chunk_size
      → contents q ≡ contents p
      → write_loop (suc fuel) malloc p buf
        ≡ write_loop fuel malloc (next_state p q buf) (drop (space_of p buf) buf)
      → (IsJournal (next_state p q buf)
          → Appends fuel (next_state p q buf) (drop (space_of p buf) buf))
      → Appends (suc fuel) p buf
  round-Appends fuel p q buf n ready same kept step next =
      let small = ready.small in
      let l = length-take (space_of p buf) buf (omega arith) in
      let room : p.end_offset % p.chunk_size + length (take (space_of p buf) buf) ≤ q.chunk_size =
        omega arith in
      let piece = take (space_of p buf) buf in
      let (rc, p', e, rest) =
        next
          (copy_piece-IsJournal q (p.end_offset % p.chunk_size) ready piece room (omega arith)) in
      (
        rc,
        p',
        step ∙ e,
        prepend-IsAppended p q p' buf rc same
            (copy_piece-contents q (p.end_offset % p.chunk_size) ready piece room
              ∙ ap (λ t. t ++ piece) kept)
            (omega arith) rest,
      )

  stopped-IsAppended :
      (p : MemJournal) (buf : List ℕ) (rc : Rc)
      → IsJournal p
      → ((rc ≡ ok) × (length buf ≤ 0)) ⊎ ((rc ≡ ioerr_nomem) × (k : ℕ) × (malloc k ≡ none))
      → IsAppended malloc p p buf rc
  stopped-IsAppended p buf rc j out = record {
    count = 0;
    journal = j;
    same_size = refl;
    bytes = sym (append_nil (contents p));
    outcome = out;
  }

  next-Allocates :
      (p q : MemJournal) (buf : List ℕ)
      → q.chunk_size ≡ p.chunk_size
      → Allocates malloc p.chunk_size
      → Allocates malloc (next_state p q buf).chunk_size
  unfolding copy_piece
  next-Allocates p q buf e a k c h = a k c h ∙ sym e

  shrinks :
      (fuel : ℕ) (p : MemJournal) (buf : List ℕ)
      → IsJournal p
      → length buf ≢ 0
      → length buf ≤ suc fuel
      → length (drop (space_of p buf) buf) ≤ fuel
  shrinks fuel p buf j n le =
      let d = length-drop (space_of p buf) buf in
      let small = mod-lt p.end_offset j.some_size in omega arith

  -- As much fuel as there are bytes is enough.
  pub write_loop-Appends :
      (fuel : ℕ) (p : MemJournal) (buf : List ℕ)
      → IsJournal p
      → Allocates malloc p.chunk_size
      → length buf ≤ fuel
      → Appends fuel p buf
  write_loop-Appends zero p buf j a le =
      (ok, p, unfold write_loop in refl, stopped-IsAppended p buf ok j (inl (refl, le)))
  write_loop-Appends (suc fuel) p buf j a le = elim (ℕ_discrete (length buf) 0) [
    | yes z ↦ (
      ok,
      p,
      write_loop-done fuel p buf z,
      stopped-IsAppended p buf ok j (inl (refl, omega arith)),
    )
    | no n ↦ elim (ℕ_discrete (p.end_offset % p.chunk_size) 0) [
      | yes z ↦ elim (Option-cases (malloc (length p.chunks))) [
        | inl fails ↦ (
          ioerr_nomem,
          p,
          write_loop-stop fuel p buf n z fails,
          stopped-IsAppended p buf ioerr_nomem j (inr (refl, length p.chunks, fails)),
        )
        | inr (c, gives) ↦
            let step = write_loop-new fuel p buf c n z gives in
            let at_zero = linked-Ready p c j z (a (length p.chunks) c gives) in
            let step' =
              subst
                (λ q.
                  write_loop (suc fuel) malloc p buf
                  ≡ write_loop fuel malloc (next_state p q buf) (drop (space_of p buf) buf))
                (link_chunk-linked p c j.last) step in
            round-Appends fuel p (linked p c) buf n (subst (Ready (linked p c)) (sym z) at_zero)
              refl (linked-contents p c j) step'
              (λ j'.
                write_loop-Appends fuel (next_state p (linked p c) buf) (drop (space_of p buf) buf)
                  j' (next-Allocates p (linked p c) buf refl a) (shrinks fuel p buf j n le))
      ]
      | no m ↦
          round-Appends fuel p p buf n (chunks-Ready p j (length p.chunks) refl m) refl refl
            (write_loop-old fuel p buf n m)
            (λ j'.
              write_loop-Appends fuel (next_state p p buf) (drop (space_of p buf) buf) j'
                (next-Allocates p p buf refl a) (shrinks fuel p buf j n le))
    ]
  ]
