-- ===== src/Journal/Spill.antt =====
-- memjrnlCreateFile (src/memjournal.c): a real file gets the bytes of the journal, or the journal
-- stays in memory as it was.
use litebtree.Base.{
  ℕ, zero, suc, ◌+◌, ◌-◌, ◌*◌, ◌≤◌, ◌<◌, ◌≡◌, refl, ap, sym, ◌∙◌, subst, arith, List, [], ◌∷◌, ◌++◌,
  length, take, flat, ◌⊎◌, inl, inr, Rc, ok, is_ok, Bool, true, false, ltb, Option, if◌then◌else◌,
  Bool-cases, dec_lt, append_nil, append_assoc, take_all, take-append_short, take-append_long,
  length-append, length-take, drop, drop-add, drop-append_long,
}
use litebtree.Journal.{
  MemJournal, Handle, in_memory, on_disk, spill_loop, memjrnl_create_file, memjrnl_write,
  disk_write, write_in_memory,
}
use litebtree.Journal.Write.{Overwrites, write_in_memory-Overwrites, length-contents}
use litebtree.Journal.Write.Loop.{Allocates}
use litebtree.Journal.Chunks.{Sized, no_chunks, mul_suc, length-flat}
use litebtree.Journal.State.{IsJournal, contents}
pub mod Whole

-- What a file has after a write of bytes at an offset: the rest is as it was.
abbrev pub overwritten : ℕ → List ℕ → List ℕ → List ℕ
overwritten ofst buf old = take ofst old ++ (buf ++ drop (ofst + length buf) old)

-- A real file: a write that succeeds, at an offset that is not behind its end, puts the bytes there.
-- Nothing is assumed of what the opened file has in it.
pub record IsFile {F : Type 0} (os_write : F → List ℕ → ℕ → Rc × F) (bytes : F → List ℕ)
    : Type 0 where
  pub write :
      (f : F) (buf : List ℕ) (ofst : ℕ)
      → ofst ≤ length (bytes f)
      → is_ok (os_write f buf ofst).0 ≡ true
      → bytes (os_write f buf ofst).1 ≡ overwritten ofst buf (bytes f)

module _ {F : Type 0} (os_open : Rc × F) (os_write : F → List ℕ → ℕ → Rc × F) (bytes : F → List ℕ)
    (file : IsFile os_write bytes) where
  module _ (end n off : ℕ) (c : List ℕ) (cs : List (List ℕ)) (f : F) where
    spill_loop-step :
        (m : ℕ)
        → (if ltb end (off + n) then end - off else n) ≡ m
        → is_ok (os_write f (take m c) off).0 ≡ true
        → spill_loop os_open os_write end n off (c ∷ cs) f
          ≡ spill_loop os_open os_write end m (off + m) cs (os_write f (take m c) off).1
    unfolding spill_loop
    spill_loop-step m piece e = rw (piece, e) refl

    spill_loop-fail :
        (m : ℕ)
        → (if ltb end (off + n) then end - off else n) ≡ m
        → is_ok (os_write f (take m c) off).0 ≡ false
        → spill_loop os_open os_write end n off (c ∷ cs) f ≡ os_write f (take m c) off
    unfolding spill_loop
    spill_loop-fail m piece e = rw (piece, e) refl

  -- The bytes that the opened file has in it.
  abbrev old : List ℕ
  old = bytes os_open.1

  -- The file after `off` written bytes.
  abbrev Stands : List ℕ → ℕ → F → Type 0
  Stands front off f = (bytes f ≡ front ++ drop off old) × (length front ≡ off)

  -- What the loop leaves in the file when it succeeds.
  abbrev Spills : ℕ → ℕ → ℕ → List (List ℕ) → List ℕ → F → Type 0
  Spills end n off cs front f =
      is_ok (spill_loop os_open os_write end n off cs f).0 ≡ true
      → bytes (spill_loop os_open os_write end n off cs f).1
        ≡ (front ++ take (end - off) (flat cs)) ++ drop end old

  pub overwritten-front :
      (front piece : List ℕ) (off m : ℕ)
      → length front ≡ off
      → length piece ≡ m
      → overwritten off piece (front ++ drop off old) ≡ (front ++ piece) ++ drop (off + m) old
  overwritten-front front piece off m l k =
      let t : take off (front ++ drop off old) ≡ front =
        take-append_short off front (drop off old) (omega arith)
        ∙ take_all off front (omega arith) in
      let d : drop (off + length piece) (front ++ drop off old) ≡ drop (off + m) old =
        drop-append_long (off + length piece) m front (drop off old) (omega arith)
        ∙ sym (drop-add off m old) in
      rw (t, d) (sym (append_assoc front piece (drop (off + m) old)))

  -- A round of m bytes, and the rest.
  round-Spills :
      (end n off m : ℕ) (c : List ℕ) (cs : List (List ℕ)) (front : List ℕ) (f : F)
      → Stands front off f
      → length (take m c) ≡ m
      → (if ltb end (off + n) then end - off else n) ≡ m
      → take m c ++ take (end - (off + m)) (flat cs) ≡ take (end - off) (c ++ flat cs)
      → ((f' : F)
          → Stands (front ++ take m c) (off + m) f'
          → Spills end m (off + m) cs (front ++ take m c) f')
      → Spills end n off (c ∷ cs) front f
  round-Spills end n off m c cs front f st l piece whole next =
      elim (Bool-cases (is_ok (os_write f (take m c) off).0)) [
        | inr bad ↦
            rw (spill_loop-fail end n off c cs f m piece bad) (λ good. absurd (both good bad))
        | inl good ↦ rw (spill_loop-step end n off c cs f m piece good) (λ all.
            next (os_write f (take m c) off).1 (wrote good) all
            ∙ ap (λ t. t ++ drop end old)
                (append_assoc front (take m c) (take (end - (off + m)) (flat cs))
                  ∙ ap (λ t. front ++ t) whole))
      ]
    where
      both : {b : Bool} → b ≡ true → b ≡ false → ⊥
      both p q = cc

      wrote :
          is_ok (os_write f (take m c) off).0 ≡ true
          → Stands (front ++ take m c) (off + m) (os_write f (take m c) off).1
      wrote good =
          let lf = ap length st.0 in
          let la = length-append front (drop off old) in
          let lp = length-append front (take m c) in
          (
            file.write f (take m c) off (omega (arith, st.1)) good
                ∙ ap (overwritten off (take m c)) st.0
                ∙ overwritten-front front (take m c) off m st.1 l,
            omega (arith, st.1),
          )

  end-Spills :
      (end n off : ℕ) (front : List ℕ) (f : F)
      → end ≡ off
      → Stands front off f
      → Spills end n off [] front f
  unfolding spill_loop
  end-Spills end n off front f e st good =
      let z : end - off ≡ 0 = omega arith in rw (z, append_nil front, e) st.0

  module _ (size end : ℕ) where
    last_piece :
        (off : ℕ) (c : List ℕ)
        → end - off ≤ length c
        → take (end - off) c ++ take (end - (off + (end - off))) [] ≡ take (end - off) (c ++ [])
    last_piece off c l =
        let z : end - (off + (end - off)) ≡ 0 = omega arith in
        rw (z, append_nil (take (end - off) c), append_nil c) refl

    spill_loop-Spills :
        (off : ℕ) (cs : List (List ℕ)) (front : List ℕ) (f : F)
        → Sized size cs
        → Stands front off f
        → off ≤ end
        → end ≤ off + length cs * size
        → off + length cs * size < end + size
        → Spills end size off cs front f
    spill_loop-Spills off [] front f h st le cover tight =
        end-Spills end size off front f (omega arith) st
    spill_loop-Spills off (c ∷ cs) front f (s, h) st le cover tight =
        let more = mul_suc (length cs) size in
        elim (dec_lt end (off + size)) [
          | no n ↦
              let all : take size c ≡ c = take_all size c (omega arith) in
              let l : length (take size c) ≡ size = length-take size c (omega arith) in
              round-Spills end size off size c cs front f st l (ground (arith, n))
                (rw all (
                  sym
                    (take-append_long (end - off) (end - (off + size)) c (flat cs) (omega arith))))
                (λ f' st'.
                  spill_loop-Spills (off + size) cs (front ++ take size c) f' h st' (omega arith)
                    (omega arith) (omega arith))
          | yes y ↦
              let last = no_chunks size cs (omega arith) in
              subst (λ t. Spills end size off (c ∷ t) front f) (sym last)
                (round-Spills end size off (end - off) c [] front f st
                  (length-take (end - off) c (omega arith)) (ground (arith, y))
                  (last_piece off c (omega arith))
                  (λ f' st'.
                    end-Spills end (end - off) (off + (end - off)) (front ++ take (end - off) c) f'
                      (omega arith) st'))
        ]

  module _ (p : MemJournal) (j : IsJournal p) where
    -- What memjrnlCreateFile leaves: the real file with the bytes of the journal in front and as it
    -- was behind them, or an error and the journal as it was.
    abbrev pub IsSpilled : Type 0
    IsSpilled =
        ((f : F) × (memjrnl_create_file os_open os_write p ≡ (ok, on_disk f))
          × (bytes f ≡ contents p ++ drop p.end_offset (bytes os_open.1)))
        ⊎ ((rc : Rc) × (is_ok rc ≡ false)
            × (memjrnl_create_file os_open os_write p ≡ (rc, in_memory p)))

    spilled : F
    spilled = (spill_loop os_open os_write p.end_offset p.chunk_size 0 p.chunks os_open.1).1

    status : Rc
    status = (spill_loop os_open os_write p.end_offset p.chunk_size 0 p.chunks os_open.1).0

    spilled-bytes : is_ok status ≡ true → bytes spilled ≡ contents p ++ drop p.end_offset old
    unfolding spilled status
    spilled-bytes good =
        let enough = j.enough in
        let tight = j.tight in
        spill_loop-Spills p.chunk_size p.end_offset 0 p.chunks [] os_open.1 j.sized (refl, refl)
          (omega arith) (omega arith) (omega arith) good
        ∙ let whole : p.end_offset - 0 ≡ p.end_offset = omega arith in rw whole refl

    -- If the state is an in-memory journal's, and a write that succeeds at an offset not behind
    -- the end of the real file puts its bytes there and leaves the rest, memjrnlCreateFile either
    -- returns SQLITE_OK with a real file that has the bytes of the journal in front and, behind
    -- them, what the opened file had there, or an error with the journal as it was.
    pub memjrnl_create_file-IsSpilled : IsSpilled
    unfolding memjrnl_create_file spilled status
    memjrnl_create_file-IsSpilled = elim (Bool-cases (is_ok os_open.0)) [
      | inr bad ↦ inr (os_open.0, bad, rw bad refl)
      | inl opened ↦ elim (Bool-cases (is_ok status)) [
        | inr bad ↦ inr (status, bad, rw (opened, bad) refl)
        | inl good ↦ inl (spilled, rw (opened, good) refl, spilled-bytes good)
      ]
    ]
