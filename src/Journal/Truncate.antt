-- ===== src/Journal/Truncate.antt =====
-- memjrnlTruncate (src/memjournal.c) keeps the bytes in front of the size it is given.
use litebtree.Base.{
  ℕ, suc, ◌+◌, ◌*◌, ◌≤◌, ◌<◌, ◌≡◌, refl, ap, sym, ◌∙◌, arith, List, [], ◌∷◌, none, some, length,
  take, flat, inl, ok, dec_lt, ℕ_discrete, take-take, take_all, length-take,
}
use litebtree.Journal.{MemJournal, cut_chunk, memjrnl_truncate}
use litebtree.Journal.Chunks.{mul_suc, length-flat, flat-take, Sized-take}
use litebtree.Journal.State.{IsJournal, contents}

-- The chunk that the loop of memjrnlTruncate stops at is the one of the last byte that is kept.
cut_chunk_lem :
    (size limit off k : ℕ) (cs : List (List ℕ))
    → limit + size ≤ off + length cs * size
    → off < limit + size
    → (d : ℕ) × (cut_chunk size limit off k cs ≡ some (k + d))
      × (d < length cs)
      × (limit ≤ off + d * size)
      × (off + d * size < limit + size)
unfolding cut_chunk
cut_chunk_lem size limit off k [] l h = absurd (omega arith)
cut_chunk_lem size limit off k (c ∷ cs) l h = elim (dec_lt off limit) [
  | yes m ↦
      let more = mul_suc (length cs) size in
      let (d, e, i, f, t) =
        cut_chunk_lem size limit (off + size) (suc k) cs (omega arith) (omega arith) in
      let step = mul_suc d size in
      let there : suc k + d ≡ k + suc d = omega arith in
      (suc d, ground (arith, m, e, there), omega arith, omega arith, omega arith)
  | no m ↦
      let here : k + 0 ≡ k = omega arith in
      (0, ground (arith, m, here), omega arith, omega arith, omega arith)
]

-- A shorter file, of the chunks up to the place d.
abbrev cut : MemJournal → ℕ → ℕ → MemJournal
cut p size d = record p {
  chunks = take (suc d) p.chunks;
  end_chunk = some d;
  end_offset = size;
  read_chunk = none;
  read_offset = 0;
}

abbrev emptied : MemJournal → MemJournal
emptied p = record p {
  chunks = [];
  end_chunk = none;
  end_offset = 0;
  read_chunk = none;
  read_offset = 0;
}

module _ (p : MemJournal) (j : IsJournal p) where
  emptied-IsJournal : IsJournal (emptied p)
  emptied-IsJournal = record {
    some_size = j.some_size;
    sized = tt;
    enough = omega arith;
    tight = let s = j.some_size in omega arith;
    last = refl;
    reader = inl refl;
  }

  module _ (size : ℕ) (shorter : size < p.end_offset) where
    truncate-emptied : size ≡ 0 → memjrnl_truncate p size ≡ (ok, emptied p)
    unfolding memjrnl_truncate
    truncate-emptied z = ground (arith, z, shorter)

    truncate-cut :
        (d : ℕ)
        → ¬ (size ≡ 0)
        → cut_chunk p.chunk_size size p.chunk_size 0 p.chunks ≡ some d
        → memjrnl_truncate p size ≡ (ok, cut p size d)
    unfolding memjrnl_truncate
    truncate-cut d n e = rw e (ground (arith, n, shorter))

    module _ (d : ℕ) (inside : d < length p.chunks) (to : size ≤ p.chunk_size + d * p.chunk_size)
        (from : p.chunk_size + d * p.chunk_size < size + p.chunk_size) where
      cut-IsJournal : IsJournal (cut p size d)
      cut-IsJournal =
          let l = length-take (suc d) p.chunks (omega arith) in
          let s = mul_suc d p.chunk_size in
          record {
            some_size = j.some_size;
            sized = Sized-take p.chunk_size (suc d) p.chunks j.sized;
            enough = rw l (omega arith);
            tight = rw l (omega arith);
            last = rw l refl;
            reader = inl refl;
          }

      cut-contents : contents (cut p size d) ≡ take size (contents p)
      cut-contents =
          let s = mul_suc d p.chunk_size in
          rw
            (
              flat-take p.chunk_size (suc d) p.chunks j.sized (omega arith),
              take-take size (suc d * p.chunk_size) (flat p.chunks) (omega arith),
              take-take size p.end_offset (flat p.chunks) (omega arith),
            )
            refl

  -- What a truncation promises.
  abbrev pub IsTruncated : ℕ → Type 0
  IsTruncated size =
      (p' : MemJournal) × (memjrnl_truncate p size ≡ (ok, p'))
      × IsJournal p'
      × (p'.chunk_size ≡ p.chunk_size)
      × (contents p' ≡ take size (contents p))

  not_shorter : (size : ℕ) → ¬ (size < p.end_offset) → IsTruncated size
  not_shorter size n =
      let enough = j.enough in
      let l = length-flat p.chunk_size p.chunks j.sized in
      let l' = length-take p.end_offset (flat p.chunks) (omega arith) in
      (
        p,
        unfold memjrnl_truncate in ground (arith, n),
        j,
        refl,
        sym (take_all size (contents p) (omega arith)),
      )

  -- If the state is an in-memory journal's, memjrnlTruncate returns SQLITE_OK and keeps the
  -- invariant, and the file is then the bytes in front of the given size.
  pub memjrnl_truncate-IsTruncated : (size : ℕ) → IsTruncated size
  memjrnl_truncate-IsTruncated size = elim (dec_lt size p.end_offset) [
    | no n ↦ not_shorter size n
    | yes shorter ↦ elim (ℕ_discrete size 0) [
      | yes z ↦ (emptied p, truncate-emptied size shorter z, emptied-IsJournal, refl, rw z refl)
      | no n ↦
          let enough = j.enough in
          let tight = j.tight in
          let (d, e, i, to, from) =
            cut_chunk_lem p.chunk_size size p.chunk_size 0 p.chunks (omega arith) (omega arith) in
          let there : 0 + d ≡ d = omega arith in
          (
            cut p size d,
            truncate-cut size shorter d n (e ∙ ap some there),
            cut-IsJournal size shorter d i to from,
            refl,
            cut-contents size shorter d i to from,
          )
    ]
  ]
