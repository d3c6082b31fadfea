-- ===== src/Wal/Index/Lookup.antt =====
-- The search of the whole wal-index (src/wal.c, walFindFrame) gives what the linear search of its
-- own assertion gives.
use litebtree.Base.{
  ℕ, zero, suc, ◌+◌, ◌-◌, ◌≤◌, ◌<◌, ◌≡◌, refl, true, Bool-cases, if◌then◌else◌, leb, arith, ◌⊎◌,
  inl, inr, some, ℕ_discrete, dec_lt, dec_le, sym, ◌∙◌, Rc, ok, ap,
}
use litebtree.Wal.Index.{
  WalIndex, hash_zero, wal_frame_page, wal_frame_pgno, find_in_block, find_round, find_from,
  wal_find_frame, scan_back,
}
use litebtree.Wal.Index.Frames.{
  IsIndex, IsCovered, hash_zero_mono, hash_zero-end, block_end, wal_frame_page-start,
  wal_frame_page-end, wal_frame_pgno-at,
}
use litebtree.Wal.Index.Search.{IsHit, find_in_block-IsNewest}

module _ (w : WalIndex) (pgno : ℕ) where
  -- Frame f holds the page, and is not older than the reader allows.
  abbrev FrameHit : ℕ → Type 0
  FrameHit f = (0 < f) × (w.min_frame ≤ f) × (wal_frame_pgno w f ≡ pgno)

  -- No frame above r, up to the last one, holds the page.
  abbrev NoneAbove : ℕ → ℕ → Type 0
  NoneAbove r last = (f : ℕ) → r < f → f ≤ last → ¬ FrameHit f

  abbrev IsLast : ℕ → ℕ → Type 0
  IsLast last r = NoneAbove r last × ((r ≡ 0) ⊎ ((r ≤ last) × FrameHit r))

  lower :
      (f r : ℕ)
      → ¬ (wal_frame_pgno w (suc f) ≡ pgno)
      → (r ≡ 0) ⊎ ((r ≤ suc f) × FrameHit r)
      → (r ≡ 0) ⊎ ((r ≤ f) × FrameHit r)
  lower f r e (inl z) = inl z
  lower f r e (inr (l, h)) = elim (ℕ_discrete r (suc f)) [
    | yes same ↦ absurd (e (rw (← same) h.2))
    | no other ↦ inr (omega arith, h)
  ]

  -- A frame up to the end of a block before the block of minFrame is older than minFrame.
  too_old :
      (i f : ℕ)
      → w.min_frame + 4096 < 4294967296
      → i < wal_frame_page w.min_frame
      → FrameHit f
      → f ≤ block_end i
      → ⊥
  unfolding wal_frame_page
  too_old i f small late h e = elim (ℕ_discrete w.min_frame 0) [
    | yes z ↦ let p : wal_frame_page w.min_frame ≡ 0 = rw (z, wal_frame_page) refl in omega arith
    | no z ↦
        let start = wal_frame_page-start w.min_frame (omega arith) small in
        let mono = hash_zero_mono i (wal_frame_page w.min_frame) late in omega arith
  ]

  scan_back-IsLast : (last r : ℕ) → IsLast last r → scan_back w pgno last ≡ r
  unfolding scan_back
  scan_back-IsLast zero r (none_above, inl z) = sym z
  scan_back-IsLast zero r (none_above, inr (l, h)) = omega arith
  scan_back-IsLast (suc f) r (none_above, p) = elim (dec_le w.min_frame (suc f)) [
    | yes m ↦ elim (ℕ_discrete (wal_frame_pgno w (suc f)) pgno) [
      | yes e ↦
          let here = none_above (suc f) in
          let top : suc f ≡ r = elim p [
            | inl z ↦ absurd (here (omega arith) (omega arith) (omega arith, m, e))
            | inr (l, h) ↦ elim (dec_lt r (suc f)) [
              | yes lt ↦ absurd (here lt (omega arith) (omega arith, m, e))
              | no ge ↦ omega arith
            ]
          ] in
          ground (arith, top)
      | no e ↦
          let rest = scan_back-IsLast f r (λ g a l. none_above g a (omega arith), lower f r e p) in
          ground (arith, rest)
    ]
    | no m ↦ elim p [ inl z ↦ ground (arith, z) | inr (l, h) ↦ absurd (omega arith) ]
  ]

  -- The frame of entry j of a covered block, and the entry of a frame.
  module _ (i m n : ℕ) (c : IsCovered w n i m) (room : n + 4096 < 4294967296)
      (short : w.mx_frame ≤ n) where
    hit_frame :
        (j : ℕ)
        → j < m
        → IsHit (w.block i) w.mx_frame w.min_frame (hash_zero i) pgno j
        → FrameHit (suc j + hash_zero i)
    hit_frame j l (a, b, e) =
        let fits = c.fits in
        (omega arith, b, wal_frame_pgno-at w i j (omega arith) (omega arith) ∙ e)

    frame_hit :
        (f : ℕ)
        → hash_zero i < f
        → f ≤ block_end i
        → f ≤ w.mx_frame
        → FrameHit f
        → (j : ℕ) × (j < m)
          × (f ≡ suc j + hash_zero i)
          × IsHit (w.block i) w.mx_frame w.min_frame (hash_zero i) pgno j
    frame_hit f a e l (p, least, same) =
        let j = f - 1 - hash_zero i in
        let eq : f ≡ suc j + hash_zero i = omega arith in
        let covers = c.covers in
        let inside : j < m = omega arith in
        let at_j = wal_frame_pgno-at w i j (omega arith) (omega arith) in
        (j, inside, eq, (omega arith, omega arith, sym at_j ∙ rw (← eq) same))

    none_from :
        (from : ℕ)
        → hash_zero i ≤ from
        → ((j : ℕ)
            → from < suc j + hash_zero i
            → j < m
            → ¬ IsHit (w.block i) w.mx_frame w.min_frame (hash_zero i) pgno j)
        → NoneAbove (block_end i) w.mx_frame
        → NoneAbove from w.mx_frame
    none_from from start none_in none_above f a l h = elim (dec_lt (block_end i) f) [
      | yes above ↦ none_above f above l h
      | no inside ↦
          let (j, in_block, eq, hit) = frame_hit f (omega arith) (omega arith) l h in
          none_in j (omega arith) in_block hit
    ]

    round_on :
        (below : Rc × ℕ)
        → leb (wal_frame_page w.min_frame) i ≡ true
        → find_in_block w pgno i ≡ some 0
        → find_round w pgno i below ≡ below
    unfolding find_round
    round_on below t run = let mapped = c.mapped in rw (t, mapped, run) refl

    round_found :
        (below : Rc × ℕ) (f : ℕ)
        → 0 < f
        → leb (wal_frame_page w.min_frame) i ≡ true
        → find_in_block w pgno i ≡ some f
        → find_round w pgno i below ≡ (ok, f)
    unfolding find_round
    round_found below zero pos t run = absurd (omega arith)
    round_found below (suc f) pos t run = let mapped = c.mapped in rw (t, mapped, run) refl

    -- One round of the loop, when no newer block has the page.
    find_round-IsLast :
        (below : Rc × ℕ)
        → w.min_frame + 4096 < 4294967296
        → hash_zero i < w.mx_frame
        → NoneAbove (block_end i) w.mx_frame
        → (NoneAbove (hash_zero i) w.mx_frame → (r : ℕ) × (below ≡ (ok, r)) × IsLast w.mx_frame r)
        → (r : ℕ) × (find_round w pgno i below ≡ (ok, r)) × IsLast w.mx_frame r
    unfolding find_round
    find_round-IsLast below small start none_above next =
        elim (Bool-cases (leb (wal_frame_page w.min_frame) i)) [
          | inr t ↦ (
            0,
            rw t refl,
            (
              (λ f p l h. elim (dec_lt (block_end i) f) [
                | yes a ↦ none_above f a l h
                | no a ↦ too_old i f small (ground arith) h (omega arith)
              ]),
              inl refl,
            ),
          )
          | inl t ↦
              let (read, run, newest) = find_in_block-IsNewest w pgno i m c.filled (omega arith) in
              elim newest [
                | inl (z, none_in) ↦
                    let (r, same, is_last) =
                      next
                        (none_from (hash_zero i) (omega arith) (λ j a l. none_in j l) none_above) in
                    (r, round_on below t (run ∙ ap some z) ∙ same, is_last)
                | inr (j, l, h, none_in, eq) ↦
                    let fits = c.fits in
                    (
                      suc j + hash_zero i,
                      round_found below _ (omega arith) t (run ∙ ap some eq),
                      (
                        none_from (suc j + hash_zero i) (omega arith)
                            (λ k a lk. none_in k (omega arith) lk) none_above,
                        inr (h.0, hit_frame j l h),
                      ),
                    )
              ]
        ]

module _ (w : WalIndex) (n pgno : ℕ) (index : IsIndex w n)
    (small : w.min_frame + 4096 < 4294967296) where
  find_from-IsLast :
      (i : ℕ)
      → hash_zero i < w.mx_frame
      → NoneAbove w pgno (block_end i) w.mx_frame
      → (r : ℕ) × (find_from w pgno i ≡ (ok, r)) × IsLast w pgno w.mx_frame r
  unfolding find_from hash_zero
  find_from-IsLast zero start none_above =
      let behind = index.behind in
      let (m, c) = index.covered 0 (omega arith) in
      find_round-IsLast w pgno 0 m n c index.room behind (ok, 0) small start none_above
        (λ none. (0, refl, (none, inl refl)))
  find_from-IsLast (suc i) start none_above =
      let behind = index.behind in
      let (m, c) = index.covered (suc i) (omega arith) in
      let step = hash_zero-end i in
      find_round-IsLast w pgno (suc i) m n c index.room behind (find_from w pgno i) small start
        none_above (λ none. find_from-IsLast i (omega arith) none)

-- On a wal-index of n frames, with n + 4096 and minFrame + 4096 below 2^32, walFindFrame ends with
-- SQLITE_OK and reports what the linear search from mxFrame down to minFrame reports, the newest
-- frame of the page or zero; when the reader ignores the log it reports zero.
pub wal_find_frame-scan_back :
    (w : WalIndex) (n pgno : ℕ)
    → IsIndex w n
    → w.min_frame + 4096 < 4294967296
    → wal_find_frame w pgno ≡ (ok, if w.ignores_wal then 0 else scan_back w pgno w.mx_frame)
unfolding wal_find_frame scan_back
wal_find_frame-scan_back w n pgno index small = elim (ℕ_discrete w.mx_frame 0) [
  | yes z ↦
      let nothing : scan_back w pgno w.mx_frame ≡ 0 = rw (z, scan_back) refl in
      ground (arith, z, nothing)
  | no nz ↦
      let room = index.room in
      let behind = index.behind in
      let i = wal_frame_page w.mx_frame in
      let end = wal_frame_page-end w.mx_frame (omega arith) (omega arith) in
      let (r, run, is_last) =
        find_from-IsLast w n pgno index small i
          (wal_frame_page-start w.mx_frame (omega arith) (omega arith))
          (λ f a l h. absurd (omega arith)) in
      let same = scan_back-IsLast w pgno w.mx_frame r is_last in ground (arith, nz, run, same)
]
