-- ===== src/Wal/Index/Cleanup.antt =====
-- walCleanupHash on the whole wal-index (src/wal.c): after mxFrame is lowered, the frames up to it
-- are all that is indexed in its block, and they read as before.
use litebtree.Base.{
  ℕ, zero, suc, ◌+◌, ◌-◌, ◌≤◌, ◌<◌, ◌≡◌, refl, arith, inl, is_ok, true, ℕ_discrete,
}
use litebtree.Wal.Index.{
  Block, WalIndex, hash_zero, wal_frame_page, wal_frame_pgno, wal_cleanup_hash, clean_block,
  set_block,
}
use litebtree.Wal.Index.Change.{AgreeBut, IsIndex-change, wal_frame_pgno-same}
use litebtree.Wal.Index.Clean.{clean_block-IsFilled, clean_block-old}
use litebtree.Wal.Index.Filled.{IsFilled, put-same, put-other}
use litebtree.Wal.Index.Frames.{IsIndex, wal_frame_page-start, wal_frame_page-end}

-- The index with mxFrame lowered, as the callers of walCleanupHash leave it.
abbrev pub lowered : WalIndex → ℕ → WalIndex
lowered w mx = record w { mx_frame = mx }

-- What a clean-up at mxFrame promises of the state before it, w, and after it, w'.
pub record IsCleaned (w w' : WalIndex) : Type 0 where
  pub at_mx : w'.mx_frame ≡ w.mx_frame
  pub agree : AgreeBut (wal_frame_page w.mx_frame) w w'
  pub filled :
      IsFilled
        (w'.block (wal_frame_page w.mx_frame))
        (w.mx_frame - hash_zero (wal_frame_page w.mx_frame))
  pub old :
      (j : ℕ)
      → j < w.mx_frame - hash_zero (wal_frame_page w.mx_frame)
      → (w'.block (wal_frame_page w.mx_frame)).a_pgno j
        ≡ (w.block (wal_frame_page w.mx_frame)).a_pgno j

pub set_block-AgreeBut : (w : WalIndex) (i : ℕ) (b : Block) → AgreeBut i w (set_block w i b)
set_block-AgreeBut w i b = record {
  same_mapped = λ j. refl;
  same_block = λ j h. put-other w.block i b j h;
}

pub set_block-same : (w : WalIndex) (i : ℕ) (b : Block) → (set_block w i b).block i ≡ b
set_block-same w i b = put-same w.block i b

module _ (w : WalIndex) (m : ℕ) (some_frames : 0 < w.mx_frame)
    (mapped : is_ok (w.mapped (wal_frame_page w.mx_frame)) ≡ true)
    (filled : IsFilled (w.block (wal_frame_page w.mx_frame)) m)
    (reach : w.mx_frame ≤ m + hash_zero (wal_frame_page w.mx_frame)) where
  abbrev here : ℕ
  here = wal_frame_page w.mx_frame

  cleaned : WalIndex
  cleaned = set_block w here (clean_block (w.mx_frame - hash_zero here) (w.block here))

  wal_cleanup_hash-cleaned : wal_cleanup_hash w ≡ cleaned
  unfolding wal_cleanup_hash cleaned
  wal_cleanup_hash-cleaned = ground (arith, mapped, some_frames)

  pub wal_cleanup_hash-IsCleaned : IsCleaned w (wal_cleanup_hash w)
  unfolding cleaned
  wal_cleanup_hash-IsCleaned =
      let limit = w.mx_frame - hash_zero here in
      let b = clean_block limit (w.block here) in
      rw wal_cleanup_hash-cleaned (record {
        at_mx = refl;
        agree = set_block-AgreeBut w here b;
        filled =
            rw (set_block-same w here b)
              (clean_block-IsFilled (w.block here) limit m filled (omega arith));
        old = λ j l.
            rw (set_block-same w here b)
              (clean_block-old (w.block here) limit m filled (omega arith) j l);
      })

-- An index whose mxFrame is lowered to mx: the frames up to mx are as they were, and the block of
-- the last one has no other entries.
pub record IsLowered (w w' : WalIndex) (mx : ℕ) : Type 0 where
  pub index : IsIndex w' mx
  pub at_mx : w'.mx_frame ≡ mx
  pub same : (f : ℕ) → 0 < f → f ≤ mx → wal_frame_pgno w' f ≡ wal_frame_pgno w f
  pub only : 0 < mx → IsFilled (w'.block (wal_frame_page mx)) (mx - hash_zero (wal_frame_page mx))

IsCleaned-IsLowered :
    (w w' : WalIndex) (n mx : ℕ)
    → IsIndex w n
    → 0 < mx
    → mx ≤ n
    → IsCleaned (lowered w mx) w'
    → IsLowered w w' mx
IsCleaned-IsLowered w w' n mx index pos le c =
    let room = index.room in
    let i = wal_frame_page mx in
    let start = wal_frame_page-start mx pos (omega arith) in
    let end = wal_frame_page-end mx pos (omega arith) in
    let agree = c.agree in
    let old = c.old in
    let (m, before) = index.covered i (omega arith) in
    record {
      index =
          IsIndex-change w w' i (mx - hash_zero i) n mx index
            (record { same_mapped = agree.same_mapped; same_block = agree.same_block })
            (omega arith) start end (omega arith) (let at_mx = c.at_mx in omega arith)
            (record {
              mapped = rw (agree.same_mapped i) before.mapped;
              filled = c.filled;
              fits = omega arith;
              covers = inl (omega arith);
              exact = inl c.at_mx;
            });
      at_mx = c.at_mx;
      only = λ p. c.filled;
      same = λ f p l.
          wal_frame_pgno-same w w' f p (omega arith) (elim (ℕ_discrete (wal_frame_page f) i) [
            | yes e ↦
                let first = wal_frame_page-start f p (omega arith) in
                rw e (old (f - 1 - hash_zero i) (omega arith))
            | no other ↦ rw (agree.same_block (wal_frame_page f) other) refl
          ]);
    }

-- After mxFrame is lowered on an index of n frames, walCleanupHash leaves an index of the frames up
-- to mxFrame, which have the same page numbers, and no other entry in the block of the last one.
pub wal_cleanup_hash-IsLowered :
    (w : WalIndex) (n mx : ℕ)
    → IsIndex w n
    → mx ≤ n
    → IsLowered w (wal_cleanup_hash (lowered w mx)) mx
unfolding wal_cleanup_hash hash_zero
wal_cleanup_hash-IsLowered w n zero index le = record {
  index = record {
    behind = omega arith;
    room = omega arith;
    covered = λ i l. absurd (omega arith);
  };
  at_mx = refl;
  same = λ f p l. absurd (omega arith);
  only = λ p. absurd (omega arith);
}
wal_cleanup_hash-IsLowered w n (suc mx) index le =
    let room = index.room in
    let i = wal_frame_page (suc mx) in
    let start = wal_frame_page-start (suc mx) (omega arith) (omega arith) in
    let end = wal_frame_page-end (suc mx) (omega arith) (omega arith) in
    let (m, c) = index.covered i (omega arith) in
    let covers = c.covers in
    IsCleaned-IsLowered w _ n (suc mx) index (omega arith) le (
      wal_cleanup_hash-IsCleaned (lowered w (suc mx)) m (omega arith) c.mapped c.filled
        (omega arith))
