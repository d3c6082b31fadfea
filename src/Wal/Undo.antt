-- ===== src/Wal/Undo.antt =====
-- The roll-back of a write transaction in the log (src/wal.c, sqlite3WalUndo). The callback that
-- expels pages from the cache is a parameter, on a context of any type.
use litebtree.Base.{
  ℕ, zero, suc, ◌-◌, ◌<◌, ◌≡◌, refl, arith, if◌then◌else◌, ◌==◌, Rc, ok, is_ok, true, false, List,
  [], ◌∷◌,
}
use litebtree.Wal.Index.{WalIndex, wal_cleanup_hash, wal_frame_pgno}
use litebtree.Wal.Index.Cleanup.{lowered, IsLowered, wal_cleanup_hash-IsLowered}
use litebtree.Wal.Index.Frames.{IsIndex}
use litebtree.Wal.Savepoint.{Wal}

-- The pages of `count` frames from a frame on.
abbrev pub pages_from : WalIndex → ℕ → ℕ → List ℕ
pages_from w zero i_frame = []
pages_from w (suc count) i_frame = wal_frame_pgno w i_frame ∷ pages_from w count (suc i_frame)

-- The header in shared memory, as the writer found it: mxFrame and the frame checksum.
pub record SharedHdr : Type 0 where
  pub shared_mx : ℕ
  pub shared_cksum : ℕ × ℕ

lowered_pgno : (w : WalIndex) (mx f : ℕ) → wal_frame_pgno (lowered w mx) f ≡ wal_frame_pgno w f
unfolding wal_frame_pgno
lowered_pgno w mx f = refl

module _ {ℓ} {S : Type ℓ} (x_undo : S → ℕ → Rc × S) where
  -- The loop of sqlite3WalUndo over `count` frames; `s` is what the callback has for a context.
  unfoldable pub undo_loop : ℕ → WalIndex → ℕ → S → Rc × S
  unfolding wal_frame_pgno
  undo_loop zero w i_frame s = (ok, s)
  undo_loop (suc count) w i_frame s =
      let r = x_undo s (wal_frame_pgno w i_frame) in
      let rest = undo_loop count w (suc i_frame) r.1 in if is_ok r.0 then rest else r

  unfoldable pub wal_undo : Wal → SharedHdr → S → Rc × Wal × S
  unfolding undo_loop wal_cleanup_hash
  wal_undo w hdr s =
      let i_max = w.index.mx_frame in
      let index = lowered w.index hdr.shared_mx in
      let r = undo_loop (i_max - hdr.shared_mx) index (suc hdr.shared_mx) s in
      let index' = if i_max == hdr.shared_mx then index else wal_cleanup_hash index in
      (r.0, record w { index = index'; frame_cksum = hdr.shared_cksum; re_cksum = 0 }, r.1)

  -- The callback on the pages of a list.
  abbrev pub visit : List ℕ → S → S
  visit [] s = s
  visit (p ∷ ps) s = visit ps (x_undo s p).1

  undo_loop-visit :
      (count : ℕ) (w v : WalIndex) (i_frame : ℕ) (s : S)
      → ((s : S) (p : ℕ) → is_ok (x_undo s p).0 ≡ true)
      → ((f : ℕ) → wal_frame_pgno v f ≡ wal_frame_pgno w f)
      → undo_loop count v i_frame s ≡ (ok, visit (pages_from w count i_frame) s)
  unfolding undo_loop
  undo_loop-visit zero w v i_frame s fine same = refl
  undo_loop-visit (suc count) w v i_frame s fine same =
      rw (same i_frame, fine s (wal_frame_pgno w i_frame))
        (undo_loop-visit count w v (suc i_frame) _ fine same)

-- The state after a roll-back to the header in shared memory.
pub record IsRolledBack (w w' : Wal) (hdr : SharedHdr) : Type 0 where
  pub lower : IsLowered w.index w'.index hdr.shared_mx
  pub cksum : w'.frame_cksum ≡ hdr.shared_cksum
  pub no_recompute : w'.re_cksum ≡ 0

-- On an index of n frames, with frames written since the header in shared memory, and a callback
-- that does not fail, sqlite3WalUndo returns SQLITE_OK, has called back on the pages of the frames
-- above the shared mxFrame in their order, and leaves the frames up to it as they were, with no
-- other entry in the block of the last one, and the shared checksum.
pub wal_undo-IsRolledBack {ℓ} :
    {S : Type ℓ} (x_undo : S → ℕ → Rc × S) (w : Wal) (hdr : SharedHdr) (n : ℕ) (s : S)
    → IsIndex w.index n
    → hdr.shared_mx < w.index.mx_frame
    → ((s : S) (p : ℕ) → is_ok (x_undo s p).0 ≡ true)
    → (w' : Wal) × (wal_undo x_undo w hdr s ≡ (
      ok,
      w',
      visit x_undo (pages_from w.index (w.index.mx_frame - hdr.shared_mx) (suc hdr.shared_mx)) s,
    ))
      × IsRolledBack w w' hdr
unfolding wal_undo
wal_undo-IsRolledBack x_undo w hdr n s index more fine =
    let behind = index.behind in
    let index' = lowered w.index hdr.shared_mx in
    let visited =
      undo_loop-visit x_undo (w.index.mx_frame - hdr.shared_mx) w.index index' (suc hdr.shared_mx) s
        fine (lowered_pgno w.index hdr.shared_mx) in
    (
      record w { index = wal_cleanup_hash index'; frame_cksum = hdr.shared_cksum; re_cksum = 0 },
      (let t : (w.index.mx_frame == hdr.shared_mx) ≡ false = ground arith in
          rw (wal_undo, visited, t) refl),
      record {
        lower = wal_cleanup_hash-IsLowered w.index n hdr.shared_mx index (omega arith);
        cksum = refl;
        no_recompute = refl;
      },
    )
