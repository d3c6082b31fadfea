-- ===== src/Wal/Savepoint.antt =====
-- Savepoints of the write-ahead log (src/wal.c, sqlite3WalSavepoint and sqlite3WalSavepointUndo):
-- the write position is remembered, and restored with the index.
use litebtree.Base.{ℕ, ◌≤◌, ◌<◌, ◌≡◌, refl, arith, if◌then◌else◌, ltb, ◌==◌, Rc, ok}
use litebtree.Wal.Index.{WalIndex, wal_cleanup_hash}
use litebtree.Wal.Index.Cleanup.{lowered, IsLowered, wal_cleanup_hash-IsLowered}
use litebtree.Wal.Index.Frames.{IsIndex}

-- The part of struct Wal that a savepoint concerns.
pub record Wal : Type 0 where
  pub index : WalIndex
  pub frame_cksum : ℕ × ℕ
  pub n_ckpt : ℕ
  pub re_cksum : ℕ

-- The array aWalData.
pub record WalData : Type 0 where
  pub saved_mx : ℕ
  pub saved_cksum : ℕ × ℕ
  pub saved_ckpt : ℕ

unfoldable pub wal_savepoint : Wal → WalData
wal_savepoint w = record {
  saved_mx = w.index.mx_frame;
  saved_cksum = w.frame_cksum;
  saved_ckpt = w.n_ckpt;
}

-- The restore itself, for data of the current log.
unfoldable pub move_back : Wal → WalData → Wal
unfolding wal_cleanup_hash
move_back w d = record w {
  index = wal_cleanup_hash (lowered w.index d.saved_mx);
  frame_cksum = d.saved_cksum;
  re_cksum = if ltb d.saved_mx w.re_cksum then 0 else w.re_cksum;
}

-- A savepoint of before the log was wrapped around is set to the start of the log first.
unfoldable pub wal_savepoint_undo : Wal → WalData → Rc × Wal × WalData
unfolding move_back
wal_savepoint_undo w d₀ =
    let d =
      if d₀.saved_ckpt == w.n_ckpt then d₀ else record d₀ { saved_mx = 0; saved_ckpt = w.n_ckpt } in
    if ltb d.saved_mx w.index.mx_frame then (ok, move_back w d, d) else (ok, w, d)

-- What an undo leaves: the frames up to the saved position as they were, with no other entry in the
-- block of the last one, the saved checksum, and no checksums that are to be recomputed beyond it.
pub record IsUndone (w w' : Wal) (d : WalData) : Type 0 where
  pub lower : IsLowered w.index w'.index d.saved_mx
  pub cksum : w'.frame_cksum ≡ d.saved_cksum
  pub same_ckpt : w'.n_ckpt ≡ w.n_ckpt
  pub recompute : w'.re_cksum ≤ d.saved_mx

wal_savepoint_undo-move_back :
    (w : Wal) (d : WalData)
    → d.saved_ckpt ≡ w.n_ckpt
    → d.saved_mx < w.index.mx_frame
    → wal_savepoint_undo w d ≡ (ok, move_back w d, d)
unfolding wal_savepoint_undo
wal_savepoint_undo-move_back w d e l = ground (arith, e, l)

move_back-IsUndone :
    (w : Wal) (d : WalData) (n : ℕ)
    → IsIndex w.index n
    → d.saved_mx ≤ n
    → IsUndone w (move_back w d) d
unfolding move_back
move_back-IsUndone w d n index le = record {
  lower = wal_cleanup_hash-IsLowered w.index n d.saved_mx index le;
  cksum = refl;
  same_ckpt = refl;
  recompute = ground arith;
}

-- On an index of n frames, for a savepoint of the current log with mxFrame above the saved one,
-- sqlite3WalSavepointUndo returns SQLITE_OK and moves the write position back: the frames of the
-- savepoint read as before, the block of the last one has no other entry, the checksum is the
-- saved one, and iReCksum is not beyond the saved position.
pub wal_savepoint_undo-IsUndone :
    (w : Wal) (d : WalData) (n : ℕ)
    → IsIndex w.index n
    → d.saved_ckpt ≡ w.n_ckpt
    → d.saved_mx < w.index.mx_frame
    → (w' : Wal) × (wal_savepoint_undo w d ≡ (ok, w', d)) × IsUndone w w' d
wal_savepoint_undo-IsUndone w d n index e l =
    let behind = index.behind in
    (
      move_back w d,
      wal_savepoint_undo-move_back w d e l,
      move_back-IsUndone w d n index (omega arith),
    )
