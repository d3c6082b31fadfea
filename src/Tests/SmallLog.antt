-- ===== src/Tests/SmallLog.antt =====
-- A write-ahead log of a few frames: the index operations of src/wal.c run on it, and the theorems
-- about them at it.
use litebtree.Base.{
  Rc, List, [], ◌∷◌, ℕ, suc, ◌≡◌, refl, ok, false, arith, is_ok, true, ap, ◌<◌, ◌+◌,
}
use litebtree.Wal.Index.{
  WalIndex, zeroed, hash_zero, wal_hash, wal_next_hash, wal_frame_page, wal_frame_pgno,
  wal_cleanup_hash, clean_block, wal_index_append, make_room, store_entry, enter, free_slot,
  wal_find_frame, find_from, find_round, find_in_block, find_in, is_match, scan_back,
}
use litebtree.Wal.Index.Append.{IsAppended, wal_index_append-IsAppended}
use litebtree.Wal.Index.Frames.{IsIndex, committed, committed-IsIndex}
use litebtree.Wal.Index.Lookup.{wal_find_frame-scan_back}
use litebtree.Wal.Undo.{
  SharedHdr, IsRolledBack, wal_undo, undo_loop, visit, pages_from, wal_undo-IsRolledBack,
}
use litebtree.Wal.Savepoint.{
  Wal, WalData, IsUndone, wal_savepoint_undo, wal_savepoint_undo-IsUndone, move_back,
}

abbrev no_frames : WalIndex
no_frames = record {
  mx_frame = 0;
  min_frame = 1;
  ignores_wal = false;
  mapped = λ i. ok;
  block = λ i. zeroed;
}

no_frames-IsIndex : IsIndex no_frames 0
no_frames-IsIndex = record {
  behind = omega arith;
  room = omega arith;
  covered = λ i l. absurd (omega arith);
}

abbrev after : WalIndex → ℕ → ℕ → WalIndex
after w frame page = (wal_index_append w frame page).1

-- Pages 7, 8199 (the hash of 7) and 7 again.
abbrev three_frames : WalIndex
three_frames = committed (after (after (after no_frames 1 7) 2 8199) 3 7) 3

program : Unit {0}
unfolding hash_zero wal_hash wal_next_hash wal_frame_page wal_frame_pgno wal_cleanup_hash
    clean_block wal_index_append make_room store_entry enter free_slot wal_find_frame find_from
    find_round find_in_block find_in is_match scan_back wal_savepoint_undo move_back
program = tt

finds_newest : wal_find_frame three_frames 7 ≡ (ok, 3)
unfolding program
finds_newest = refl

finds_collided : wal_find_frame three_frames 8199 ≡ (ok, 2)
unfolding program
finds_collided = refl

finds_none : wal_find_frame three_frames 9 ≡ (ok, 0)
unfolding program
finds_none = refl

-- A reader whose snapshot is older does not see the third frame.
finds_older : wal_find_frame (committed three_frames 2) 7 ≡ (ok, 1)
unfolding program
finds_older = refl

wal_index_append-IsAppended_example :
    (w' : WalIndex) × (wal_index_append no_frames 1 7 ≡ (ok, w')) × IsAppended no_frames w' 1 7
wal_index_append-IsAppended_example =
    wal_index_append-IsAppended no_frames 0 7 no_frames-IsIndex (omega arith) (omega arith) refl

after-IsIndex :
    (w : WalIndex) (n page : ℕ)
    → IsIndex w n
    → n + 4097 < 4294967296
    → 0 < page
    → is_ok (w.mapped (wal_frame_page (suc n))) ≡ true
    → IsIndex (after w (suc n) page) (suc n)
after-IsIndex w n page index room real mapped =
    let (w', run, appended) = wal_index_append-IsAppended w n page index room real mapped in
    rw (ap (λ r. r.1) run) appended.index

three_frames-IsIndex : IsIndex three_frames 3
unfolding program
three_frames-IsIndex = committed-IsIndex _ 3 (
    after-IsIndex _ 2 7
      (after-IsIndex _ 1 8199
        (after-IsIndex no_frames 0 7 no_frames-IsIndex (omega arith) (omega arith) refl)
        (omega arith) (omega arith) refl)
      (omega arith) (omega arith) refl)

wal_find_frame-scan_back_example : wal_find_frame three_frames 7 ≡ (ok, scan_back three_frames 7 3)
unfolding program
wal_find_frame-scan_back_example =
    wal_find_frame-scan_back three_frames 3 7 three_frames-IsIndex (omega arith)

abbrev log : Wal
log = record { index = three_frames; frame_cksum = (30, 31); n_ckpt = 4; re_cksum = 2 }

abbrev saved : WalData
saved = record { saved_mx = 1; saved_cksum = (10, 11); saved_ckpt = 4 }

wal_savepoint_undo-IsUndone_example :
    (w' : Wal) × (wal_savepoint_undo log saved ≡ (ok, w', saved)) × IsUndone log w' saved
unfolding program
wal_savepoint_undo-IsUndone_example =
    wal_savepoint_undo-IsUndone log saved 3 three_frames-IsIndex refl (omega arith)

-- The frames of the savepoint are found, the later ones are not.
abbrev undone : WalIndex
undone = (wal_savepoint_undo log saved).1.index

finds_after_undo : wal_find_frame undone 7 ≡ (ok, 1)
unfolding program
finds_after_undo = refl

finds_no_more : wal_find_frame undone 8199 ≡ (ok, 0)
unfolding program
finds_no_more = refl

-- The roll-back to the header of two frames before: the callback collects the pages.
abbrev shared : SharedHdr
shared = record { shared_mx = 1; shared_cksum = (20, 21) }

abbrev collect : List ℕ → ℕ → Rc × List ℕ
collect seen page = (ok, page ∷ seen)

wal_undo-IsRolledBack_example :
    (w' : Wal) × (wal_undo collect log shared []
      ≡ (ok, w', visit collect (pages_from three_frames 2 2) []))
    × IsRolledBack log w' shared
wal_undo-IsRolledBack_example =
    wal_undo-IsRolledBack collect log shared 3 [] three_frames-IsIndex (omega arith) (λ s p. refl)

collects : (wal_undo collect log shared []).2 ≡ 7 ∷ 8199 ∷ []
unfolding program wal_undo undo_loop
collects = refl
