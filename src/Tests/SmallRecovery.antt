-- ===== src/Tests/SmallRecovery.antt =====
-- Recovery of a log of three frames, of which the second is a commit (src/wal.c).
use litebtree.Base.{ℕ, ◌<◌, ◌≡◌, refl, List, [], ◌∷◌, ◌++◌, true, false, arith, All, ok}
use litebtree.Btree.Key.{memcmp}
use litebtree.Util.Word.{IsByte, get4byte, put4byte, big_word}
use litebtree.Wal.Checksum.{wal_checksum_bytes, rounds, rounds_by_eight, host_word, byteswap32}
use litebtree.Wal.Frame.{IsOpenLog, wal_encode_frame, wal_decode_frame, extend_cksum}
use litebtree.Wal.Index.{
  zeroed, hash_zero, wal_hash, wal_next_hash, wal_frame_page, wal_frame_pgno, wal_cleanup_hash,
  clean_block, wal_index_append, make_room, store_entry, enter, free_slot, wal_find_frame,
  find_from, find_round, find_in_block, find_in, is_match,
}
use litebtree.Wal.Recover.{
  Recovery, Written, note_commit, after_append, after_decode, recover_frame, recover_frames,
  append_frames,
}
use litebtree.Wal.Recover.Chain.{IsWritable, IsRecovered, recover_frames-append_frames}

abbrev page_of : ℕ → List ℕ
page_of b = b ∷ 1 ∷ 2 ∷ 3 ∷ 4 ∷ 5 ∷ 6 ∷ 7 ∷ []

abbrev written : List Written
written =
    record { page = 7; truncate = 0; content = page_of 1 }
    ∷ record { page = 2; truncate = 9; content = page_of 2 }
    ∷ record { page = 7; truncate = 0; content = page_of 3 }
    ∷ []

abbrev start : Recovery
start = record {
  state = record {
    big_end_cksum = true;
    salt = 11 ∷ 12 ∷ 13 ∷ 14 ∷ 15 ∷ 16 ∷ 17 ∷ 18 ∷ [];
    frame_cksum = (5, 6);
    sz_page = 8;
    re_cksum = 0;
  };
  index = record {
    mx_frame = 0;
    min_frame = 0;
    ignores_wal = false;
    mapped = λ i. ok;
    block = λ i. zeroed;
  };
  n_page = 0;
  commit_cksum = (0, 0);
}

page_of-IsByte : (b : ℕ) → b < 256 → All IsByte (page_of b)
page_of-IsByte b h = (
  h,
  (
    omega arith,
    (omega arith, (omega arith, (omega arith, (omega arith, (omega arith, (omega arith, tt)))))),
  ),
)

start-IsOpenLog : IsOpenLog (start.state)
start-IsOpenLog = record {
  salted = refl;
  salt_bytes = (
    omega arith,
    (
      omega arith,
      (omega arith, (omega arith, (omega arith, (omega arith, (omega arith, (omega arith, tt)))))),
    ),
  );
  whole = refl;
  sized = omega arith;
  small = (omega arith, omega arith);
}

writable :
    (page truncate b : ℕ)
    → 0 < page
    → page < 100
    → truncate < 100
    → b < 256
    → IsWritable (record { page = page; truncate = truncate; content = page_of b })
writable page truncate b real p t h = record {
  real = real;
  page_word = omega arith;
  truncate_word = omega arith;
  bytes = page_of-IsByte b h;
}

written-IsWritable : All IsWritable written
written-IsWritable = (
  writable 7 0 1 (omega arith) (omega arith) (omega arith) (omega arith),
  (
    writable 2 9 2 (omega arith) (omega arith) (omega arith) (omega arith),
    (writable 7 0 3 (omega arith) (omega arith) (omega arith) (omega arith), tt),
  ),
)

recover_frames-append_frames_example :
    (r' : Recovery) × (recover_frames true 1
        ((append_frames false written start.state).0 ++ [])
        start
      ≡ (ok, r'))
    × IsRecovered 0 written start r'
recover_frames-append_frames_example =
    recover_frames-append_frames false true written [] start start-IsOpenLog refl written-IsWritable
      tt refl (omega arith) (λ i. refl)

program : Unit {0}
unfolding wal_checksum_bytes rounds rounds_by_eight host_word byteswap32 big_word wal_encode_frame
    wal_decode_frame extend_cksum get4byte put4byte memcmp note_commit after_append after_decode
    recover_frame recover_frames append_frames hash_zero wal_hash wal_next_hash wal_frame_page
    wal_frame_pgno wal_cleanup_hash clean_block wal_index_append make_room store_entry enter
    free_slot wal_find_frame find_from find_round find_in_block find_in is_match
program = tt

-- After recovery a reader finds page 7 in the first frame: the third is not committed.
abbrev recovered : Recovery
recovered = (recover_frames true 1 ((append_frames false written start.state).0) start).1

finds_committed : wal_find_frame recovered.index 7 ≡ (ok, 1)
unfolding program
finds_committed = refl

recovers_size : recovered.n_page ≡ 9
unfolding program
recovers_size = refl
