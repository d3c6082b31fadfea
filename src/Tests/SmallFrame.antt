-- ===== src/Tests/SmallFrame.antt =====
-- A frame with a page of 16 bytes: the checksum and the frame header of src/wal.c run on it, and
-- the theorems about them at it.
use litebtree.Base.{ℕ, ◌≡◌, refl, List, [], ◌∷◌, true, false, arith, some, none, All}
use litebtree.Util.Word.{IsByte, get4byte, put4byte, big_word}
use litebtree.Wal.Checksum.Format.{file_checksum, wal_checksum_bytes-file_checksum}
use litebtree.Wal.Checksum.{
  is_native, wal_checksum_bytes, rounds, rounds_by_eight, host_word, byteswap32,
}
use litebtree.Wal.Frame.{
  FrameState, IsOpenLog, wal_encode_frame, wal_decode_frame, extend_cksum,
  wal_decode_frame-wal_encode_frame,
}
use litebtree.Btree.Key.{memcmp}

abbrev content : List ℕ
content = 1 ∷ 2 ∷ 3 ∷ 4 ∷ 5 ∷ 6 ∷ 7 ∷ 8 ∷ 250 ∷ 251 ∷ 252 ∷ 253 ∷ 254 ∷ 255 ∷ 0 ∷ 9 ∷ []

abbrev log : FrameState
log = record {
  big_end_cksum = true;
  salt = 11 ∷ 12 ∷ 13 ∷ 14 ∷ 15 ∷ 16 ∷ 17 ∷ 18 ∷ [];
  frame_cksum = (4294967295, 70000);
  sz_page = 16;
  re_cksum = 0;
}

content-IsByte : All IsByte content
content-IsByte = (
  omega arith,
  (
    omega arith,
    (
      omega arith,
      (
        omega arith,
        (
          omega arith,
          (
            omega arith,
            (
              omega arith,
              (
                omega arith,
                (
                  omega arith,
                  (
                    omega arith,
                    (
                      omega arith,
                      (omega arith, (omega arith, (omega arith, (omega arith, (omega arith, tt))))),
                    ),
                  ),
                ),
              ),
            ),
          ),
        ),
      ),
    ),
  ),
)

log-IsOpenLog : IsOpenLog log
log-IsOpenLog = record {
  salted = refl;
  salt_bytes = (
    omega arith,
    (
      omega arith,
      (omega arith, (omega arith, (omega arith, (omega arith, (omega arith, (omega arith, tt)))))),
    ),
  );
  whole = refl;
  sized = omega arith;
  small = (omega arith, omega arith);
}

wal_checksum_bytes-file_checksum_example :
    wal_checksum_bytes false (is_native true false) content 16 (7, 8)
    ≡ file_checksum true content 16 (7, 8)
wal_checksum_bytes-file_checksum_example =
    wal_checksum_bytes-file_checksum false true content 16 (7, 8) content-IsByte (omega arith) refl

wal_decode_frame-wal_encode_frame_example :
    wal_decode_frame true log content (wal_encode_frame false log 3 5 content).0
    ≡ (some (3, 5), (wal_encode_frame false log 3 5 content).1)
wal_decode_frame-wal_encode_frame_example =
    wal_decode_frame-wal_encode_frame false true log 3 5 content log-IsOpenLog refl content-IsByte
      (omega arith) (omega arith) (omega arith)

program : Unit {0}
unfolding wal_checksum_bytes rounds rounds_by_eight host_word byteswap32 big_word wal_encode_frame
    wal_decode_frame extend_cksum get4byte put4byte memcmp
program = tt

sums_up : wal_checksum_bytes false (is_native true false) content 16 (7, 8) ≡ (33950259, 118297695)
unfolding program
sums_up = refl

-- A frame of another log, which has another salt, is not valid.
rejects_other_salt :
    (wal_decode_frame true
      (record log { salt = 11 ∷ 12 ∷ 13 ∷ 14 ∷ 15 ∷ 16 ∷ 17 ∷ 19 ∷ [] })
      content
      (wal_encode_frame false log 3 5 content).0).0
    ≡ none
unfolding program
rejects_other_salt = refl

-- Nor is one whose page was changed.
rejects_change :
    (wal_decode_frame true log (2 ∷ content) (wal_encode_frame false log 3 5 content).0).0 ≡ none
unfolding program
rejects_change = refl

accepts :
    (wal_decode_frame false log content (wal_encode_frame true log 3 5 content).0).0 ≡ some (3, 5)
unfolding program
accepts = refl
