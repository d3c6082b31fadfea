-- ===== src/Wal/Frame.antt =====
-- Frames of the write-ahead log (src/wal.c, walEncodeFrame and walDecodeFrame): what a writer puts
-- into the log is what recovery accepts, on a host of any byte order.
use litebtree.Base.{
  ℕ, zero, suc, ◌%◌, ◌<◌, ◌≡◌, refl, List, [], ◌∷◌, ◌++◌, arith, All, Bool, true, false, length,
  drop, replicate, if◌then◌else◌, ◌==◌, ◌||◌, not, Option, none, some, ap, All-append, drop-add,
  drop-length, ◌∙◌, sym,
}
use mathlib.Core.List.{append-nil}
use litebtree.Btree.Key.{memcmp, Sign, nil}
use litebtree.Util.Word.{IsByte, get4byte, put4byte, get4byte-put4byte, put4byte-IsByte}
use litebtree.Wal.Checksum.Format.{
  file_checksum, wal_checksum_bytes-file_checksum, IsSmall, file_checksum-IsSmall, sum_pairs,
}
use litebtree.Wal.Checksum.{Sums, is_native, wal_checksum_bytes}

-- The part of struct Wal and of its header that frames depend on.
pub record FrameState : Type 0 where
  pub big_end_cksum : Bool
  pub salt : List ℕ
  pub frame_cksum : Sums
  pub sz_page : ℕ
  pub re_cksum : ℕ

-- The checksum of the previous frames, extended by the first 8 bytes of the frame header and by
-- the page.
unfoldable pub extend_cksum : Bool → FrameState → List ℕ → List ℕ → Sums
unfolding wal_checksum_bytes
extend_cksum big_host w frame content =
    let native = is_native w.big_end_cksum big_host in
    let s = wal_checksum_bytes big_host native frame 8 w.frame_cksum in
    wal_checksum_bytes big_host native content w.sz_page s

unfoldable pub wal_encode_frame : Bool → FrameState → ℕ → ℕ → List ℕ → List ℕ × FrameState
unfolding extend_cksum put4byte
wal_encode_frame big_host w page truncate content =
    let start = put4byte page ++ put4byte truncate in
    let s = extend_cksum big_host w start content in
    if w.re_cksum == 0
    then (start ++ (w.salt ++ (put4byte s.0 ++ put4byte s.1)), record w { frame_cksum = s })
    else (start ++ replicate 16 0, w)

abbrev is_nil : Sign → Bool
is_nil nil = true
is_nil _ = false

-- The result is the page number and the new size of the database, or nothing for a frame that is
-- not valid. The running checksum is extended when the comparison of the checksums is reached.
unfoldable pub wal_decode_frame : Bool → FrameState → List ℕ → List ℕ → Option (ℕ × ℕ) × FrameState
unfolding extend_cksum get4byte memcmp
wal_decode_frame big_host w content frame =
    let pgno = get4byte frame in
    let s = extend_cksum big_host w frame content in
    let w' = record w { frame_cksum = s } in
    if not (is_nil (memcmp w.salt (drop 8 frame) 8))
    then (none, w)
    else if (pgno == 0) || (w.sz_page == 0)
    then (none, w)
    else if not (s.0 == get4byte (drop 16 frame)) || not (s.1 == get4byte (drop 20 frame))
    then (none, w')
    else (some (pgno, get4byte (drop 4 frame)), w')

memcmp_refl : (xs ys : List ℕ) (n : ℕ) → n ≡ length xs → memcmp xs (xs ++ ys) n ≡ nil
unfolding memcmp
memcmp_refl [] ys zero h = refl
memcmp_refl [] ys (suc n) h = absurd (omega arith)
memcmp_refl (x ∷ xs) ys zero h = refl
memcmp_refl (x ∷ xs) ys (suc n) h = ground (arith, memcmp_refl xs ys n)

length-put4byte : (v : ℕ) → 4 ≡ length (put4byte v)
unfolding put4byte
length-put4byte v = refl

-- The state of a log that is open: a salt of 8 bytes, and a page size that is a multiple of 8.
pub record IsOpenLog (w : FrameState) : Type 0 where
  pub salted : length w.salt ≡ 8
  pub salt_bytes : All IsByte w.salt
  pub whole : w.sz_page % 8 ≡ 0
  pub sized : 0 < w.sz_page
  pub small : IsSmall w.frame_cksum

module _ (w : FrameState) (open_log : IsOpenLog w) (content : List ℕ)
    (bytes : All IsByte content) where
  -- The sums that the file format asks for.
  abbrev file_cksum : List ℕ → Sums
  file_cksum frame =
      file_checksum w.big_end_cksum content w.sz_page
        (file_checksum w.big_end_cksum frame 8 w.frame_cksum)

  extend_cksum-file_cksum :
      (big_host : Bool) (frame : List ℕ)
      → All IsByte frame
      → extend_cksum big_host w frame content ≡ file_cksum frame
  unfolding extend_cksum
  extend_cksum-file_cksum big_host frame h =
      rw
        (wal_checksum_bytes-file_checksum big_host w.big_end_cksum frame 8 w.frame_cksum h
          (omega arith) refl)
        (wal_checksum_bytes-file_checksum big_host w.big_end_cksum content w.sz_page _ bytes
          open_log.sized open_log.whole)

  file_cksum-IsSmall : (frame : List ℕ) → IsSmall (file_cksum frame)
  file_cksum-IsSmall frame =
      file_checksum-IsSmall w.big_end_cksum content w.sz_page _
        (file_checksum-IsSmall w.big_end_cksum frame 8 w.frame_cksum open_log.small)

  module _ (page truncate : ℕ) where
    abbrev start : List ℕ
    start = put4byte page ++ put4byte truncate

    abbrev sums : Sums
    sums = file_cksum start

    abbrev tail : List ℕ
    tail = put4byte sums.0 ++ put4byte sums.1

    wal_encode_frame-eq :
        (big_host : Bool)
        → w.re_cksum ≡ 0
        → wal_encode_frame big_host w page truncate content
          ≡ (start ++ (w.salt ++ tail), record w { frame_cksum = sums })
    unfolding wal_encode_frame
    wal_encode_frame-eq big_host e =
        let same = extend_cksum-file_cksum big_host start (
          All-append IsByte (put4byte page) (put4byte truncate) (put4byte-IsByte page)
            (put4byte-IsByte truncate)) in
        rw same (ground (arith, e))

    frame : List ℕ
    frame = start ++ (w.salt ++ tail)

    frame-IsByte : All IsByte frame
    unfolding frame
    frame-IsByte =
        All-append IsByte start _
          (All-append IsByte (put4byte page) (put4byte truncate) (put4byte-IsByte page)
            (put4byte-IsByte truncate))
          (All-append IsByte w.salt tail open_log.salt_bytes (
            All-append IsByte (put4byte sums.0) (put4byte sums.1) (put4byte-IsByte sums.0)
              (put4byte-IsByte sums.1)))

    -- Only the first 8 bytes of the header are summed.
    first_eight : file_cksum frame ≡ sums
    unfolding file_checksum sum_pairs put4byte frame
    first_eight = refl

    extend_cksum-frame : (big_host : Bool) → extend_cksum big_host w frame content ≡ sums
    extend_cksum-frame big_host = extend_cksum-file_cksum big_host frame frame-IsByte ∙ first_eight

    module _ (page_word : page < 4294967296) (truncate_word : truncate < 4294967296) where
      got_page : get4byte frame ≡ page
      unfolding frame put4byte get4byte
      got_page = get4byte-put4byte page (put4byte truncate ++ (w.salt ++ tail)) page_word

      got_truncate : get4byte (drop 4 frame) ≡ truncate
      unfolding frame put4byte get4byte
      got_truncate = get4byte-put4byte truncate (w.salt ++ tail) truncate_word

      got_salt : memcmp w.salt (drop 8 frame) 8 ≡ nil
      unfolding frame put4byte
      got_salt = memcmp_refl w.salt tail 8 (sym open_log.salted)

      drop_sixteen : drop 16 frame ≡ tail
      unfolding frame put4byte
      drop_sixteen = drop-length 8 w.salt tail (sym open_log.salted)

      drop_twenty : drop 20 frame ≡ put4byte sums.1
      drop_twenty =
          drop-add 16 4 frame
          ∙ (ap (drop 4) drop_sixteen
              ∙ drop-length 4 (put4byte sums.0) (put4byte sums.1) (length-put4byte sums.0))

      got_sum1 : get4byte (drop 16 frame) ≡ sums.0
      got_sum1 =
          rw drop_sixteen (get4byte-put4byte sums.0 (put4byte sums.1) (file_cksum-IsSmall start).0)

      got_sum2 : get4byte (drop 20 frame) ≡ sums.1
      got_sum2 =
          rw (drop_twenty, ← append-nil (put4byte sums.1))
            (get4byte-put4byte sums.1 [] (file_cksum-IsSmall start).1)

      decode_frame :
          (big_host : Bool)
          → 0 < page
          → wal_decode_frame big_host w content frame
            ≡ (some (page, truncate), record w { frame_cksum = sums })
      unfolding wal_decode_frame
      decode_frame big_host real =
          let sized = open_log.sized in
          rw (extend_cksum-frame big_host, got_salt, got_page, got_truncate, got_sum1, got_sum2)
            (ground (arith, real, sized))

-- A frame that walEncodeFrame makes with an open log, when no checksums are to be recomputed, is
-- accepted by walDecodeFrame in the same state of the log, on a host of any byte order: it gives
-- the page number and the new database size, 32-bit numbers of which the first is not zero, and
-- both leave the same running checksum.
pub wal_decode_frame-wal_encode_frame :
    (writer_big reader_big : Bool) (w : FrameState) (page truncate : ℕ) (content : List ℕ)
    → IsOpenLog w
    → w.re_cksum ≡ 0
    → All IsByte content
    → 0 < page
    → page < 4294967296
    → truncate < 4294967296
    → wal_decode_frame reader_big w content (wal_encode_frame writer_big w page truncate content).0
      ≡ (some (page, truncate), (wal_encode_frame writer_big w page truncate content).1)
unfolding frame
wal_decode_frame-wal_encode_frame writer_big reader_big w page truncate content open_log e bytes
      real page_word truncate_word =
    rw (wal_encode_frame-eq w open_log content bytes page truncate writer_big e)
      (decode_frame w open_log content bytes page truncate page_word truncate_word reader_big real)

-- The log is open as before behind the frame.
pub wal_encode_frame-IsOpenLog :
    (big_host : Bool) (w : FrameState) (page truncate : ℕ) (content : List ℕ)
    → IsOpenLog w
    → w.re_cksum ≡ 0
    → All IsByte content
    → IsOpenLog (wal_encode_frame big_host w page truncate content).1
      × ((wal_encode_frame big_host w page truncate content).1.re_cksum ≡ 0)
wal_encode_frame-IsOpenLog big_host w page truncate content open_log e bytes =
    rw (wal_encode_frame-eq w open_log content bytes page truncate big_host e) (
      record {
        salted = open_log.salted;
        salt_bytes = open_log.salt_bytes;
        whole = open_log.whole;
        sized = open_log.sized;
        small = file_cksum-IsSmall w open_log content bytes (put4byte page ++ put4byte truncate);
      },
      e,
    )
