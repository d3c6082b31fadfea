-- ===== src/Wal/Index/Frames.antt =====
-- Frames and their blocks (src/wal.c, walFramePage and walFramePgno), and the invariant of the
-- whole wal-index.
use litebtree.Base.{
  ℕ, zero, suc, ◌+◌, ◌-◌, ◌/◌, ◌%◌, ◌≤◌, ◌<◌, ◌≡◌, refl, arith, ◌⊎◌, is_ok, true, inl,
}
use litebtree.Wal.Index.{WalIndex, hash_zero, wal_frame_page, wal_frame_pgno}
use litebtree.Wal.Index.Filled.{IsFilled}

-- The last frame that block i indexes.
abbrev pub block_end : ℕ → ℕ
block_end i = hash_zero (suc i)

start_of :
    (i f : ℕ) → (f + 33) % 4294967296 / 4096 ≡ i → 0 < f → f + 4096 < 4294967296 → hash_zero i < f
unfolding hash_zero
start_of zero f e h room = h
start_of (suc i) f e h room = omega arith

pub wal_frame_page-start :
    (f : ℕ) → 0 < f → f + 4096 < 4294967296 → hash_zero (wal_frame_page f) < f
unfolding wal_frame_page
wal_frame_page-start f h room = start_of _ f refl h room

pub hash_zero_mono : (i j : ℕ) → i < j → block_end i ≤ hash_zero j
unfolding hash_zero
hash_zero_mono i zero l = absurd (omega arith)
hash_zero_mono i (suc j) l = omega arith

pub hash_zero-small : (i : ℕ) → block_end i ≤ hash_zero i + 4096
unfolding hash_zero
hash_zero-small zero = omega arith
hash_zero-small (suc i) = omega arith

pub hash_zero-end : (i : ℕ) → hash_zero i < block_end i
unfolding hash_zero
hash_zero-end zero = omega arith
hash_zero-end (suc i) = omega arith

pub wal_frame_page_unique :
    (i f : ℕ) → hash_zero i < f → f ≤ block_end i → f + 4096 < 4294967296 → wal_frame_page f ≡ i
unfolding wal_frame_page hash_zero
wal_frame_page_unique zero f h l room = omega arith
wal_frame_page_unique (suc i) f h l room = omega arith

pub wal_frame_page-end : (f : ℕ) → 0 < f → f + 4096 < 4294967296 → f ≤ block_end (wal_frame_page f)
unfolding wal_frame_page hash_zero
wal_frame_page-end f h room = omega arith

pub wal_frame_pgno-at :
    (w : WalIndex) (i j : ℕ)
    → suc j + hash_zero i ≤ block_end i
    → suc j + hash_zero i + 4096 < 4294967296
    → wal_frame_pgno w (suc j + hash_zero i) ≡ (w.block i).a_pgno j
unfolding wal_frame_pgno hash_zero
wal_frame_pgno-at w zero j l room =
    let p = wal_frame_page_unique zero (suc j + hash_zero zero) (omega arith) l room in
    let same : suc j + hash_zero zero - 1 ≡ j = omega arith in rw (wal_frame_pgno, p, same) refl
wal_frame_pgno-at w (suc i) j l room =
    let p = wal_frame_page_unique (suc i) (suc j + hash_zero (suc i)) (omega arith) l room in
    let same : (suc j + hash_zero (suc i) - 1 - 4062) % 4096 ≡ j = omega arith in
    rw (wal_frame_pgno, p, same) (ground arith)

-- Block i of an index of n frames: its entries are those up to frame n, and more only while the
-- frames of an unfinished transaction are beyond n.
pub record IsCovered (w : WalIndex) (n i m : ℕ) : Type 0 where
  pub mapped : is_ok (w.mapped i) ≡ true
  pub filled : IsFilled (w.block i) m
  pub fits : m + hash_zero i ≤ block_end i
  pub covers : (n ≤ m + hash_zero i) ⊎ (m + hash_zero i ≡ block_end i)
  pub exact : (w.mx_frame ≡ n) ⊎ (m + hash_zero i ≤ n)

-- The wal-index holds n frames, of which the header counts mxFrame as committed. The bound keeps
-- frame numbers from wrapping.
pub record IsIndex (w : WalIndex) (n : ℕ) : Type 0 where
  pub behind : w.mx_frame ≤ n
  pub room : n + 4096 < 4294967296
  pub covered : (i : ℕ) → hash_zero i < n → (m : ℕ) × IsCovered w n i m

-- A commit counts all frames.
abbrev pub committed : WalIndex → ℕ → WalIndex
committed w n = record w { mx_frame = n }

pub committed-IsIndex : (w : WalIndex) (n : ℕ) → IsIndex w n → IsIndex (committed w n) n
committed-IsIndex w n index = record {
  behind = omega arith;
  room = index.room;
  covered = λ i l.
      let (m, c) = index.covered i l in
      (
        m,
        record {
          mapped = c.mapped;
          filled = c.filled;
          fits = c.fits;
          covers = c.covers;
          exact = inl refl;
        },
      );
}
