-- ===== src/Wal/Index/Change.antt =====
-- Changes of one block of the wal-index: what they leave of the older frames and blocks.
use litebtree.Base.{
  ℕ, suc, ◌+◌, ◌-◌, ◌≤◌, ◌<◌, ◌≡◌, ◌≢◌, refl, arith, inr, ℕ_discrete, dec_lt, sym, ◌∙◌, ap,
}
use litebtree.Wal.Index.{WalIndex, hash_zero, wal_frame_page, wal_frame_pgno}
use litebtree.Wal.Index.Frames.{
  IsIndex, IsCovered, block_end, hash_zero_mono, hash_zero-end, wal_frame_page-start,
  wal_frame_page-end, wal_frame_pgno-at,
}

-- The two states differ in block i, and in mxFrame, at most.
pub record AgreeBut (i : ℕ) (w w' : WalIndex) : Type 0 where
  pub same_mapped : (j : ℕ) → w'.mapped j ≡ w.mapped j
  pub same_block : (j : ℕ) → j ≢ i → w'.block j ≡ w.block j

pub AgreeBut-refl : (i : ℕ) (w : WalIndex) → AgreeBut i w w
AgreeBut-refl i w = record { same_mapped = λ j. refl; same_block = λ j h. refl }

pub AgreeBut-trans : (i : ℕ) (u v w : WalIndex) → AgreeBut i u v → AgreeBut i v w → AgreeBut i u w
AgreeBut-trans i u v w a b = record {
  same_mapped = λ j. b.same_mapped j ∙ a.same_mapped j;
  same_block = λ j h. b.same_block j h ∙ a.same_block j h;
}

-- Frames of a block have the same page numbers when the entries have.
pub wal_frame_pgno-same :
    (w w' : WalIndex) (f : ℕ)
    → 0 < f
    → f + 4096 < 4294967296
    → (w'.block (wal_frame_page f)).a_pgno (f - 1 - hash_zero (wal_frame_page f))
      ≡ (w.block (wal_frame_page f)).a_pgno (f - 1 - hash_zero (wal_frame_page f))
    → wal_frame_pgno w' f ≡ wal_frame_pgno w f
wal_frame_pgno-same w w' f pos room h =
    let i = wal_frame_page f in
    let j = f - 1 - hash_zero i in
    let start = wal_frame_page-start f pos room in
    let end = wal_frame_page-end f pos room in
    let eq : f ≡ suc j + hash_zero i = omega arith in
    let p = wal_frame_pgno-at w i j (omega arith) (omega arith) in
    let q = wal_frame_pgno-at w' i j (omega arith) (omega arith) in
    ap (wal_frame_pgno w') eq ∙ (q ∙ (h ∙ (sym p ∙ ap (wal_frame_pgno w) (sym eq))))

-- A block that starts before a frame of block i, and is another one, ends before block i.
pub block_before :
    (i j f : ℕ) → hash_zero j < f → f ≤ block_end i → j ≢ i → block_end j ≤ hash_zero i
block_before i j f a b h = elim (dec_lt j i) [
  | yes l ↦ hash_zero_mono j i l
  | no l ↦ let m = hash_zero_mono i j (omega arith) in absurd (omega arith)
]

-- Older blocks are full, and stay as they are.
pub IsCovered-older :
    (w w' : WalIndex) (i j m n n' : ℕ)
    → AgreeBut i w w'
    → j ≢ i
    → block_end j ≤ hash_zero i
    → hash_zero i ≤ n
    → hash_zero i ≤ n'
    → IsCovered w n j m
    → IsCovered w' n' j m
IsCovered-older w w' i j m n n' agree other before h h' c = record {
  mapped = rw (agree.same_mapped j) c.mapped;
  filled = rw (agree.same_block j other) c.filled;
  fits = c.fits;
  covers = let a = c.fits in let b = c.covers in inr (omega arith);
  exact = let a = c.fits in inr (omega arith);
}

-- The index after a change of block i, which is the last one.
pub IsIndex-change :
    (w w' : WalIndex) (i m n n' : ℕ)
    → IsIndex w n
    → AgreeBut i w w'
    → hash_zero i ≤ n
    → hash_zero i < n'
    → n' ≤ block_end i
    → n' + 4096 < 4294967296
    → w'.mx_frame ≤ n'
    → IsCovered w' n' i m
    → IsIndex w' n'
IsIndex-change w w' i m n n' index agree h h' end room behind c = record {
  behind = behind;
  room = room;
  covered = λ j a. elim (ℕ_discrete j i) [
    | yes e ↦ rw e (m, c)
    | no other ↦
        let before = block_before i j n' a end other in
        let (m', c') = index.covered j (let l = hash_zero-end j in omega arith) in
        (m', IsCovered-older w w' i j m' n n' agree other before h (omega arith) c')
  ];
}
