-- ===== src/Wal/Index/Append.antt =====
-- walIndexAppend on the whole wal-index (src/wal.c): it ends, and the frame is then indexed.
use litebtree.Base.{
  ℕ, suc, ◌+◌, ◌-◌, ◌≤◌, ◌<◌, ◌≡◌, ◌≢◌, refl, ap, arith, inl, inr, is_ok, true, ℕ_discrete, ◌∙◌, ok,
  some, dec_lt, ◌%◌,
}
use litebtree.Wal.Index.{
  Block, WalIndex, hash_zero, wal_hash, wal_frame_page, wal_frame_pgno, wal_cleanup_hash, set_block,
  zeroed, make_room, store_entry, enter, free_slot, wal_index_append,
}
use litebtree.Wal.Index.Change.{
  AgreeBut, AgreeBut-refl, AgreeBut-trans, IsIndex-change, wal_frame_pgno-same,
}
use litebtree.Wal.Index.Cleanup.{
  IsCleaned, wal_cleanup_hash-IsCleaned, set_block-AgreeBut, set_block-same,
}
use litebtree.Wal.Index.Filled.{IsFilled, put-same, enter-IsFilled, wal_hash-small}
use litebtree.Wal.Index.Frames.{
  IsIndex, block_end, hash_zero-small, wal_frame_page-start, wal_frame_page-end,
  wal_frame_page_unique, wal_frame_pgno-at,
}
use litebtree.Wal.Index.Probe.{at, has-IsGap, free_slot-gap}

-- Block i of w' has exactly k entries, those of w; nothing else has changed.
record IsReady (w w' : WalIndex) (i k : ℕ) : Type 0 where
  at_mx : w'.mx_frame ≡ w.mx_frame
  agree : AgreeBut i w w'
  filled : IsFilled (w'.block i) k
  old : (j : ℕ) → j < k → (w'.block i).a_pgno j ≡ (w.block i).a_pgno j

zeroed-IsFilled : IsFilled zeroed 0
zeroed-IsFilled = record {
  few = omega arith;
  bound = λ k l. omega arith;
  once = λ i k li lk same set. absurd (set refl);
  entry = λ j l. absurd (omega arith);
  used = λ j l. absurd (omega arith);
  unused = λ j l. refl;
}

IsFilled-exact : (b : Block) (m k : ℕ) → IsFilled b m → k ≤ m → b.a_pgno k ≡ 0 → IsFilled b k
IsFilled-exact b m k f l z = elim (ℕ_discrete k m) [
  | yes e ↦ rw e f
  | no other ↦ let u = f.used k (omega arith) in absurd (omega arith)
]

module _ (w : WalIndex) (n i : ℕ) (index : IsIndex w n) (start : hash_zero i ≤ n)
    (end : suc n ≤ block_end i) where
  -- The first entry of a block.
  make_room-first : n ≡ hash_zero i → IsReady w (make_room w i (suc n - hash_zero i)) i 0
  unfolding make_room
  make_room-first e =
      let one : suc n - hash_zero i ≡ 1 = omega arith in
      rw (one, put-same w.block i zeroed)
        (record {
          at_mx = refl;
          agree = set_block-AgreeBut w i zeroed;
          filled = rw (set_block-same w i zeroed) zeroed-IsFilled;
          old = λ j l. absurd (omega arith);
        })

  make_room-kept : (k : ℕ) → 0 < k → (w.block i).a_pgno k ≡ 0 → make_room w i (suc k) ≡ w
  unfolding make_room
  make_room-kept k p z = ground (arith, p, z)

  make_room-cleaned :
      (k : ℕ) → 0 < k → (w.block i).a_pgno k ≢ 0 → make_room w i (suc k) ≡ wal_cleanup_hash w
  unfolding make_room
  make_room-cleaned k p z = ground (arith, p, z)

  IsCleaned-IsReady :
      (w' : WalIndex)
      → w.mx_frame ≡ n
      → wal_frame_page w.mx_frame ≡ i
      → IsCleaned w w'
      → IsReady w w' i (n - hash_zero i)
  IsCleaned-IsReady w' e p c = record {
    at_mx = c.at_mx;
    agree = rw (← p) c.agree;
    filled = rw (← p, ← e) c.filled;
    old = rw (← p, ← e) c.old;
  }

  -- A later entry: either its page number is zero and nothing is beyond it, or a clean-up makes
  -- room.
  make_room-next :
      hash_zero i < n → IsReady w (make_room w i (suc (n - hash_zero i))) i (n - hash_zero i)
  make_room-next l =
      let k = n - hash_zero i in
      let (m, c) = index.covered i l in
      let covers = c.covers in
      let exact = c.exact in
      let room = index.room in
      elim (ℕ_discrete ((w.block i).a_pgno k) 0) [
        | yes z ↦ rw (make_room-kept k (omega arith) z) (record {
          at_mx = refl;
          agree = AgreeBut-refl i w;
          filled = IsFilled-exact (w.block i) m k c.filled (omega arith) z;
          old = λ j h. refl;
        })
        | no nz ↦
            let filled = c.filled in
            let more : k < m = elim (dec_lt k m) [
              | yes h ↦ h
              | no h ↦ absurd (nz (filled.unused k (omega arith)))
            ] in
            let e : w.mx_frame ≡ n = omega arith in
            let p : wal_frame_page w.mx_frame ≡ i =
              rw e (wal_frame_page_unique i n l (omega arith) (omega arith)) in
            rw (make_room-cleaned k (omega arith) nz) (
              IsCleaned-IsReady _ e p (
                wal_cleanup_hash-IsCleaned w m (omega arith) (rw p c.mapped) (rw p c.filled)
                  (rw p (omega arith))))
      ]

  make_room-IsReady : IsReady w (make_room w i (suc n - hash_zero i)) i (n - hash_zero i)
  make_room-IsReady =
      let idx : suc n - hash_zero i ≡ suc (n - hash_zero i) = omega arith in
      elim (ℕ_discrete n (hash_zero i)) [
        | yes e ↦ let none : n - hash_zero i ≡ 0 = omega arith in rw none (make_room-first e)
        | no other ↦ rw idx (make_room-next (omega arith))
      ]

-- What an append of `page` as frame n promises, of the state before it, w, and after it, w'.
pub record IsAppended (w w' : WalIndex) (n page : ℕ) : Type 0 where
  pub index : IsIndex w' n
  pub at_mx : w'.mx_frame ≡ w.mx_frame
  pub here : wal_frame_pgno w' n ≡ page
  pub same_mapped : (i : ℕ) → w'.mapped i ≡ w.mapped i
  pub older : (f : ℕ) → 0 < f → f < n → wal_frame_pgno w' f ≡ wal_frame_pgno w f

enter-here : (b : Block) (k page s : ℕ) → k < 4096 → (enter (suc k) page s b).a_pgno k ≡ page
unfolding enter
enter-here b k page s l = let same : (suc k - 1) % 4096 ≡ k = omega arith in ground (arith, same)

enter-old :
    (b : Block) (k page s j : ℕ) → k < 4096 → j < k → (enter (suc k) page s b).a_pgno j ≡ b.a_pgno j
unfolding enter
enter-old b k page s j l m = let same : (suc k - 1) % 4096 ≡ k = omega arith in ground (arith, same)

store_entry-found :
    (w : WalIndex) (i idx page s : ℕ)
    → free_slot idx (w.block i).a_hash (wal_hash page) ≡ some s
    → store_entry w i idx page ≡ (ok, set_block w i (enter idx page s (w.block i)))
unfolding store_entry
store_entry-found w i idx page s found = rw (store_entry, found) refl

-- Block i of w' has one entry more than that of w, for the page.
record IsStored (w w' : WalIndex) (i k page : ℕ) : Type 0 where
  same_mx : w'.mx_frame ≡ w.mx_frame
  but : AgreeBut i w w'
  grown : IsFilled (w'.block i) (suc k)
  stored : (w'.block i).a_pgno k ≡ page
  kept : (j : ℕ) → j < k → (w'.block i).a_pgno j ≡ (w.block i).a_pgno j

module _ (w : WalIndex) (i k page : ℕ) (filled : IsFilled (w.block i) k) (room : k < 4096)
    (real : 0 < page) where
  -- The probe finds a slot.
  store_entry-IsStored :
      (w' : WalIndex) × (store_entry w i (suc k) page ≡ (ok, w')) × IsStored w w' i k page
  store_entry-IsStored =
      let b = w.block i in
      let (d, near, gap) =
        has-IsGap b.a_hash k (wal_hash page) (omega arith) filled.bound filled.once in
      let s = at (wal_hash page) d in
      let found =
        free_slot-gap (suc k) d b.a_hash (wal_hash page) (wal_hash-small page) (omega arith) gap in
      let b' = enter (suc k) page s b in
      (
        set_block w i b',
        store_entry-found w i (suc k) page s found,
        record {
          same_mx = refl;
          but = set_block-AgreeBut w i b';
          grown = rw (set_block-same w i b') (enter-IsFilled b k page d filled room real near gap);
          stored = rw (set_block-same w i b') (enter-here b k page s room);
          kept = λ j l. rw (set_block-same w i b') (enter-old b k page s j room l);
        },
      )

module _ (w w₂ w' : WalIndex) (n i page : ℕ) (index : IsIndex w n) (room : n + 4097 < 4294967296)
    (start : hash_zero i ≤ n) (end : suc n ≤ block_end i) (mapped : is_ok (w.mapped i) ≡ true)
    (ready : IsReady w w₂ i (n - hash_zero i))
    (put_in : IsStored w₂ w' i (n - hash_zero i) page) where
  agree : AgreeBut i w w'
  agree = AgreeBut-trans i w w₂ w' ready.agree put_in.but

  at_mx : w'.mx_frame ≡ w.mx_frame
  at_mx = put_in.same_mx ∙ ready.at_mx

  append-IsIndex : IsIndex w' (suc n)
  append-IsIndex =
      let behind = index.behind in
      let same = at_mx in
      IsIndex-change w w' i (suc (n - hash_zero i)) n (suc n) index agree start (omega arith) end
        (omega arith) (omega arith)
        (record {
          mapped = let same_mapped = agree.same_mapped i in rw same_mapped mapped;
          filled = put_in.grown;
          fits = omega arith;
          covers = inl (omega arith);
          exact = inr (omega arith);
        })

  append-here : wal_frame_pgno w' (suc n) ≡ page
  append-here =
      let eq : suc n ≡ suc (n - hash_zero i) + hash_zero i = omega arith in
      ap (wal_frame_pgno w') eq
      ∙ (wal_frame_pgno-at w' i (n - hash_zero i) (omega arith) (omega arith) ∙ put_in.stored)

  append-older : (f : ℕ) → 0 < f → f < suc n → wal_frame_pgno w' f ≡ wal_frame_pgno w f
  append-older f p l =
      wal_frame_pgno-same w w' f p (omega arith) (elim (ℕ_discrete (wal_frame_page f) i) [
        | yes e ↦
            let first = wal_frame_page-start f p (omega arith) in
            let z : hash_zero (wal_frame_page f) ≡ hash_zero i = rw e refl in
            let j = f - 1 - hash_zero i in
            rw e (put_in.kept j (omega arith) ∙ ready.old j (omega arith))
        | no other ↦
            let same_block = agree.same_block (wal_frame_page f) other in rw same_block refl
      ])

  append-IsAppended : IsAppended w w' (suc n) page
  append-IsAppended = record {
    index = append-IsIndex;
    at_mx = at_mx;
    here = append-here;
    same_mapped = agree.same_mapped;
    older = append-older;
  }

wal_index_append-run :
    (w : WalIndex) (f page : ℕ)
    → is_ok (w.mapped (wal_frame_page f)) ≡ true
    → wal_index_append w f page
      ≡ store_entry
          (make_room w (wal_frame_page f) (f - hash_zero (wal_frame_page f)))
          (wal_frame_page f)
          (f - hash_zero (wal_frame_page f))
          page
unfolding wal_index_append
wal_index_append-run w f page mapped = rw (wal_index_append, mapped) refl

-- On a wal-index of n frames, mxFrame of them committed and n + 4097 below 2^32, walIndexAppend of
-- a page greater than zero as frame n + 1 ends with SQLITE_OK if the block of the frame can be
-- mapped: the index then has n + 1 frames, the new one is of the page, and the others are as they
-- were.
pub wal_index_append-IsAppended :
    (w : WalIndex) (n page : ℕ)
    → IsIndex w n
    → n + 4097 < 4294967296
    → 0 < page
    → is_ok (w.mapped (wal_frame_page (suc n))) ≡ true
    → (w' : WalIndex) × (wal_index_append w (suc n) page ≡ (ok, w')) × IsAppended w w' (suc n) page
wal_index_append-IsAppended w n page index room real mapped =
    let i = wal_frame_page (suc n) in
    let first = wal_frame_page-start (suc n) (omega arith) (omega arith) in
    let end = wal_frame_page-end (suc n) (omega arith) (omega arith) in
    let small = hash_zero-small i in
    let ready = make_room-IsReady w n i index (omega arith) end in
    let idx : suc n - hash_zero i ≡ suc (n - hash_zero i) = omega arith in
    let (w', run, stored) =
      store_entry-IsStored (make_room w i (suc n - hash_zero i)) i (n - hash_zero i) page
        ready.filled (omega arith) real in
    (
      w',
      wal_index_append-run w (suc n) page mapped
          ∙ (ap (λ x. store_entry (make_room w i (suc n - hash_zero i)) i x page) idx ∙ run),
      append-IsAppended w _ w' n i page index room (omega arith) end mapped ready stored,
    )
