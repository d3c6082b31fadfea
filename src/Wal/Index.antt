-- ===== src/Wal/Index.antt =====
-- The wal-index of src/wal.c: for each block of frames an array of page numbers and an
-- open-addressing hash table, which tells the frame that holds the newest content of a page.
--
-- An array in shared memory is a function from its indexes. The result code of mapping a block
-- (walIndexPage, which calls the VFS) is a field of the state. Masks with a power of two less one
-- are written as remainders.
mod Probe
mod Filled
pub mod Append
mod Clean
mod Search
pub mod Frames
pub mod Lookup
mod Change
pub mod Cleanup
use litebtree.Base.{
  ℕ, zero, suc, ◌+◌, ◌-◌, ◌*◌, ◌/◌, ◌%◌, Bool, ◌&&◌, ◌||◌, not, Option, none, some, if◌then◌else◌,
  ltb, leb, ◌==◌, Rc, ok, corrupt, is_ok,
}

abbrev pub hashtable_npage : ℕ
hashtable_npage = 4096

-- The first block shares its page with the 136 bytes of the index header.
abbrev pub hashtable_npage_one : ℕ
hashtable_npage_one = 4062

abbrev pub hashtable_nslot : ℕ
hashtable_nslot = 8192

abbrev pub u32 : ℕ
u32 = 4294967296

unfoldable pub wal_hash : ℕ → ℕ
wal_hash page = ((page * 383) % u32) % hashtable_nslot

unfoldable pub wal_next_hash : ℕ → ℕ
wal_next_hash key = (key + 1) % hashtable_nslot

-- One block: aPgno[] and aHash[].
pub record Block : Type 0 where
  pub a_pgno : ℕ → ℕ
  pub a_hash : ℕ → ℕ

-- The part of struct Wal that the index functions use: the header's mxFrame, minFrame, whether the
-- reader ignores the log (readLock is 0 and bShmUnreliable is 0), and the blocks.
pub record WalIndex : Type 0 where
  pub mx_frame : ℕ
  pub min_frame : ℕ
  pub ignores_wal : Bool
  pub mapped : ℕ → Rc
  pub block : ℕ → Block

-- The iZero of walHashGet.
unfoldable pub hash_zero : ℕ → ℕ
hash_zero zero = 0
hash_zero (suc i) = hashtable_npage_one + i * hashtable_npage

unfoldable pub wal_frame_page : ℕ → ℕ
wal_frame_page frame = ((frame + 33) % u32) / hashtable_npage

unfoldable pub wal_frame_pgno : WalIndex → ℕ → ℕ
unfolding wal_frame_page
wal_frame_pgno w frame =
    let i = wal_frame_page frame in
    if i == 0
    then (w.block 0).a_pgno (frame - 1)
    else (w.block i).a_pgno ((frame - 1 - hashtable_npage_one) % hashtable_npage)

abbrev pub put {ℓ} : {A : Type ℓ} → (ℕ → A) → ℕ → A → ℕ → A
put f i a j = if j == i then a else f j

abbrev pub set_block : WalIndex → ℕ → Block → WalIndex
set_block w i b = record w { block = put w.block i b }

-- The two loops of walCleanupHash: slots above the limit are emptied, and the page numbers from
-- the limit to the end of the array are zeroed.
unfoldable pub clean_block : ℕ → Block → Block
clean_block limit b = record {
  a_pgno = λ j. if leb limit j then 0 else b.a_pgno j;
  a_hash = λ k. if ltb limit (b.a_hash k) then 0 else b.a_hash k;
}

unfoldable pub wal_cleanup_hash : WalIndex → WalIndex
unfolding wal_frame_page hash_zero clean_block
wal_cleanup_hash w =
    let i = wal_frame_page w.mx_frame in
    if w.mx_frame == 0
    then w
    else if is_ok (w.mapped i)
    then set_block w i (clean_block (w.mx_frame - hash_zero i) (w.block i))
    else w

-- The probe for a free slot in walIndexAppend; the number is nCollide, and `none` is the return
-- of SQLITE_CORRUPT.
unfoldable pub free_slot : ℕ → (ℕ → ℕ) → ℕ → Option ℕ
unfolding wal_next_hash
free_slot zero a_hash key = if a_hash key == 0 then some key else none
free_slot (suc n) a_hash key =
    let rest = free_slot n a_hash (wal_next_hash key) in if a_hash key == 0 then some key else rest

-- The two stores of walIndexAppend: an element of aPgno[] and a 16-bit slot.
unfoldable pub enter : ℕ → ℕ → ℕ → Block → Block
enter idx page key b = record {
  a_pgno = put b.a_pgno ((idx - 1) % hashtable_npage) page;
  a_hash = put b.a_hash key (idx % 65536);
}

abbrev pub zeroed : Block
zeroed = record { a_pgno = λ j. 0; a_hash = λ k. 0 }

-- walIndexAppend behind the clean-up: probe, then store.
unfoldable pub store_entry : WalIndex → ℕ → ℕ → ℕ → Rc × WalIndex
unfolding free_slot enter wal_hash
store_entry w i idx page = elim (free_slot idx (w.block i).a_hash (wal_hash page)) [
  | none ↦ (corrupt, w)
  | some key ↦ (ok, set_block w i (enter idx page key (w.block i)))
]

-- What walIndexAppend does before it probes: the first entry of a block zeroes the block, and a
-- page number that is set already is the remnant of an unfinished transaction, to be cleaned up.
unfoldable pub make_room : WalIndex → ℕ → ℕ → WalIndex
unfolding wal_cleanup_hash
make_room w i idx =
    let w₁ = if idx == 1 then set_block w i zeroed else w in
    if (w₁.block i).a_pgno (idx - 1) == 0 then w₁ else wal_cleanup_hash w₁

unfoldable pub wal_index_append : WalIndex → ℕ → ℕ → Rc × WalIndex
unfolding wal_frame_page hash_zero make_room store_entry
wal_index_append w frame page =
    let i = wal_frame_page frame in
    let idx = frame - hash_zero i in
    if is_ok (w.mapped i) then store_entry (make_room w i idx) i idx page else (w.mapped i, w)

-- Whether walFindFrame takes the slot value `h` of a block for the page.
unfoldable pub is_match : ℕ → ℕ → (ℕ → ℕ) → ℕ → ℕ → ℕ → Bool
is_match last least a_pgno base pgno h =
    let frame = (h + base) % u32 in
    leb frame last && leb least frame && (a_pgno ((h - 1) % hashtable_npage) == pgno)

-- The inner loop of walFindFrame. The number is nCollide, `none` the return of SQLITE_CORRUPT,
-- `read` is iRead.
unfoldable pub find_in : ℕ → (ℕ → Bool) → ℕ → (ℕ → ℕ) → ℕ → ℕ → Option ℕ
unfolding wal_next_hash
find_in zero matches base a_hash key read = if a_hash key == 0 then some read else none
find_in (suc n) matches base a_hash key read =
    let h = a_hash key in
    let read' = if matches h then (h + base) % u32 else read in
    let rest = find_in n matches base a_hash (wal_next_hash key) read' in
    if h == 0 then some read else rest

-- The search of one block.
unfoldable pub find_in_block : WalIndex → ℕ → ℕ → Option ℕ
unfolding find_in is_match hash_zero wal_hash
find_in_block w pgno i =
    let b = w.block i in
    find_in hashtable_nslot (is_match w.mx_frame w.min_frame b.a_pgno (hash_zero i) pgno)
      (hash_zero i) b.a_hash (wal_hash pgno) 0

-- One round of the outer loop of walFindFrame, for the block i; `below` is what the later rounds
-- give.
unfoldable pub find_round : WalIndex → ℕ → ℕ → Rc × ℕ → Rc × ℕ
unfolding find_in_block wal_frame_page
find_round w pgno i below =
    if leb (wal_frame_page w.min_frame) i
    then if is_ok (w.mapped i)
      then elim (find_in_block w pgno i) [
        | none ↦ (corrupt, 0)
        | some zero ↦ below
        | some (suc frame) ↦ (ok, suc frame)
      ]
      else (w.mapped i, 0)
    else (ok, 0)

unfoldable pub find_from : WalIndex → ℕ → ℕ → Rc × ℕ
unfolding find_round
find_from w pgno zero = find_round w pgno zero (ok, 0)
find_from w pgno (suc i) = let below = find_from w pgno i in find_round w pgno (suc i) below

unfoldable pub wal_find_frame : WalIndex → ℕ → Rc × ℕ
unfolding find_from wal_frame_page
wal_find_frame w pgno =
    if (w.mx_frame == 0) || w.ignores_wal
    then (ok, 0)
    else find_from w pgno (wal_frame_page w.mx_frame)

-- The linear search that an expensive assertion of walFindFrame compares with: from `frame` down
-- to minFrame.
unfoldable pub scan_back : WalIndex → ℕ → ℕ → ℕ
unfolding wal_frame_pgno
scan_back w pgno zero = 0
scan_back w pgno (suc frame) =
    let rest = scan_back w pgno frame in
    if leb w.min_frame (suc frame)
    then if wal_frame_pgno w (suc frame) == pgno then suc frame else rest
    else 0
