-- ===== src/Btree/Cursor.antt =====
-- The cursor of src/btree.c: its state, moves between parent and child pages, and the seeks to the
-- root, the first and the last entry. Pages are read only: no writer runs while a cursor moves.
pub mod Seek
pub mod Step
pub mod Total
pub mod Skip
pub mod Save
use litebtree.Base.{
  ℕ, zero, suc, ◌-◌, Bool, true, false, not, ◌&&◌, ◌||◌, Option, none, some, List, [], ◌∷◌, leb,
  ltb, ◌==◌, length, if◌then◌else◌, Rc, ok, corrupt, empty, is_ok,
}
use litebtree.Btree.Key.{Key, Sign}
use litebtree.Btree.Page.{MemPage, n_cell, find_cell}
use mathlib.Core.Bool.{xor}

-- What sqlite3PagerGet and btreeInitPage give for a page number: the decoded page, or an error.
pub data Fetch : Type 0 where
  fetched : MemPage → Fetch
  failed : Rc → Fetch

-- The shared B-tree, as a reader sees it: the size of the file in pages, and each page.
pub record BtShared : Type 0 where
  pub n_page : ℕ
  pub page : ℕ → Fetch

pub data CursorState : Type 0 where
  valid invalid skip_next require_seek fault : CursorState

-- BtCursor. `loaded` says that iPage is not -1; the pages apPage[0 .. iPage-1] and the indexes
-- aiIdx[0 .. iPage-1] are `parents`, the parent of the current page first, so that iPage is their
-- number. skipNext holds a sign, or in the state CURSOR_FAULT an error code. pKeyInfo is always
-- NULL, and `info` is a cache of a parse, which the model makes anew.
pub record Cursor : Type 0 where
  pub e_state : CursorState
  pub skip : Sign
  pub fault_code : Rc
  pub saved_key : Option Key
  pub pgno_root : ℕ
  pub loaded : Bool
  pub cur_int_key : Bool
  pub page : MemPage
  pub ix : ℕ
  pub parents : List (MemPage × ℕ)
  pub valid_n_key : Bool
  pub at_last : Bool

abbrev pub is_valid : CursorState → Bool
is_valid valid = true
is_valid _ = false

-- BTCURSOR_MAX_DEPTH
abbrev pub max_depth : ℕ
max_depth = 20

-- A call that may run out of fuel (`none`) returns its code with the new cursor.
abbrev pub Moved : Type 0
Moved = Option (Rc × Cursor)

-- if( rc==SQLITE_OK ) go on
abbrev pub on_ok : Rc × Cursor → (Cursor → Moved) → Moved
on_ok r k = if is_ok r.0 then k r.1 else some r

unfoldable pub get_and_init_page : BtShared → ℕ → Fetch
get_and_init_page bt pgno = if ltb bt.n_page pgno then failed corrupt else bt.page pgno

-- After a failure the cursor is back on its page, with `ix` still 0.
unfoldable pub move_to_child : BtShared → Cursor → ℕ → Rc × Cursor
move_to_child bt c pgno =
    let back = record c { valid_n_key = false; ix = 0 } in
    if leb (max_depth - 1) (length c.parents)
    then (corrupt, c)
    else elim (get_and_init_page bt pgno) [
      | failed rc ↦ (rc, back)
      | fetched p ↦ if ltb (n_cell p) 1 || xor p.int_key c.cur_int_key then (corrupt, back) else (
        ok,
        record c { valid_n_key = false; ix = 0; parents = (c.page, c.ix) ∷ c.parents; page = p },
      )
    ]

-- The loop that releases the pages below the root ends on apPage[0].
abbrev pub bottom : MemPage → List (MemPage × ℕ) → MemPage
bottom p [] = p
bottom p ((q, i) ∷ ps) = bottom q ps

-- From the label skip_init on, at the root page `c.page`.
unfoldable pub settle_root : BtShared → Cursor → Rc × Cursor
unfolding move_to_child
settle_root bt c₀ =
    let c = record c₀ { ix = 0; at_last = false; valid_n_key = false } in
    if ltb 0 (n_cell c.page)
    then (ok, record c { e_state = valid })
    else if c.page.leaf
    then (empty, record c { e_state = invalid })
    else if not (c.page.pgno == 1)
    then (corrupt, c)
    else move_to_child bt (record c { e_state = valid }) c.page.right_child

-- The check that the root page is one of a table tree, and then skip_init.
unfoldable pub check_root : BtShared → Cursor → Rc × Cursor
unfolding settle_root
check_root bt c = if c.page.int_key then settle_root bt c else (corrupt, c)

-- getAndInitPage for the root, after sqlite3BtreeClearCursor in the state CURSOR_REQUIRESEEK.
unfoldable pub load_root : BtShared → Cursor → Rc × Cursor
unfolding check_root
load_root bt c = elim (get_and_init_page bt c.pgno_root) [
  | failed rc ↦ (rc, record c { e_state = invalid })
  | fetched p ↦
      check_root bt (record c { page = p; parents = []; loaded = true; cur_int_key = p.int_key })
]

abbrev pub clear_cursor : Cursor → Cursor
clear_cursor c = record c { saved_key = none; e_state = invalid }

unfoldable pub open_root : BtShared → Cursor → CursorState → Rc × Cursor
unfolding load_root
open_root bt c fault = (c.fault_code, c)
open_root bt c require_seek = load_root bt (clear_cursor c)
open_root bt c _ = load_root bt c

unfoldable pub move_to_root : BtShared → Cursor → Rc × Cursor
unfolding open_root
move_to_root bt c =
    if c.loaded
    then elim c.parents [
      | [] ↦ check_root bt c
      | q ∷ ps ↦ settle_root bt (record c { page = bottom c.page c.parents; parents = [] })
    ]
    else if c.pgno_root == 0
    then (empty, record c { e_state = invalid })
    else open_root bt c c.e_state

-- The loops of moveToLeftmost and moveToRightmost. Every round but the last goes one level down.
unfoldable pub leftmost_loop : ℕ → BtShared → Cursor → Moved
leftmost_loop zero bt c = none
leftmost_loop (suc fuel) bt c =
    if c.page.leaf
    then some (ok, c)
    else on_ok (move_to_child bt c (find_cell c.page c.ix).child) (λ c'. leftmost_loop fuel bt c')

unfoldable pub rightmost_loop : ℕ → BtShared → Cursor → Moved
rightmost_loop zero bt c = none
rightmost_loop (suc fuel) bt c =
    if c.page.leaf
    then some (ok, record c { ix = n_cell c.page - 1 })
    else on_ok (move_to_child bt (record c { ix = n_cell c.page }) c.page.right_child)
        (λ c'. rightmost_loop fuel bt c')

unfoldable pub move_to_leftmost : BtShared → Cursor → Moved
move_to_leftmost bt c = leftmost_loop max_depth bt c

unfoldable pub move_to_rightmost : BtShared → Cursor → Moved
move_to_rightmost bt c = rightmost_loop max_depth bt c
