-- ===== src/Btree/Cursor/Seek.antt =====
-- Seeks of src/btree.c: sqlite3BtreeFirst, sqlite3BtreeLast, sqlite3BtreeKvMoveto, and the restore
-- of a saved position.
use litebtree.Base.{
  is_ok, ℕ, zero, suc, Bool, true, false, not, ◌&&◌, ◌==◌, length, Option, none, some, leb,
  if◌then◌else◌, Rc, ok, empty, [],
}
use mathlib.Core.Option
use litebtree.Btree.Key.{Key, Sign, neg, nil, memcmp}
use litebtree.Btree.Page.{
  MemPage, Found, exact, miss, stuck, n_cell, find_cell, key_at, search_page,
}
use litebtree.Btree.Cursor.{
  BtShared, Cursor, CursorState, invalid, skip_next, fault, require_seek, Moved, is_valid,
  max_depth, move_to_child, move_to_root, move_to_leftmost, move_to_rightmost,
}

abbrev pub is_nil : Sign → Bool
is_nil nil = true
is_nil _ = false

-- *pRes: whether the table is empty.
pub record Sought : Type 0 where
  pub rc : Rc
  pub res : Bool
  pub cursor : Cursor

abbrev pub sought : Bool → Rc × Cursor → Sought
sought res r = record { rc = r.0; res = res; cursor = r.1 }

abbrev pub seek_end : (Cursor → Moved) → Rc × Cursor → Bool → Option Sought
seek_end down (ok, c) res = Option.map (sought false) (down c)
seek_end down (empty, c) res = some (sought true (ok, c))
seek_end down (rc, c) res = some (sought res (rc, c))

unfoldable pub first : BtShared → Cursor → Bool → Option Sought
first bt c res = seek_end (move_to_leftmost bt) (move_to_root bt c) res

-- After the move BTCF_AtLast says whether it succeeded.
abbrev pub mark_last : Rc × Cursor → Rc × Cursor
mark_last (rc, c) = (rc, record c { at_last = is_ok rc })

unfoldable pub btree_last : BtShared → Cursor → Bool → Option Sought
btree_last bt c res =
    seek_end (λ c'. Option.map mark_last (move_to_rightmost bt c')) (move_to_root bt c) res

unfoldable pub last : BtShared → Cursor → Bool → Option Sought
unfolding btree_last
last bt c res =
    if is_valid c.e_state && c.at_last then some (sought false (ok, c)) else btree_last bt c res

-- The result of a moveto: *pRes is the sign of the comparison of the entry at the cursor with the
-- key. On an error it keeps the value that it had before the call.
pub record Placed : Type 0 where
  pub rc : Rc
  pub res : Sign
  pub cursor : Cursor

abbrev pub placed : Sign → Rc × Cursor → Placed
placed res r = record { rc = r.0; res = res; cursor = r.1 }

-- The label kv_moveto_next_layer: the child that a search of an interior page selects.
abbrev pub child_at : MemPage → ℕ → ℕ
child_at p lwr = if leb (n_cell p) lwr then p.right_child else (find_cell p lwr).child

unfoldable pub next_layer : (Cursor → Option Placed) → BtShared → Cursor → ℕ → Sign → Option Placed
next_layer go bt c lwr res =
    let r = move_to_child bt (record c { ix = lwr }) (child_at c.page lwr) in
    if is_ok r.0 then go r.1 else some (placed res r)

-- What follows the search of one page.
unfoldable pub act_on : (Cursor → Option Placed) → BtShared → Cursor → Sign → Found → Option Placed
unfolding next_layer
act_on go bt c res (exact idx) =
    if c.page.leaf
    then some (placed nil (ok, record c { ix = idx; valid_n_key = true }))
    else next_layer go bt (record c { ix = idx }) idx res
act_on go bt c res (miss lwr idx s) =
    if c.page.leaf then some (placed s (ok, record c { ix = idx })) else next_layer go bt c lwr res
act_on go bt c res stuck = none

unfoldable pub descend : ℕ → BtShared → Cursor → Key → Bool → Sign → Option Placed
unfolding act_on search_page
descend zero bt c key bias res = none
descend (suc fuel) bt c key bias res =
    act_on (λ c'. descend fuel bt c' key bias res) bt c res (search_page c.page key bias)

unfoldable pub from_root : BtShared → Rc × Cursor → Key → Bool → Sign → Option Placed
unfolding descend
from_root bt (ok, c) key bias res = descend max_depth bt c key bias res
from_root bt (empty, c) key bias res = some (placed neg (ok, c))
from_root bt (rc, c) key bias res = some (placed res (rc, c))

-- The test of the fast path: the cursor is valid on an entry with this very key.
abbrev pub is_there : Cursor → Key → Bool
is_there c key =
    is_valid c.e_state
    && (c.valid_n_key
        && (is_nil c.skip
            && (length (key_at c.page c.ix) == length key
                && is_nil (memcmp (key_at c.page c.ix) key (length key)))))

unfoldable pub kv_moveto : BtShared → Cursor → Key → Bool → Sign → Option Placed
unfolding from_root move_to_root
kv_moveto bt c key bias res =
    if is_there c key
    then some (placed nil (ok, c))
    else from_root bt (move_to_root bt c) key bias res

-- The end of btreeRestoreCursorPosition.
abbrev pub restored : Placed → Cursor
restored r =
    let c = record r.cursor {
      saved_key = none;
      skip = if is_nil r.res then r.cursor.skip else r.res;
    } in
    if not (is_nil c.skip) && is_valid c.e_state then record c { e_state = skip_next } else c

unfoldable pub finish_restore : Option Placed → Moved
finish_restore none = none
finish_restore (some r) = if is_ok r.rc then some (r.rc, restored r) else some (r.rc, r.cursor)

-- A saved key is there in the state CURSOR_REQUIRESEEK; with none the key has length 0.
abbrev pub key_or_empty : Option Key → Key
key_or_empty none = []
key_or_empty (some k) = k

-- restoreCursorPosition with btreeRestoreCursorPosition.
unfoldable pub restore_in : CursorState → BtShared → Cursor → Moved
restore_in fault bt c = some (c.fault_code, c)
restore_in require_seek bt c =
    finish_restore
      (kv_moveto bt (record c { e_state = invalid }) (key_or_empty c.saved_key) false nil)
restore_in _ bt c = some (ok, c)

unfoldable pub restore_cursor_position : BtShared → Cursor → Moved
unfolding restore_in finish_restore
restore_cursor_position bt c = restore_in c.e_state bt c
