-- ===== src/Api/Entries.antt =====
-- Entries through the public interface (src/btreelite_api.c): the check of a key, seeks and steps,
-- and what they report of the entry at the cursor. A handle is `none` where the pointer or its
-- pCur is null.
use litebtree.Base.{
  ℕ, Bool, true, false, not, ◌+◌, ltb, if◌then◌else◌, List, [], ◌∷◌, length, take, Option, none,
  some, Rc, ok, error, toobig, notfound, done, is_ok,
}
use litebtree.Base.Ints.{ℤ, to_u32}
use litebtree.Btree.Cursor.Seek.{Placed, placed, is_nil, kv_moveto}
use litebtree.Btree.Cursor.Step.{next}
use litebtree.Btree.Cursor.{BtShared, Cursor, Moved, is_valid}
use litebtree.Btree.Key.{Key, Sign, neg, nil}
use litebtree.Btree.Page.{find_cell, key_at}
use mathlib.Core.Option
pub mod Check
pub mod Get
pub mod Seek
pub mod Range

-- BTREELITE_MAX_KEY
abbrev pub max_key : ℕ
max_key = 255

-- The arguments k and nK: a negative nK, a null k with nK that is not, and nK bytes at k.
pub data KeyArg : Type 0 where
  negative : KeyArg
  null : ℕ → KeyArg
  bytes : Key → KeyArg

-- kvCheckKey
unfoldable pub kv_check_key : KeyArg → Rc
kv_check_key negative = toobig
kv_check_key (null n) = if ltb max_key n then toobig else if ltb 0 n then error else ok
kv_check_key (bytes k) = if ltb max_key (length k) then toobig else ok

abbrev pub key_of : KeyArg → Key
key_of (bytes k) = k
key_of _ = []

-- kvMoveto
unfoldable pub checked_moveto : BtShared → Cursor → KeyArg → Sign → Option Placed
unfolding kv_check_key
checked_moveto bt c k res =
    let rc = kv_check_key k in
    if is_ok rc then kv_moveto bt c (key_of k) false res else some (placed res (rc, c))

-- if( c==0 || c->pCur==0 ) return BTREELITE_ERROR
abbrev pub on_handle : (Cursor → Moved) → Option Cursor → Option (Rc × Option Cursor)
on_handle f none = some (error, none)
on_handle f (some c) = Option.map (λ r. (r.0, some r.1)) (f c)

unfoldable pub get_placed : Option Placed → Moved
get_placed none = none
get_placed (some r) =
    some (if is_ok r.rc then if is_nil r.res then ok else notfound else r.rc, r.cursor)

unfoldable pub btreelite_get : BtShared → Option Cursor → KeyArg → Option (Rc × Option Cursor)
unfolding get_placed checked_moveto
btreelite_get bt h k = on_handle (λ c. get_placed (checked_moveto bt c k nil)) h

abbrev pub is_neg : Sign → Bool
is_neg neg = true
is_neg _ = false

-- if( rc==SQLITE_DONE ) return BTREELITE_OK
abbrev pub ok_if_done : Rc × Cursor → Rc × Cursor
ok_if_done (done, c) = (ok, c)
ok_if_done r = r

-- What follows the moveto of btreelite_seek.
unfoldable pub seek_placed : BtShared → Option Placed → Moved
seek_placed bt none = none
seek_placed bt (some r) =
    if is_ok r.rc
    then (if is_neg r.res then Option.map ok_if_done (next bt r.cursor) else some (ok, r.cursor))
    else some (r.rc, r.cursor)

unfoldable pub btreelite_seek : BtShared → Option Cursor → KeyArg → Option (Rc × Option Cursor)
unfolding seek_placed checked_moveto
btreelite_seek bt h k = on_handle (λ c. seek_placed bt (checked_moveto bt c k nil)) h

unfoldable pub btreelite_next : BtShared → Option Cursor → Option (Rc × Option Cursor)
btreelite_next bt h = on_handle (next bt) h

-- btreelite_eof with sqlite3BtreeEof.
unfoldable pub btreelite_eof : Option Cursor → Bool
btreelite_eof none = true
btreelite_eof (some c) = not (is_valid c.e_state)

-- getCellInfo on a valid cursor: behind it the flag BTCF_ValidNKey is set.
abbrev pub parsed : Cursor → Cursor
parsed c = record c { valid_n_key = true }

-- btreelite_key: the length of the key, the bytes that are copied into a buffer of nMax, and the
-- cursor.
unfoldable pub btreelite_key : Option Cursor → ℤ → Rc × ℕ × Key × Option Cursor
unfolding btreelite_eof
btreelite_key none n_max = (error, 0, [], none)
btreelite_key (some c) n_max =
    let key = key_at c.page c.ix in
    if btreelite_eof (some c)
    then (error, 0, [], some c)
    else (ok, length key, take (to_u32 n_max) key, some (parsed c))

unfoldable pub btreelite_value_size : Option Cursor → Rc × ℕ × Option Cursor
unfolding btreelite_eof
btreelite_value_size none = (error, 0, none)
btreelite_value_size (some c) =
    if btreelite_eof (some c)
    then (error, 0, some c)
    else (ok, length (find_cell c.page c.ix).value, some (parsed c))
