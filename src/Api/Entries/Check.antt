-- ===== src/Api/Entries/Check.antt =====
-- The check of a key by kvCheckKey (src/btreelite_api.c): what it refuses, and what
-- btreelite_get and btreelite_seek do with the rest.
use litebtree.Base.{◌≡◌, ◌≤◌, ◌<◌, false, some, [], length, arith, Rc, error, toobig, ◌⊎◌}
use litebtree.Api.Entries.{
  KeyArg, negative, null, bytes, kv_check_key, checked_moveto, btreelite_get, btreelite_seek,
}
use litebtree.Btree.Cursor.Seek.{kv_moveto}
use litebtree.Btree.Cursor.{BtShared, Cursor}
use litebtree.Btree.Key.{Key, Sign}

-- A key of at most 255 bytes is sought for as it is.
pub checked_moveto-bytes :
    (bt : BtShared) (c : Cursor) (key : Key) (res : Sign)
    → length key ≤ 255
    → checked_moveto bt c (bytes key) res ≡ kv_moveto bt c key false res
unfolding checked_moveto kv_check_key
checked_moveto-bytes bt c key res h = ground arith

-- Whether a key is refused and with which result, and whether it is taken for some bytes.
abbrev pub IsRefused : KeyArg → Rc → Type 0
IsRefused negative rc = rc ≡ toobig
IsRefused (null n) rc = ((255 < n) × (rc ≡ toobig)) ⊎ ((0 < n) × (n ≤ 255) × (rc ≡ error))
IsRefused (bytes k) rc = (255 < length k) × (rc ≡ toobig)

abbrev pub IsTaken : KeyArg → Key → Type 0
IsTaken negative key = ⊥
IsTaken (null n) key = (n ≡ 0) × (key ≡ [])
IsTaken (bytes k) key = (length k ≤ 255) × (key ≡ k)

-- What the calls do with a key: they refuse it and leave the cursor, or do as with the bytes.
abbrev pub ChecksKey : BtShared → Cursor → KeyArg → Type 0
ChecksKey bt c k =
    ((rc : Rc) × IsRefused k rc
      × (btreelite_get bt (some c) k ≡ some (rc, some c))
      × (btreelite_seek bt (some c) k ≡ some (rc, some c)))
    ⊎ ((key : Key) × IsTaken k key
        × (btreelite_get bt (some c) k ≡ btreelite_get bt (some c) (bytes key))
        × (btreelite_seek bt (some c) k ≡ btreelite_seek bt (some c) (bytes key)))
