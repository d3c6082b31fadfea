-- ===== src/Tests/SmallEntries.antt =====
-- A tree of three pages through the calls of src/btreelite_api.c, run, and the theorems about them
-- at it.
use litebtree.Base.{inl, map, ◌≡◌, refl, arith, Option, none, some, [], ◌∷◌, Rc, ok, toobig, error}
use litebtree.Api.Entries.Get.{get_all, get_all-lookup}
use litebtree.Api.Entries.Seek.{SeeksTo, btreelite_seek-SeeksTo}
use litebtree.Api.Entries.Range.{at_least, scan_range, scan_range-at_least, read_to_end}
use litebtree.Api.Entries.{
  negative, bytes, kv_check_key, checked_moveto, get_placed, btreelite_get, seek_placed,
  btreelite_seek, btreelite_next, btreelite_eof, btreelite_key, btreelite_value_size,
}
use litebtree.Btree.Cursor.{Cursor}
use litebtree.Btree.Tree.Lookup.{lookup}
use litebtree.Tests.SmallTree.{small, root_page, contents, stored, opened, opened-IsOpen, program}

get_all-lookup_example :
    get_all small (some opened) ((7 ∷ []) ∷ (7 ∷ []) ∷ (6 ∷ []) ∷ (1 ∷ []) ∷ [])
    ≡ some (map (λ k. lookup k contents) ((7 ∷ []) ∷ (7 ∷ []) ∷ (6 ∷ []) ∷ (1 ∷ []) ∷ []))
get_all-lookup_example =
    get_all-lookup small 1 root_page contents ((7 ∷ []) ∷ (7 ∷ []) ∷ (6 ∷ []) ∷ (1 ∷ []) ∷ [])
      opened opened-IsOpen (inl refl) (omega arith, (omega arith, (omega arith, (omega arith, tt))))

btreelite_seek-SeeksTo_example :
    (t : SeeksTo small (6 ∷ []) contents) × (btreelite_seek small (some opened) (bytes (6 ∷ []))
      ≡ some (ok, some t.there))
btreelite_seek-SeeksTo_example =
    btreelite_seek-SeeksTo small 1 root_page contents opened (6 ∷ []) opened-IsOpen (inl refl)
      (omega arith)

scan_range-at_least_example :
    scan_range 5 small (some opened) (bytes (6 ∷ [])) ≡ some (at_least (6 ∷ []) contents)
scan_range-at_least_example =
    scan_range-at_least small 1 root_page contents opened (6 ∷ []) 5 opened-IsOpen (inl refl)
      (omega arith) (omega arith)

program_entries : Unit {0}
unfolding program kv_check_key checked_moveto get_placed btreelite_get seek_placed btreelite_seek
    btreelite_next btreelite_eof btreelite_key btreelite_value_size read_to_end scan_range at_least
program_entries = tt

scan_runs' : scan_range 5 small (some opened) (bytes (6 ∷ [])) ≡ some (stored 7 ∷ stored 9 ∷ [])
unfolding program_entries
scan_runs' = refl

abbrev rc_of : Option (Rc × Option Cursor) → Option Rc
rc_of none = none
rc_of (some (rc, h)) = some rc

get_runs :
    (rc_of (btreelite_get small (some opened) (bytes (5 ∷ []))) ≡ some ok)
    × (rc_of (btreelite_get small none (bytes (5 ∷ []))) ≡ some error)
    × (rc_of (btreelite_seek small (some opened) negative) ≡ some toobig)
unfolding program_entries
get_runs = (refl, refl, refl)
