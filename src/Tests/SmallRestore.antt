-- ===== src/Tests/SmallRestore.antt =====
-- A saved position on the tree of three pages: restored, and stepped on from.
use litebtree.Base.{true, false, ◌≡◌, refl, arith, some, [], ◌∷◌, ok, inl}
use litebtree.Btree.Cursor.Step.{next}
use litebtree.Btree.Cursor.Save.{save_cursor_position}
use litebtree.Btree.Cursor.{BtShared, Cursor, fetched, valid, require_seek}
use litebtree.Btree.Tree.Moveto.{IsOpen}
use litebtree.Btree.Tree.Restore.{IsSaved}
use litebtree.Btree.Tree.Resume.{StepsAbove, next-StepsAbove}
use litebtree.Btree.Tree.Saved.{save_cursor_position-next}
use litebtree.Btree.Tree.{IsAt}
use litebtree.Tests.SmallTree.{leaf_page, stored, small, root_page, contents, opened, opened-IsOpen}

-- Saved on an entry with the key 6, which has been deleted since.
abbrev saved : Cursor
saved = record opened { e_state = require_seek; saved_key = some (6 ∷ []) }

saved-IsSaved : IsSaved (6 ∷ []) saved
saved-IsSaved = record { state = refl; saved = refl; skip = refl }

saved-IsOpen : IsOpen small 1 root_page contents saved
saved-IsOpen = record {
  numbered = opened-IsOpen.numbered;
  got = opened-IsOpen.got;
  node = opened-IsOpen.node;
  height = opened-IsOpen.height;
  ready = inl (refl, λ e. cc);
}

next-StepsAbove_example : StepsAbove small (6 ∷ []) contents (next small saved)
next-StepsAbove_example =
    next-StepsAbove small 1 root_page contents saved (6 ∷ []) saved-IsOpen saved-IsSaved

-- The tree before it grew: one leaf with the entries 1 and 6, and a cursor on the second.
abbrev one_leaf : BtShared
one_leaf = record { n_page = 2; page = λ n. fetched (leaf_page 2 1 6) }

abbrev on_six : Cursor
on_six = record opened {
  e_state = valid;
  loaded = true;
  cur_int_key = true;
  page = leaf_page 2 1 6;
  ix = 1;
}

on_six-IsAt : IsAt one_leaf on_six (stored 1 ∷ []) (stored 6) []
on_six-IsAt = record {
  is_valid = refl;
  is_loaded = refl;
  int_key = refl;
  on_leaf = refl;
  in_page = omega arith;
  depth = omega arith;
  left = [];
  right = [];
  path = (refl, refl);
  before_eq = refl;
  entry_eq = refl;
  after_eq = refl;
}

save_cursor_position-next_example :
    (d : Cursor) × (save_cursor_position false true on_six ≡ (ok, d))
    × StepsAbove small (6 ∷ []) contents (next small d)
save_cursor_position-next_example =
    save_cursor_position-next one_leaf small on_six (stored 1 ∷ []) (stored 6) [] 1 root_page
      contents on_six-IsAt opened-IsOpen.numbered opened-IsOpen.got opened-IsOpen.node
      opened-IsOpen.height
