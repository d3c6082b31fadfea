-- ===== src/Btree/Tree/Saved.antt =====
-- A cursor over a change of its tree: saveCursorPosition before it, sqlite3BtreeNext behind it
-- (src/btree.c).
use litebtree.Base.{ℕ, ◌<◌, ◌≡◌, ◌≢◌, refl, ap, sym, true, false, List, some, ok, inl}
use litebtree.Btree.Cursor.Save.{save_cursor_position}
use litebtree.Btree.Cursor.Step.{next}
use litebtree.Btree.Cursor.{BtShared, Cursor, require_seek, fetched, get_and_init_page}
use litebtree.Btree.Key.{Key, nil}
use litebtree.Btree.Page.{MemPage, key_at}
use litebtree.Btree.Tree.Moveto.{IsOpen}
use litebtree.Btree.Tree.Restore.{IsSaved}
use litebtree.Btree.Tree.Resume.{StepsAbove, next-StepsAbove}
use litebtree.Btree.Tree.{Entry, Node, IsAt}

-- The cursor as it is left.
abbrev saved_at : Cursor → Cursor
saved_at c = record c {
  skip = nil;
  saved_key = some (key_at c.page c.ix);
  loaded = false;
  e_state = require_seek;
  valid_n_key = false;
  at_last = false;
}

save_cursor_position_lem :
    (bt : BtShared) (c : Cursor) (before : List Entry) (e : Entry) (after : List Entry)
    → IsAt bt c before e after
    → save_cursor_position false true c ≡ (ok, saved_at c)
unfolding save_cursor_position
save_cursor_position_lem bt c before e after at' = rw (at'.is_valid) refl

saved_at-IsSaved : (c : Cursor) (key : Key) → key_at c.page c.ix ≡ key → IsSaved key (saved_at c)
saved_at-IsSaved c key h = record { state = refl; saved = ap some h; skip = refl }

-- A cursor stands on an entry of a well-formed tree, its position is saved, with memory for the
-- key and not pinned, and the tree is then replaced by any other well-formed tree lower than 20
-- levels with the same number of the root page. A step with sqlite3BtreeNext goes to the first
-- entry of the new tree above the key of the entry with SQLITE_OK, or, if there is none, returns
-- SQLITE_DONE and leaves the cursor invalid.
pub save_cursor_position-next :
    (bt bt' : BtShared) (c : Cursor) (before : List Entry) (e : Entry) (after : List Entry) (h : ℕ)
    (root : MemPage) (es : List Entry)
    → IsAt bt c before e after
    → c.pgno_root ≢ 0
    → get_and_init_page bt' c.pgno_root ≡ fetched root
    → Node bt' h root es
    → h < 20
    → (d : Cursor) × (save_cursor_position false true c ≡ (ok, d))
      × StepsAbove bt' e.0 es (next bt' d)
save_cursor_position-next bt bt' c before e after h root es at' numbered got node height =
    let o : IsOpen bt' h root es (saved_at c) = record {
      numbered = numbered;
      got = got;
      node = node;
      height = height;
      ready = inl (refl, λ f. absurd cc);
    } in
    (
      saved_at c,
      save_cursor_position_lem bt c before e after at',
      next-StepsAbove bt' h root es (saved_at c) e.0 o
          (saved_at-IsSaved c e.0 (ap (λ x. x.0) (sym at'.entry_eq))),
    )
