-- ===== src/Btree/Cursor/Save.antt =====
-- saveCursorPosition of src/btree.c, with saveCursorKey and btreeReleaseAllCursorPages.
use litebtree.Base.{Bool, true, false, if◌then◌else◌, some, Rc, ok, nomem, other}
use litebtree.Btree.Cursor.{Cursor, CursorState, valid, skip_next, require_seek}
use litebtree.Btree.Key.{nil}
use litebtree.Btree.Page.{key_at}

-- SQLITE_CONSTRAINT_PINNED
abbrev pub constraint_pinned : Rc
constraint_pinned = other 787

abbrev pub is_skip_next : CursorState → Bool
is_skip_next skip_next = true
is_skip_next _ = false

-- saveCursorKey; `memory` says whether sqlite3Malloc gives a block.
abbrev pub save_cursor_key : Bool → Cursor → Rc × Cursor
save_cursor_key true c = (ok, record c { saved_key = some (key_at c.page c.ix) })
save_cursor_key false c = (nomem, c)

abbrev pub keep_key : Rc × Cursor → Rc × Cursor
keep_key (ok, c) =
    (ok, record c { loaded = false; e_state = require_seek; valid_n_key = false; at_last = false })
keep_key (rc, c) = (rc, record c { valid_n_key = false; at_last = false })

-- `pinned` is the flag BTCF_Pinned.
unfoldable pub save_cursor_position : Bool → Bool → Cursor → Rc × Cursor
save_cursor_position pinned memory c =
    let c' =
      if is_skip_next c.e_state then record c { e_state = valid } else record c { skip = nil } in
    if pinned then (constraint_pinned, c) else keep_key (save_cursor_key memory c')
