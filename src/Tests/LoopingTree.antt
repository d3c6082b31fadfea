-- ===== src/Tests/LoopingTree.antt =====
-- A corrupt tree, in which a page is its own child: the seeks of src/btree.c end on it.
use litebtree.Base.{◌≡◌, refl, true, false, none, some, Option, [], ◌∷◌, ok, corrupt, Rc}
use mathlib.Core.Bool.{xor}
use litebtree.Btree.Cursor.Seek.{kv_moveto, first, last, Sought}
use litebtree.Btree.Cursor.Total.Seeks.{seeks-End}
use litebtree.Btree.Cursor.Total.{Ends, IsHonest, IsFaulty}
use litebtree.Btree.Cursor.{
  BtShared, Cursor, fetched, invalid, get_and_init_page, move_to_child, move_to_root,
  move_to_leftmost, leftmost_loop,
}
use litebtree.Btree.Key.{nil}
use litebtree.Btree.Page.{MemPage}

abbrev looping_page : MemPage
looping_page = record {
  pgno = 2;
  leaf = false;
  int_key = true;
  cells = record { key = 5 ∷ []; value = []; child = 2 } ∷ [];
  right_child = 2;
}

abbrev looping : BtShared
looping = record { n_page = 2; page = λ n. fetched looping_page }

abbrev opened : Cursor
opened = record {
  e_state = invalid;
  skip = nil;
  fault_code = ok;
  saved_key = none;
  pgno_root = 2;
  loaded = false;
  cur_int_key = false;
  page = looping_page;
  ix = 0;
  parents = [];
  valid_n_key = false;
  at_last = false;
}

looping-IsHonest : IsHonest looping
looping-IsHonest n rc e = cc

opened-IsFaulty : IsFaulty opened
opened-IsFaulty e = cc

seeks-End_example :
    Ends (kv_moveto looping opened (7 ∷ []) false nil)
    × Ends (first looping opened true)
    × Ends (last looping opened true)
seeks-End_example =
    seeks-End looping opened (7 ∷ []) false nil true looping-IsHonest opened-IsFaulty

-- The first entry: the move down stops with SQLITE_CORRUPT.
abbrev code_of : Option Sought → Option Rc
code_of none = none
code_of (some r) = some r.rc

first_is_corrupt : code_of (first looping opened true) ≡ some corrupt
unfolding get_and_init_page move_to_child move_to_root move_to_leftmost leftmost_loop first xor
first_is_corrupt = refl
