-- ===== src/Tests/SmallTree.antt =====
-- A tree of three pages: the cursor operations of src/btree.c run on it, and the theorems about
-- them at it.
use litebtree.Base.{
  ℕ, zero, suc, ◌≡◌, refl, true, false, none, some, Option, List, [], ◌∷◌, arith, ok, corrupt, inl,
  if◌then◌else◌, ◌==◌,
}
use mathlib.Core.Bool.{xor}
use litebtree.Btree.Cursor.Seek.{Placed, kv_moveto, first, last}
use litebtree.Btree.Cursor.Step.{next, next_loop, advance, climb_next, move_to_parent}
use litebtree.Btree.Cursor.{
  BtShared, Cursor, fetched, failed, invalid, get_and_init_page, move_to_child, move_to_root,
  move_to_leftmost, leftmost_loop, move_to_rightmost, rightmost_loop,
}
use litebtree.Btree.Key.{Key, Sign, neg, nil, pos, lex, kv_key_compare, kv_key_compare-lex}
use litebtree.Btree.Page.Search.{IsSorted, IsPlace, search_page-IsPlace}
use litebtree.Btree.Page.{MemPage, Cell, key_at, search_page, search_loop}
use litebtree.Btree.Tree.First.{FindsFirst, first_lem, scan, scan_lem}
use litebtree.Btree.Tree.Lookup.{answer, lookup, kv_moveto-lookup}
use litebtree.Btree.Tree.Moveto.{IsOpen}
use litebtree.Btree.Tree.Scan.{NextIs, next_lem}
use litebtree.Btree.Tree.{Entry, Node}

abbrev leaf_cell : ℕ → Cell
leaf_cell k = record { key = k ∷ []; value = k ∷ k ∷ []; child = 0 }

abbrev pub leaf_page : ℕ → ℕ → ℕ → MemPage
leaf_page n a b = record {
  pgno = n;
  leaf = true;
  int_key = true;
  cells = leaf_cell a ∷ leaf_cell b ∷ [];
  right_child = 0;
}

abbrev pub root_page : MemPage
root_page = record {
  pgno = 2;
  leaf = false;
  int_key = true;
  cells = record { key = 5 ∷ []; value = []; child = 3 } ∷ [];
  right_child = 4;
}

abbrev pub small : BtShared
small = record {
  n_page = 4;
  page = λ n.
      if n == 2
      then fetched root_page
      else if n == 3
      then fetched (leaf_page 3 1 5)
      else if n == 4
      then fetched (leaf_page 4 7 9)
      else failed corrupt;
}

abbrev pub stored : ℕ → Entry
stored k = (k ∷ [], k ∷ k ∷ [])

abbrev pub contents : List Entry
contents = stored 1 ∷ stored 5 ∷ stored 7 ∷ stored 9 ∷ []

-- A cursor as sqlite3BtreeCursor opens it.
abbrev pub opened : Cursor
opened = record {
  e_state = invalid;
  skip = nil;
  fault_code = ok;
  saved_key = none;
  pgno_root = 2;
  loaded = false;
  cur_int_key = false;
  page = root_page;
  ix = 0;
  parents = [];
  valid_n_key = false;
  at_last = false;
}

leaf-IsSorted : (n a b : ℕ) → lex (a ∷ []) (b ∷ []) ≡ neg → IsSorted (leaf_page n a b)
leaf-IsSorted n a b h zero zero l m = absurd (omega arith)
leaf-IsSorted n a b h zero (suc zero) l m = h
leaf-IsSorted n a b h zero (suc (suc j)) l m = absurd (omega arith)
leaf-IsSorted n a b h (suc i) zero l m = absurd (omega arith)
leaf-IsSorted n a b h (suc i) (suc j) l m = absurd (omega arith)

root-IsSorted : IsSorted root_page
root-IsSorted i j l m = absurd (omega arith)

contents-Node : Node small 1 root_page contents
unfolding get_and_init_page lex
contents-Node = (
  (refl, omega arith, root-IsSorted),
  refl,
  (
    stored 1 ∷ stored 5 ∷ [],
    stored 7 ∷ stored 9 ∷ [],
    refl,
    (leaf_page 3 1 5, refl, ((refl, omega arith, leaf-IsSorted 3 1 5 refl), refl, refl)),
    ((λ e. cc), ((λ e. cc), tt)),
    (refl, (refl, tt)),
    (leaf_page 4 7 9, refl, ((refl, omega arith, leaf-IsSorted 4 7 9 refl), refl, refl)),
  ),
)

pub opened-IsOpen : IsOpen small 1 root_page contents opened
unfolding get_and_init_page
opened-IsOpen = record {
  numbered = omega arith;
  got = refl;
  node = contents-Node;
  height = omega arith;
  ready = inl (refl, λ e. cc);
}

search_page-IsPlace_example :
    IsPlace (leaf_page 3 1 5) (5 ∷ []) (search_page (leaf_page 3 1 5) (5 ∷ []) false)
unfolding lex
search_page-IsPlace_example =
    search_page-IsPlace (leaf_page 3 1 5) (5 ∷ []) (leaf-IsSorted 3 1 5 refl) false (omega arith)

kv_moveto-lookup_example :
    (r : Placed) × (kv_moveto small opened (7 ∷ []) false nil ≡ some r)
    × (r.rc ≡ ok)
    × (answer r ≡ lookup (7 ∷ []) contents)
    × IsOpen small 1 root_page contents r.cursor
kv_moveto-lookup_example =
    kv_moveto-lookup small 1 root_page contents opened (7 ∷ []) false nil opened-IsOpen refl

first_lem_example : FindsFirst small contents (first small opened true)
first_lem_example = first_lem small 1 root_page contents opened true opened-IsOpen

next_lem_example :
    NextIs small []
      (first_lem_example.e)
      (first_lem_example.rest)
      (next small first_lem_example.there)
next_lem_example =
    next_lem small first_lem_example.there [] first_lem_example.e first_lem_example.rest
      first_lem_example.place

scan_lem_example : scan 4 small opened ≡ some contents
scan_lem_example = scan_lem small 1 root_page contents opened 4 opened-IsOpen (omega arith)

-- The code itself, run: a scan forwards, the last entry, and a seek between two keys.
unfoldable pub program : Unit {0}
unfolding get_and_init_page move_to_child move_to_root move_to_leftmost leftmost_loop
    move_to_rightmost rightmost_loop first last next next_loop advance climb_next move_to_parent xor
    kv_moveto search_page search_loop kv_key_compare lex scan lookup
program = tt

scan_runs : scan 4 small opened ≡ some contents
unfolding program
scan_runs = refl

abbrev seek_of : Option Placed → Sign × Key
seek_of none = (nil, [])
seek_of (some r) = (r.res, key_at r.cursor.page r.cursor.ix)

seek_six : seek_of (kv_moveto small opened (6 ∷ []) false nil) ≡ (pos, 7 ∷ [])
unfolding program
seek_six = refl

seek_ten : seek_of (kv_moveto small opened (9 ∷ 1 ∷ []) true nil) ≡ (neg, 9 ∷ [])
unfolding program
seek_ten = refl

kv_key_compare-lex_example :
    kv_key_compare (1 ∷ 2 ∷ []) (1 ∷ 2 ∷ 0 ∷ []) ≡ lex (1 ∷ 2 ∷ []) (1 ∷ 2 ∷ 0 ∷ [])
kv_key_compare-lex_example = kv_key_compare-lex (1 ∷ 2 ∷ []) (1 ∷ 2 ∷ 0 ∷ [])
