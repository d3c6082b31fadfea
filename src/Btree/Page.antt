-- ===== src/Btree/Page.antt =====
-- A decoded page (MemPage of src/btreeInt.h) with its cells, and the binary search within a page
-- that sqlite3BtreeKvMoveto (src/btree.c) runs on every level.
pub mod Search
use litebtree.Base.{
  ℕ, zero, suc, ◌+◌, ◌-◌, ◌/◌, Bool, true, false, List, [], ◌∷◌, leb, length, get_or, if◌then◌else◌,
}
use litebtree.Btree.Key.{Key, Sign, neg, nil, pos, kv_key_compare}

-- A parsed cell. A leaf cell has a key and a value, an interior cell a left child and a key.
pub record Cell : Type 0 where
  pub key : Key
  pub value : List ℕ
  pub child : ℕ

-- The fields of MemPage that navigation reads. `n_cell` of the source is the length of `cells`,
-- and `right_child` the 4-byte number at hdrOffset + 8 of an interior page.
pub record MemPage : Type 0 where
  pub pgno : ℕ
  pub leaf : Bool
  pub int_key : Bool
  pub cells : List Cell
  pub right_child : ℕ

abbrev pub no_cell : Cell
no_cell = record { key = []; value = []; child = 0 }

abbrev pub n_cell : MemPage → ℕ
n_cell p = length p.cells

-- findCell and xParseCell. The callers stay below `n_cell`.
abbrev pub find_cell : MemPage → ℕ → Cell
find_cell p i = get_or p.cells i no_cell

abbrev pub key_at : MemPage → ℕ → Key
key_at p i = (find_cell p i).key

-- How the search within a page ends: at a cell with the key itself, or between two cells, with
-- the bound `lwr`, the last cell that was compared and how it compared. `stuck` stands for a loop
-- that ran out of fuel.
pub data Found : Type 0 where
  exact : ℕ → Found
  miss : ℕ → ℕ → Sign → Found
  stuck : Found

-- The inner loop. `hi` is the source's upr + 1, since upr can be -1.
unfoldable pub search_loop : ℕ → MemPage → Key → ℕ → ℕ → ℕ → Found
search_loop zero p key lwr hi idx = stuck
search_loop (suc fuel) p key lwr hi idx = elim (kv_key_compare (key_at p idx) key) [
  | neg ↦
      let rest = search_loop fuel p key (idx + 1) hi ((idx + 1 + hi - 1) / 2) in
      if leb hi (idx + 1) then miss (idx + 1) idx neg else rest
  | pos ↦
      let rest = search_loop fuel p key lwr idx ((lwr + idx - 1) / 2) in
      if leb idx lwr then miss lwr idx pos else rest
  | nil ↦ exact idx
]

-- The search of one page: the first probe is the middle cell, or the last one under `bias_right`.
unfoldable pub search_page : MemPage → Key → Bool → Found
unfolding search_loop
search_page p key bias_right =
    let upr = n_cell p - 1 in
    search_loop (n_cell p) p key 0 (n_cell p) (if bias_right then upr else upr / 2)
