-- ===== src/Btree/Tree.antt =====
-- What a tree of pages stores: the contents of a well-formed tree, as docs/kv-format-design.md
-- describes it, and the place of a cursor in them.
pub mod Select
pub mod Descend
pub mod Moveto
pub mod Lookup
pub mod Kids
pub mod Enter
pub mod Climb
pub mod Next
pub mod Scan
pub mod First
pub mod Order
pub mod Serve
pub mod Restore
pub mod Resume
pub mod Saved
use litebtree.Base.{
  ℕ, zero, suc, ◌+◌, ◌≤◌, ◌<◌, ◌≡◌, ◌≢◌, ◌∙◌, refl, Bool, Option, true, false, List, [], ◌∷◌, ◌++◌,
  map, length, take, drop, All, leb, get_or, if◌then◌else◌,
}
use litebtree.Btree.Cursor.{BtShared, Cursor, bottom, fetched, get_and_init_page, valid}
use litebtree.Btree.Key.{Key, Sign, neg, pos, lex}
use litebtree.Btree.Page.Search.{IsSorted}
use litebtree.Btree.Page.{MemPage, Cell, no_cell, n_cell, find_cell}

abbrev pub Entry : Type 0
Entry = Key × List ℕ

abbrev pub entry : Cell → Entry
entry c = (c.key, c.value)

abbrev pub Below : Key → List Entry → Type 0
Below k = All (λ e. lex e.0 k ≡ neg)

abbrev pub AtMost : Key → List Entry → Type 0
AtMost k = All (λ e. lex e.0 k ≢ pos)

abbrev pub Above : Key → List Entry → Type 0
Above k = All (λ e. lex e.0 k ≡ pos)

-- The children of the cells of an interior page, and its right child, store `es` in order, and
-- each divider key separates what stands left of it from what stands right of it.
abbrev pub Kids : (ℕ → List Entry → Type 0) → List Cell → ℕ → List Entry → Type 0
Kids Q [] right es = Q right es
Kids Q (c ∷ cs) right es =
    (xs : List Entry) × (ys : List Entry) × (es ≡ xs ++ ys)
    × Q c.child xs
    × AtMost c.key xs
    × Above c.key ys
    × Kids Q cs right ys

-- A page that is fit for a table tree: it has cells, and their keys ascend.
abbrev pub IsFit : MemPage → Type 0
IsFit p = (p.int_key ≡ true) × (0 < n_cell p) × IsSorted p

-- A loaded page is the root of a tree of height `h` that stores the entries.
abbrev pub Node : BtShared → ℕ → MemPage → List Entry → Type 0
Node bt zero p es = IsFit p × (p.leaf ≡ true) × (es ≡ map entry p.cells)
Node bt (suc h) p es =
    IsFit p
    × (p.leaf ≡ false)
    × Kids (λ n xs. (q : MemPage) × (get_and_init_page bt n ≡ fetched q) × Node bt h q xs) p.cells
        p.right_child es

-- The page with a number is the root of such a tree.
abbrev pub Holds : BtShared → ℕ → ℕ → List Entry → Type 0
Holds bt h n es = (q : MemPage) × (get_and_init_page bt n ≡ fetched q) × Node bt h q es

-- What the children left of index `i` store, and what those right of it store.
abbrev pub Before : (ℕ → List Entry → Type 0) → List Cell → ℕ → List Entry → Type 0
Before Q [] i es = es ≡ []
Before Q (c ∷ cs) zero es = es ≡ []
Before Q (c ∷ cs) (suc i) es =
    (xs : List Entry) × (ys : List Entry) × (es ≡ xs ++ ys) × Q c.child xs × Before Q cs i ys

abbrev pub After : (ℕ → List Entry → Type 0) → List Cell → ℕ → ℕ → List Entry → Type 0
After Q [] right i es = es ≡ []
After Q (c ∷ cs) right zero es = Kids Q cs right es
After Q (c ∷ cs) right (suc i) es = After Q cs right i es

-- The child of a list of cells, or the right child behind them.
abbrev pub child_in : List Cell → ℕ → ℕ → ℕ
child_in cs right i = if leb (length cs) i then right else (get_or cs i no_cell).child

-- The parents of a page of height `h` that stores `es`, with what the whole tree stores left and
-- right of it.
abbrev pub Ancestors :
    BtShared → ℕ → List (MemPage × ℕ) → List Entry → List Entry → List Entry → Type 0
Ancestors bt h [] es left right = (left ≡ []) × (right ≡ [])
Ancestors bt h ((p, i) ∷ ps) es left right =
    (left₁ : List Entry) × (left₂ : List Entry) × (right₁ : List Entry) × (right₂ : List Entry)
    × (left ≡ left₁ ++ left₂)
    × (right ≡ right₂ ++ right₁)
    × (p.int_key ≡ true)
    × (p.leaf ≡ false)
    × (i ≤ n_cell p)
    × Before (Holds bt h) p.cells i left₂
    × Holds bt h (child_in p.cells p.right_child i) es
    × After (Holds bt h) p.cells p.right_child i right₂
    × Ancestors bt (suc h) ps (left₂ ++ (es ++ right₂)) left₁ right₁

-- The number of the root page is that of the cursor, and the page is below all its pages.
abbrev pub IsRooted : ℕ × MemPage → Cursor → Type 0
IsRooted root c = (c.pgno_root ≡ root.0) × (bottom c.page c.parents ≡ root.1)

-- The cursor stands on `e` in a tree that stores `before ++ e ∷ after`.
pub record IsAt (bt : BtShared) (c : Cursor) (before : List Entry) (e : Entry) (after : List Entry)
    : Type 0 where
  pub is_valid : c.e_state ≡ valid
  pub is_loaded : c.loaded ≡ true
  pub int_key : c.cur_int_key ≡ true
  pub on_leaf : c.page.leaf ≡ true
  pub in_page : c.ix < n_cell c.page
  pub depth : length c.parents < 20
  pub left : List Entry
  pub right : List Entry
  pub path : Ancestors bt 0 c.parents (map entry c.page.cells) left right
  pub before_eq : before ≡ left ++ map entry (take c.ix c.page.cells)
  pub entry_eq : e ≡ entry (find_cell c.page c.ix)
  pub after_eq : after ≡ map entry (drop (suc c.ix) c.page.cells) ++ right

-- The cursor stands on a page of height `h` that stores `es`, with the rest of the tree around.
pub record Stands (bt : BtShared) (h : ℕ) (c : Cursor) (es left right : List Entry) : Type 0 where
  pub is_valid : c.e_state ≡ valid
  pub is_loaded : c.loaded ≡ true
  pub int_key : c.cur_int_key ≡ true
  pub depth : length c.parents + h < 20
  pub path : Ancestors bt h c.parents es left right

pub IsAt-cast :
    (bt : BtShared) (c : Cursor) {b b' a a' : List Entry} {e : Entry}
    → b' ≡ b
    → a' ≡ a
    → IsAt bt c b e a
    → IsAt bt c b' e a'
IsAt-cast bt c p q at' = record {
  is_valid = at'.is_valid;
  is_loaded = at'.is_loaded;
  int_key = at'.int_key;
  on_leaf = at'.on_leaf;
  in_page = at'.in_page;
  depth = at'.depth;
  left = at'.left;
  right = at'.right;
  path = at'.path;
  before_eq = p ∙ at'.before_eq;
  entry_eq = at'.entry_eq;
  after_eq = q ∙ at'.after_eq;
}

-- The place does not depend on skipNext, on the saved key and on what is remembered of the cell.
pub IsAt-settled :
    (bt : BtShared) (c : Cursor) (before : List Entry) (e : Entry) (after : List Entry) (x : Sign)
    (k : Option Key) (v : Bool)
    → IsAt bt c before e after
    → IsAt bt
        (record c { e_state = valid; skip = x; saved_key = k; valid_n_key = v })
        before
        e
        after
IsAt-settled bt c before e after x k v at' = record {
  is_valid = refl;
  is_loaded = at'.is_loaded;
  int_key = at'.int_key;
  on_leaf = at'.on_leaf;
  in_page = at'.in_page;
  depth = at'.depth;
  left = at'.left;
  right = at'.right;
  path = at'.path;
  before_eq = at'.before_eq;
  entry_eq = at'.entry_eq;
  after_eq = at'.after_eq;
}
