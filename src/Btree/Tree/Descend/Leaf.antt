-- ===== src/Btree/Tree/Descend/Leaf.antt =====
-- The end of the descent: a leaf whose search has found the place of the key.
use litebtree.Base.{
  ℕ, zero, suc, ◌≤◌, ◌<◌, ◌≡◌, refl, ap, subst, true, Option, some, List, [], ◌∷◌, ◌++◌, map,
  length, take, drop, get_or, arith, ok, All-append,
}
use litebtree.Btree.Cursor.Seek.{Placed, placed}
use litebtree.Btree.Cursor.{BtShared, Cursor, valid}
use litebtree.Btree.Key.{Key, Sign, neg, pos, lex}
use litebtree.Btree.Page.{MemPage, Cell, no_cell, n_cell, key_at, find_cell}
use litebtree.Btree.Tree.{Entry, entry, Below, Above, Node, IsRooted, Ancestors, IsAt}
use mathlib.Core.List.{append_assoc}

-- The cursor stands on an entry of the whole contents, all entries before it are smaller than the
-- key, all entries after it are greater, the root
-- page is still the one the descent began at, and *pRes is the sign of the comparison with the entry.
pub record Landed (bt : BtShared) (root : ℕ × MemPage) (key : Key) (whole : List Entry)
    (r : Option Placed) : Type 0 where
  pub landed : Placed
  pub run : r ≡ some landed
  pub rc : landed.rc ≡ ok
  pub before : List Entry
  pub e : Entry
  pub after : List Entry
  pub place : IsAt bt landed.cursor before e after
  pub base : IsRooted root landed.cursor
  pub whole_eq : whole ≡ before ++ e ∷ after
  pub sign : lex e.0 key ≡ landed.res
  pub below : Below key before
  pub above : Above key after

pub split_at :
    (cs : List Cell) (i : ℕ)
    → i < length cs
    → map entry cs
      ≡ map entry (take i cs) ++ entry (get_or cs i no_cell) ∷ map entry (drop (suc i) cs)
split_at [] i h = absurd (omega arith)
split_at (c ∷ cs) zero h = refl
split_at (c ∷ cs) (suc i) h = ap (λ zs. entry c ∷ zs) (split_at cs i (omega arith))

Below-take :
    (key : Key) (cs : List Cell) (i : ℕ)
    → ((j : ℕ) → j < i → lex (get_or cs j no_cell).key key ≡ neg)
    → Below key (map entry (take i cs))
Below-take key cs zero h = tt
Below-take key [] (suc i) h = tt
Below-take key (c ∷ cs) (suc i) h =
    (h 0 (omega arith), Below-take key cs i (λ j l. h (suc j) (omega arith)))

Above-map :
    (key : Key) (cs : List Cell)
    → ((j : ℕ) → j < length cs → lex (get_or cs j no_cell).key key ≡ pos)
    → Above key (map entry cs)
Above-map key [] h = tt
Above-map key (c ∷ cs) h = (h 0 (omega arith), Above-map key cs (λ j l. h (suc j) (omega arith)))

Above-drop :
    (key : Key) (cs : List Cell) (i : ℕ)
    → ((j : ℕ) → i ≤ j → j < length cs → lex (get_or cs j no_cell).key key ≡ pos)
    → Above key (map entry (drop i cs))
Above-drop key cs zero h = Above-map key cs (λ j l. h j (omega arith) l)
Above-drop key [] (suc i) h = tt
Above-drop key (c ∷ cs) (suc i) h =
    Above-drop key cs i (λ j l m. h (suc j) (omega arith) (omega arith))

regroup :
    (left b a right : List Entry) (e : Entry) {whole es c : List Entry}
    → whole ≡ left ++ (es ++ right)
    → es ≡ c
    → c ≡ b ++ e ∷ a
    → whole ≡ (left ++ b) ++ e ∷ (a ++ right)
regroup left b a right e w p q = rw (w, p, q) (simp append_assoc)

pub leaf_landing :
    (bt : BtShared) (root : ℕ × MemPage) (key : Key) (whole : List Entry) (c : Cursor)
    (es left right : List Entry)
    → Node bt 0 c.page es
    → c.e_state ≡ valid
    → c.loaded ≡ true
    → c.cur_int_key ≡ true
    → length c.parents < 20
    → IsRooted root c
    → Ancestors bt 0 c.parents es left right
    → Below key left
    → Above key right
    → whole ≡ left ++ (es ++ right)
    → (s : Sign) → c.ix < n_cell c.page
    → lex (key_at c.page c.ix) key ≡ s
    → ((j : ℕ) → j < c.ix → lex (key_at c.page j) key ≡ neg)
    → ((j : ℕ) → c.ix < j → j < n_cell c.page → lex (key_at c.page j) key ≡ pos)
    → Landed bt root key whole (some (placed s (ok, c)))
leaf_landing bt root key whole c es left right (fit, leaf, eq) v l k d base path below above w s ix
      sign lo hi =
    let cs = c.page.cells in
    let b = map entry (take c.ix cs) in
    let a = map entry (drop (suc c.ix) cs) in
    record {
      landed = placed s (ok, c);
      run = refl;
      rc = refl;
      before = left ++ b;
      e = entry (find_cell c.page c.ix);
      after = a ++ right;
      place = record {
        is_valid = v;
        is_loaded = l;
        int_key = k;
        on_leaf = leaf;
        in_page = ix;
        depth = d;
        left = left;
        right = right;
        path = subst (λ zs. Ancestors bt 0 c.parents zs left right) eq path;
        before_eq = refl;
        entry_eq = refl;
        after_eq = refl;
      };
      base = base;
      whole_eq = regroup left b a right _ w eq (split_at cs c.ix ix);
      sign = sign;
      below = All-append _ left b below (Below-take key cs c.ix lo);
      above =
          All-append _ a right (Above-drop key cs (suc c.ix) (λ j m n. hi j (omega arith) n)) above;
    }
