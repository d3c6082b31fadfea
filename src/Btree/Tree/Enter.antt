-- ===== src/Btree/Tree/Enter.antt =====
-- Going down into a child and on to its first entry: moveToChild and moveToLeftmost of src/btree.c.
use litebtree.Base.{
  ℕ, zero, suc, ◌≤◌, ◌<◌, ◌≡◌, refl, ap, ◌∙◌, sym, subst, true, false, some, List, [], ◌∷◌, ◌++◌,
  map, drop, get_or, length, arith, ok, Rc,
}
use litebtree.Btree.Cursor.{BtShared, Cursor, Moved, on_ok, move_to_child, leftmost_loop}
use litebtree.Btree.Page.{Cell, no_cell, n_cell, find_cell}
use litebtree.Btree.Tree.Descend.{move_to_child_lem, Node-IsFit}
use litebtree.Btree.Tree.Kids.{first_kid}
use litebtree.Btree.Tree.{
  Entry, entry, Node, Holds, Before, After, Ancestors, Stands, IsAt, IsAt-cast, child_in,
}
use mathlib.Core.List.{append-nil, append_assoc}

-- The move has ended on the first of the entries `es`.
pub record IsFirst (bt : BtShared) (es left right : List Entry) (m : Moved) : Type 0 where
  pub there : Cursor
  pub run : m ≡ some (ok, there)
  pub e : Entry
  pub rest : List Entry
  pub whole : es ≡ e ∷ rest
  pub place : IsAt bt there left e (rest ++ right)

first_cell :
    (cs : List Cell)
    → 0 < length cs
    → map entry cs ≡ entry (get_or cs 0 no_cell) ∷ map entry (drop 1 cs)
first_cell [] h = absurd (omega arith)
first_cell (c ∷ cs) h = refl

leaf_first :
    (bt : BtShared) (fuel : ℕ) (c : Cursor) (es left right : List Entry)
    → Node bt 0 c.page es
    → Stands bt 0 c es left right
    → IsFirst bt es left right (leftmost_loop (suc fuel) bt (record c { ix = 0 }))
unfolding leftmost_loop
leaf_first bt fuel c es left right (fit, leaf, eq) s = record {
  there = record c { ix = 0 };
  run = ground arith;
  e = entry (find_cell c.page 0);
  rest = map entry (drop 1 c.page.cells);
  whole = eq ∙ first_cell c.page.cells fit.1;
  place = record {
    is_valid = s.is_valid;
    is_loaded = s.is_loaded;
    int_key = s.int_key;
    on_leaf = leaf;
    in_page = fit.1;
    depth = omega (arith, s.depth);
    left = left;
    right = right;
    path = subst (λ zs. Ancestors bt 0 c.parents zs left right) eq s.path;
    before_eq = sym (append-nil left);
    entry_eq = refl;
    after_eq = refl;
  };
}

on_ok_lem : (r : Rc × Cursor) (k : Cursor → Moved) (c : Cursor) → r ≡ (ok, c) → on_ok r k ≡ k c
on_ok_lem r k c e = rw e

module _ (bt : BtShared) (h : ℕ) (down : Cursor → Moved)
    (ih : (d : Cursor) (xs l r : List Entry)
      → Node bt h d.page xs
      → Stands bt h d xs l r
      → IsFirst bt xs l r (down (record d { ix = 0 }))) where
  pub enter :
      (c : Cursor) (i : ℕ) (xs before after left right : List Entry)
      → c.page.int_key ≡ true
      → c.page.leaf ≡ false
      → i ≤ n_cell c.page
      → Before (Holds bt h) c.page.cells i before
      → Holds bt h (child_in c.page.cells c.page.right_child i) xs
      → After (Holds bt h) c.page.cells c.page.right_child i after
      → Stands bt (suc h) c (before ++ (xs ++ after)) left right
      → IsFirst bt xs (left ++ before) (after ++ right) (
          on_ok
            (move_to_child bt (record c { ix = i }) (child_in c.page.cells c.page.right_child i))
            down)
  enter c i xs before after left right key leaf bound b hold a s =
      let q = hold.0 in
      let d = record c {
        valid_n_key = false;
        ix = 0;
        parents = (c.page, i) ∷ c.parents;
        page = q;
      } in
      rw
        (on_ok_lem _ down d (
          move_to_child_lem bt (record c { ix = i }) _ q (omega (arith, s.depth)) s.int_key hold.1
            (Node-IsFit bt h q xs hold.2)))
        (ih d xs (left ++ before) (after ++ right) hold.2 (record {
          is_valid = s.is_valid;
          is_loaded = s.is_loaded;
          int_key = s.int_key;
          depth = omega (arith, s.depth);
          path = (left, before, right, after, refl, refl, key, leaf, bound, b, hold, a, s.path);
        }))

child_in_first :
    (cs : List Cell) (right : ℕ) → 0 < length cs → child_in cs right 0 ≡ (get_or cs 0 no_cell).child
child_in_first cs right h = ground arith

pub leftmost_down :
    (fuel : ℕ) (bt : BtShared) (c : Cursor)
    → c.page.leaf ≡ false
    → leftmost_loop (suc fuel) bt c
      ≡ on_ok (move_to_child bt c (find_cell c.page c.ix).child) (λ d. leftmost_loop fuel bt d)
unfolding leftmost_loop
leftmost_down fuel bt c h = ground arith

Before-none : (Q : ℕ → List Entry → Type 0) (cs : List Cell) → Before Q cs 0 []
Before-none Q [] = refl
Before-none Q (c ∷ cs) = refl

-- From the first cell of any page of a tree, the loop ends on the first entry below it.
pub leftmost_loop-IsFirst :
    (bt : BtShared) (h fuel : ℕ) (c : Cursor) (es left right : List Entry)
    → h ≤ fuel
    → Node bt h c.page es
    → Stands bt h c es left right
    → IsFirst bt es left right (leftmost_loop (suc fuel) bt (record c { ix = 0 }))
leftmost_loop-IsFirst bt zero fuel c es left right hf node s =
    leaf_first bt fuel c es left right node s
leftmost_loop-IsFirst bt (suc h) zero c es left right hf node s = absurd (omega arith)
leftmost_loop-IsFirst bt (suc h) (suc fuel) c es left right hf node s =
    let k = first_kid (Holds bt h) c.page.cells c.page.right_child es node.2 in
    let f =
      enter bt h (λ d. leftmost_loop (suc fuel) bt d)
        (λ d xs l r n t. leftmost_loop-IsFirst bt h fuel d xs l r (omega arith) n t) c 0 k.kid []
        k.rest left right node.0.0 node.1 (omega arith) (Before-none _ c.page.cells) k.holds k.after
        (record {
          is_valid = s.is_valid;
          is_loaded = s.is_loaded;
          int_key = s.int_key;
          depth = s.depth;
          path = subst (λ zs. Ancestors bt (suc h) c.parents zs left right) k.whole s.path;
        }) in
    record {
      there = f.there;
      run =
          leftmost_down (suc fuel) bt (record c { ix = 0 }) node.1
          ∙ rw (← child_in_first c.page.cells c.page.right_child node.0.1) f.run;
      e = f.e;
      rest = f.rest ++ k.rest;
      whole = k.whole ∙ ap (λ zs. zs ++ k.rest) f.whole;
      place =
          IsAt-cast bt f.there (sym (append-nil left)) (append_assoc f.rest k.rest right) f.place;
    }
