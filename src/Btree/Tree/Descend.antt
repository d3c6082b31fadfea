-- ===== src/Btree/Tree/Descend.antt =====
-- The descent of sqlite3BtreeKvMoveto lands on a neighbour of the key in a well-formed tree.
mod Leaf
use litebtree.Base.{
  ℕ, zero, suc, ◌+◌, ◌≤◌, ◌<◌, ◌≡◌, ◌≢◌, refl, ap, ◌∙◌, sym, true, false, Bool, Option, List, [],
  All-append, dec_lt, some, subst, ◌∷◌, ◌++◌, length, All, arith, ok,
}
use litebtree.Btree.Cursor.Seek.{Placed, placed, child_at, next_layer, act_on, descend}
use litebtree.Btree.Cursor.{BtShared, Cursor, fetched, get_and_init_page, move_to_child, valid}
use litebtree.Btree.Key.{Key, Sign, neg, nil, pos, lex, lex_refl, lex_neg}
use litebtree.Btree.Page.Search.{IsPlace, search_page-IsPlace}
use litebtree.Btree.Page.{MemPage, Found, exact, miss, stuck, n_cell, key_at, search_page}
use litebtree.Btree.Tree.Select.{select, Selected}
use litebtree.Btree.Tree.{Entry, Below, Above, Node, IsRooted, IsFit, Holds, Ancestors}
use Leaf.{leaf_landing}
use mathlib.Core.Bool.{xor}
use mathlib.Core.List.{append_assoc}
pub use Leaf.{Landed, split_at}

pub Node-IsFit : (bt : BtShared) (h : ℕ) (p : MemPage) (es : List Entry) → Node bt h p es → IsFit p
Node-IsFit bt zero p es n = n.0
Node-IsFit bt (suc h) p es n = n.0

regroup :
    (left l k r right : List Entry) {whole es : List Entry}
    → whole ≡ left ++ (es ++ right)
    → es ≡ l ++ (k ++ r)
    → whole ≡ (left ++ l) ++ (k ++ (r ++ right))
regroup left l k r right w e = rw (w, e) (simp append_assoc)

-- Going down to a fit page succeeds while the depth allows it.
pub move_to_child_lem :
    (bt : BtShared) (c : Cursor) (n : ℕ) (q : MemPage)
    → length c.parents < 19
    → c.cur_int_key ≡ true
    → get_and_init_page bt n ≡ fetched q
    → IsFit q
    → move_to_child bt c n ≡ (
      ok,
      record c { valid_n_key = false; ix = 0; parents = (c.page, c.ix) ∷ c.parents; page = q },
    )
unfolding move_to_child xor
move_to_child_lem bt c n q d k e f = ground arith

module _ (go : Cursor → Option Placed) (bt : BtShared) (c : Cursor) (res : Sign) where
  act_leaf_exact :
      (i : ℕ)
      → c.page.leaf ≡ true
      → act_on go bt c res (exact i)
        ≡ some (placed nil (ok, record c { ix = i; valid_n_key = true }))
  unfolding act_on
  act_leaf_exact i h = ground arith

  act_leaf_miss :
      (lwr i : ℕ) (s : Sign)
      → c.page.leaf ≡ true
      → act_on go bt c res (miss lwr i s) ≡ some (placed s (ok, record c { ix = i }))
  unfolding act_on
  act_leaf_miss lwr i s h = ground arith

  act_interior_exact :
      (i : ℕ) → c.page.leaf ≡ false → act_on go bt c res (exact i) ≡ next_layer go bt c i res
  unfolding act_on next_layer
  act_interior_exact i h = ground arith

  act_interior_miss :
      (lwr i : ℕ) (s : Sign)
      → c.page.leaf ≡ false
      → act_on go bt c res (miss lwr i s) ≡ next_layer go bt c lwr res
  unfolding act_on next_layer
  act_interior_miss lwr i s h = ground arith

  next_layer_ok :
      (lwr : ℕ) (d : Cursor)
      → move_to_child bt (record c { ix = lwr }) (child_at c.page lwr) ≡ (ok, d)
      → next_layer go bt c lwr res ≡ go d
  unfolding next_layer
  next_layer_ok lwr d e = rw e

module _ (bt : BtShared) (root : ℕ × MemPage) (key : Key) (whole : List Entry) where
  -- What the descent assumes of a cursor on a page of height `h`.
  pub record IsOn (h : ℕ) (c : Cursor) (es left right : List Entry) : Type 0 where
    pub node : Node bt h c.page es
    pub is_valid : c.e_state ≡ valid
    pub is_loaded : c.loaded ≡ true
    pub int_key : c.cur_int_key ≡ true
    pub depth : length c.parents + h < 20
    pub base : IsRooted root c
    pub path : Ancestors bt h c.parents es left right
    pub below : Below key left
    pub above : Above key right
    pub whole_eq : whole ≡ left ++ (es ++ right)

  -- A leaf, for each outcome of its search.
  leaf_end :
      (c : Cursor) (es left right : List Entry) (go : Cursor → Option Placed) (res : Sign)
      → IsOn 0 c es left right
      → (f : Found) → IsPlace c.page key f
      → Landed bt root key whole (act_on go bt c res f)
  leaf_end c es left right go res on (exact i) place =
      let sorted = on.node.0.2 in
      rw (act_leaf_exact go bt c res i on.node.1) (
        leaf_landing bt root key whole (record c { ix = i; valid_n_key = true }) es left right
          on.node on.is_valid on.is_loaded on.int_key (omega arith) on.base on.path on.below
          on.above on.whole_eq nil place.0 (rw place.1 (lex_refl key))
          (λ j l. subst (λ k. lex (key_at c.page j) k ≡ neg) place.1 (sorted j i l place.0))
          (λ j l m.
            subst (λ k. lex (key_at c.page j) k ≡ pos) place.1 (lex_neg _ _ (sorted i j l m))))
  leaf_end c es left right go res on (miss lwr i neg) place =
      rw (act_leaf_miss go bt c res lwr i neg on.node.1) (
        leaf_landing bt root key whole (record c { ix = i }) es left right on.node on.is_valid
          on.is_loaded on.int_key (omega arith) on.base on.path on.below on.above on.whole_eq neg
          place.2 (place.0.0 i (omega arith)) (λ j l. place.0.0 j (omega arith))
          (λ j l m. place.0.1 j (omega arith) m))
  leaf_end c es left right go res on (miss lwr i pos) place =
      rw (act_leaf_miss go bt c res lwr i pos on.node.1) (
        leaf_landing bt root key whole (record c { ix = i }) es left right on.node on.is_valid
          on.is_loaded on.int_key (omega arith) on.base on.path on.below on.above on.whole_eq pos
          place.2 (place.0.1 i (omega arith) place.2) (λ j l. place.0.0 j (omega arith))
          (λ j l m. place.0.1 j (omega arith) m))
  leaf_end c es left right go res on (miss lwr i nil) place = absurd place
  leaf_end c es left right go res on stuck place = absurd place

  module _ (h : ℕ) (c : Cursor) (es left right : List Entry) (go : Cursor → Option Placed)
      (res : Sign) (on : IsOn (suc h) c es left right)
      (ih : (c' : Cursor) (xs l r : List Entry)
        → IsOn h c' xs l r
        → Landed bt root key whole (go c')) where
    -- One level down, into the child that the search has selected.
    layer :
        (lwr : ℕ)
        → lwr ≤ n_cell c.page
        → ((j : ℕ) → j < lwr → j < n_cell c.page → lex (key_at c.page j) key ≡ neg)
        → ((j : ℕ) → lwr ≤ j → j < n_cell c.page → lex (key_at c.page j) key ≢ neg)
        → Landed bt root key whole (next_layer go bt c lwr res)
    layer lwr bound lo hi =
        let s = select (Holds bt h) key c.page.cells c.page.right_child lwr es on.node.2 lo hi in
        let q = s.holds.0 in
        let got = s.holds.1 in
        let node = s.holds.2 in
        let d = record c {
          valid_n_key = false;
          ix = 0;
          parents = (c.page, lwr) ∷ c.parents;
          page = q;
        } in
        rw
          (next_layer_ok go bt c res lwr d (
            move_to_child_lem bt (record c { ix = lwr }) (child_at c.page lwr) q (omega arith)
              on.int_key got (Node-IsFit bt h q s.kid node)))
          (ih d s.kid (left ++ s.left) (s.rest ++ right) (record {
            node = node;
            is_valid = on.is_valid;
            is_loaded = on.is_loaded;
            int_key = on.int_key;
            depth = omega (arith, on.depth);
            base = on.base;
            path = (
              left,
              s.left,
              right,
              s.rest,
              refl,
              refl,
              on.node.0.0,
              on.node.1,
              bound,
              s.before,
              s.holds,
              s.after,
              subst (λ zs. Ancestors bt (suc h) c.parents zs left right) s.whole on.path,
            );
            below = All-append _ left s.left on.below s.below;
            above = All-append _ s.rest right s.above on.above;
            whole_eq = regroup left s.left s.kid s.rest right on.whole_eq s.whole;
          }))

    not_after :
        (i j : ℕ)
        → i ≤ j
        → j < n_cell c.page
        → key_at c.page i ≡ key
        → lex (key_at c.page j) key ≢ neg
    not_after i j l m e n = elim (dec_lt i j) [
      | yes k ↦
          cc (subst (λ x. lex (key_at c.page j) x ≡ pos) e (lex_neg _ _ (on.node.0.2 i j k m)))
      | no k ↦
          let same : i ≡ j = omega arith in
          cc (
            lex_refl key,
            subst (λ x. lex (key_at c.page x) key ≡ neg) (sym same) n,
            ap (λ x. lex x key) e,
          )
    ]

    interior_end :
        (f : Found) → IsPlace c.page key f → Landed bt root key whole (act_on go bt c res f)
    interior_end (exact i) place = rw (act_interior_exact go bt c res i on.node.1) (
        layer i (omega arith)
          (λ j l m. subst (λ k. lex (key_at c.page j) k ≡ neg) place.1 (on.node.0.2 j i l place.0))
          (λ j l m e. not_after i j l m place.1 e))
    interior_end (miss lwr i neg) place =
        rw (act_interior_miss go bt c res lwr i neg on.node.1)
          (layer lwr (omega arith) (λ j l m. place.0.0 j l) (λ j l m e. cc (place.0.1 j l m)))
    interior_end (miss lwr i pos) place =
        rw (act_interior_miss go bt c res lwr i pos on.node.1)
          (layer lwr (omega arith) (λ j l m. place.0.0 j l) (λ j l m e. cc (place.0.1 j l m)))
    interior_end (miss lwr i nil) place = absurd place
    interior_end stuck place = absurd place

  -- On a tree no higher than the fuel the descent ends on a leaf entry next to the key.
  pub descend-Landed :
      (h fuel : ℕ) (c : Cursor) (es left right : List Entry) (bias : Bool) (res : Sign)
      → h ≤ fuel
      → IsOn h c es left right
      → Landed bt root key whole (descend (suc fuel) bt c key bias res)
  unfolding descend
  descend-Landed zero fuel c es left right bias res hf on =
      leaf_end c es left right (λ x. descend fuel bt x key bias res) res on _
        (search_page-IsPlace c.page key on.node.0.2 bias on.node.0.1)
  descend-Landed (suc h) zero c es left right bias res hf on = absurd (omega arith)
  descend-Landed (suc h) (suc fuel) c es left right bias res hf on =
      interior_end h c es left right (λ x. descend (suc fuel) bt x key bias res) res on
        (λ c' xs l r on'. descend-Landed h fuel c' xs l r bias res (omega arith) on') _
        (search_page-IsPlace c.page key on.node.0.2 bias on.node.0.1)
