-- ===== src/Btree/Tree/Next.antt =====
-- sqlite3BtreeNext (src/btree.c) on a tree: one entry to the right, or SQLITE_DONE at the end.
use litebtree.Base.{
  ℕ, suc, ◌+◌, ◌≤◌, ◌<◌, ◌≡◌, ap, ◌∙◌, sym, subst, true, false, Bool-cases, leb, some, List, ◌++◌,
  get_or, length, arith, ◌⊎◌, inl, inr, ok,
}
use litebtree.Btree.Cursor.Step.{next_loop, advance, climb_next, ran_off}
use litebtree.Btree.Cursor.{
  BtShared, Cursor, Moved, on_ok, valid, move_to_child, move_to_leftmost, leftmost_loop,
}
use litebtree.Btree.Page.{Cell, no_cell, n_cell}
use litebtree.Btree.Tree.Climb.{HasClimbed}
use litebtree.Btree.Tree.Enter.{IsFirst, enter, leftmost_loop-IsFirst, leftmost_down}
use litebtree.Btree.Tree.Kids.{next_kid, Before-kid}
use litebtree.Btree.Tree.{Entry, Holds, Ancestors, Stands, child_in}
use mathlib.Core.List.{append_assoc}

abbrev pub plain : Cursor → Cursor
plain c = record c { valid_n_key = false }

abbrev pub raised : Cursor → Cursor
raised c = record c { ix = suc c.ix }

module _ (fuel : ℕ) (bt : BtShared) (c : Cursor) (v : c.e_state ≡ valid) where
  pub next_within :
      c.ix + 1 < n_cell c.page
      → c.page.leaf ≡ true
      → next_loop (suc fuel) bt c ≡ some (ok, record (plain c) { ix = suc c.ix })
  unfolding next_loop
  next_within h l = ground arith

  next_inner :
      c.ix + 1 < n_cell c.page
      → c.page.leaf ≡ false
      → next_loop (suc fuel) bt c ≡ move_to_leftmost bt (record (plain c) { ix = suc c.ix })
  unfolding next_loop
  next_inner h l = ground arith

  pub next_slow :
      n_cell c.page ≤ c.ix + 1
      → next_loop (suc fuel) bt c ≡ advance (next_loop fuel bt) bt (plain c)
  unfolding next_loop
  next_slow h = ground arith

pub advance_inside :
    (go : Cursor → Moved) (bt : BtShared) (c : Cursor)
    → c.ix + 1 < n_cell c.page
    → c.page.leaf ≡ true
    → advance go bt c ≡ some (ok, raised c)
unfolding advance
advance_inside go bt c h l = ground arith

module _ (go : Cursor → Moved) (bt : BtShared) (c : Cursor) (past : n_cell c.page ≤ c.ix + 1) where
  advance_right :
      c.page.leaf ≡ false
      → advance go bt c
        ≡ on_ok (move_to_child bt (raised c) c.page.right_child) (λ d. move_to_leftmost bt d)
  unfolding advance
  advance_right h = ground arith

  pub advance_off :
      (d : Cursor)
      → c.page.leaf ≡ true
      → climb_next c.parents (raised c) ≡ inl d
      → advance go bt c ≡ ran_off d
  unfolding advance
  advance_off d h e = ground arith

  pub advance_up :
      (d : Cursor)
      → c.page.leaf ≡ true
      → d.page.int_key ≡ true
      → climb_next c.parents (raised c) ≡ inr d
      → advance go bt c ≡ go d
  unfolding advance
  advance_up d h k e = ground arith

child_in_cell :
    (cs : List Cell) (right i : ℕ)
    → i < length cs
    → child_in cs right i ≡ (get_or cs i no_cell).child
child_in_cell cs right i h = ground arith

child_in_end : (cs : List Cell) (right i : ℕ) → length cs ≤ i → child_in cs right i ≡ right
child_in_end cs right i h = ground arith

-- The next call from the page where the climb ended is a step into the child to the right.
module _ (fuel : ℕ) (bt : BtShared) (c : Cursor) (v : c.e_state ≡ valid)
    (inner : c.page.leaf ≡ false) where
  abbrev into : ℕ → Moved
  into d =
      on_ok
        (move_to_child bt (record (plain c) { ix = suc c.ix })
          (child_in c.page.cells c.page.right_child (suc c.ix)))
        (λ x. leftmost_loop d bt x)

  next_into_right : n_cell c.page ≤ suc c.ix → next_loop (suc fuel) bt c ≡ into 20
  unfolding move_to_leftmost
  next_into_right h =
      next_slow fuel bt c v (omega arith)
      ∙ advance_right (next_loop fuel bt) bt (plain c) (omega arith) inner
      ∙ rw (child_in_end c.page.cells c.page.right_child (suc c.ix) h)

  next_into_cell : suc c.ix < n_cell c.page → next_loop (suc fuel) bt c ≡ into 19
  unfolding move_to_leftmost
  next_into_cell h =
      next_inner fuel bt c v (omega arith) inner
      ∙ leftmost_down 19 bt (record (plain c) { ix = suc c.ix }) inner
      ∙ rw (child_in_cell c.page.cells c.page.right_child (suc c.ix) h)

-- What the step finds: the next entry, and the contents regrouped around it.
pub record HasNext (bt : BtShared) (before right : List Entry) (m : Moved) : Type 0 where
  pub kid : List Entry
  pub rest : List Entry
  pub whole : right ≡ kid ++ rest
  pub first : IsFirst bt kid before rest m

pub next-HasClimbed :
    (fuel : ℕ) (bt : BtShared) (es left right : List Entry) (r : Cursor ⊎ Cursor)
    (t : HasClimbed bt es left right r)
    → HasNext bt (left ++ es) right (next_loop (suc fuel) bt t.top)
next-HasClimbed fuel bt es left right r t =
    let c = t.top in
    let p = c.page in
    let q = Holds bt t.height in
    let s = next_kid q p.cells p.right_child c.ix t.after t.in_page t.is_after in
    let st : Stands bt (suc t.height) (plain c) ((t.before ++ t.kid) ++ (s.kid ++ s.rest)) t.left₁
        t.right₁ =
      record {
        is_valid = t.stands.is_valid;
        is_loaded = t.stands.is_loaded;
        int_key = t.stands.int_key;
        depth = t.stands.depth;
        path =
            subst (λ zs. Ancestors bt (suc t.height) c.parents zs t.left₁ t.right₁)
              (ap (λ zs. t.before ++ (t.kid ++ zs)) s.whole
                ∙ sym (append_assoc t.before t.kid (s.kid ++ s.rest)))
              t.stands.path;
      } in
    let step : (d : ℕ)
        → t.height ≤ d
        → IsFirst bt s.kid (left ++ es) (s.rest ++ t.right₁)
            (into fuel bt c t.stands.is_valid t.interior (suc d)) =
      λ d hd.
        subst
          (λ zs.
            IsFirst bt s.kid zs (s.rest ++ t.right₁)
              (into fuel bt c t.stands.is_valid t.interior (suc d)))
          (sym t.left_eq)
          (enter bt t.height (λ x. leftmost_loop (suc d) bt x)
            (λ x zs l w n z. leftmost_loop-IsFirst bt t.height d x zs l w hd n z) (plain c)
            (suc c.ix) s.kid (t.before ++ t.kid) s.rest t.left₁ t.right₁ t.int_key t.interior
            t.in_page
            (Before-kid q p.cells p.right_child c.ix t.before t.kid t.in_page t.is_before t.holds)
            s.holds s.after st) in
    record {
      kid = s.kid;
      rest = s.rest ++ t.right₁;
      whole = t.right_eq ∙ ap (λ zs. zs ++ t.right₁) s.whole ∙ append_assoc s.kid s.rest t.right₁;
      first = elim (Bool-cases (leb (n_cell p) (suc c.ix))) [
        | inl h ↦
            subst (λ m. IsFirst bt s.kid (left ++ es) (s.rest ++ t.right₁) m)
              (sym (next_into_right fuel bt c t.stands.is_valid t.interior (ground arith)))
              (step 19 (omega (arith, t.stands.depth)))
        | inr h ↦
            subst (λ m. IsFirst bt s.kid (left ++ es) (s.rest ++ t.right₁) m)
              (sym (next_into_cell fuel bt c t.stands.is_valid t.interior (ground arith)))
              (step 18 (omega (arith, t.stands.depth)))
      ];
    }
