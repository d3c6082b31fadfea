-- ===== src/Btree/Tree/Climb.antt =====
-- The loop of btreeNext (src/btree.c) that goes up, on the path of a tree.
use litebtree.Base.{
  ℕ, suc, ◌+◌, ◌<◌, ◌≡◌, refl, ap, ◌∙◌, true, false, Bool-cases, leb, List, [], ◌∷◌, ◌++◌, length,
  arith, ◌⊎◌, inl, inr,
}
use litebtree.Btree.Cursor.Step.{climb_next, move_to_parent}
use litebtree.Btree.Cursor.{BtShared, Cursor, valid}
use litebtree.Btree.Page.{MemPage, n_cell}
use litebtree.Btree.Tree.Kids.{After-end}
use litebtree.Btree.Tree.{Entry, Holds, Before, After, Ancestors, Stands, child_in}
use mathlib.Core.List.{append-nil, append_assoc}

-- The loop has ended on a page with a child to the right of the one it came from. `es` and what
-- stood left of it is what now stands left of that child.
pub record HasClimbed (bt : BtShared) (es left right : List Entry) (r : Cursor ⊎ Cursor)
    : Type 0 where
  pub top : Cursor
  pub run : r ≡ inr top
  pub height : ℕ
  pub before : List Entry
  pub kid : List Entry
  pub after : List Entry
  pub left₁ : List Entry
  pub right₁ : List Entry
  pub int_key : top.page.int_key ≡ true
  pub interior : top.page.leaf ≡ false
  pub in_page : top.ix < n_cell top.page
  pub is_before : Before (Holds bt height) top.page.cells top.ix before
  pub holds : Holds bt height (child_in top.page.cells top.page.right_child top.ix) kid
  pub is_after : After (Holds bt height) top.page.cells top.page.right_child top.ix after
  pub stands : Stands bt (suc height) top (before ++ (kid ++ after)) left₁ right₁
  pub left_eq : left ++ es ≡ left₁ ++ (before ++ kid)
  pub right_eq : right ≡ after ++ right₁

-- The loop has reached the root: nothing stands to the right.
pub record HasLeft (right : List Entry) (r : Cursor ⊎ Cursor) : Type 0 where
  pub end : Cursor
  pub run : r ≡ inl end
  pub nothing : right ≡ []

module _ (c : Cursor) (q : MemPage) (i : ℕ) (ps : List (MemPage × ℕ))
    (above : c.parents ≡ (q, i) ∷ ps) where
  up : Cursor
  up = record c { valid_n_key = false; page = q; ix = i; parents = ps }

  move_to_parent-up : move_to_parent c ≡ up
  unfolding move_to_parent up
  move_to_parent-up = ground arith

  climb_on : leb (n_cell q) i ≡ true → climb_next ((q, i) ∷ ps) c ≡ climb_next ps up
  unfolding climb_next up
  climb_on h = rw move_to_parent-up (ground arith)

  climb_stop : leb (n_cell q) i ≡ false → climb_next ((q, i) ∷ ps) c ≡ inr up
  unfolding climb_next up
  climb_stop h = rw move_to_parent-up (ground arith)

left_up :
    (left₁ left₂ es right₂ : List Entry) {left : List Entry}
    → left ≡ left₁ ++ left₂
    → right₂ ≡ []
    → left ++ es ≡ left₁ ++ (left₂ ++ (es ++ right₂))
left_up left₁ left₂ es right₂ p q = rw (p, q) (simp (append-nil, append_assoc))

module _ (bt : BtShared) where
  pub climb_next_lem :
      (ps : List (MemPage × ℕ)) (h : ℕ) (c : Cursor) (es left right : List Entry)
      → c.parents ≡ ps
      → c.e_state ≡ valid
      → c.loaded ≡ true
      → c.cur_int_key ≡ true
      → length ps + h < 20
      → Ancestors bt h ps es left right
      → HasLeft right (climb_next ps c) ⊎ HasClimbed bt es left right (climb_next ps c)
  unfolding climb_next up
  climb_next_lem [] h c es left right pe v l k d p =
      inl (record { end = c; run = refl; nothing = p.1 })
  climb_next_lem ((q, i) ∷ ps) h c es left right pe v l k d
        (left₁, left₂, right₁, right₂, le, re, key, inner, bound, b, hold, a, path) =
      elim (Bool-cases (leb (n_cell q) i)) [
        | inl t ↦
            let nothing = After-end (Holds bt h) q.cells q.right_child i right₂ (ground arith) a in
            let re' : right ≡ right₁ = re ∙ ap (λ zs. zs ++ right₁) nothing in
            rw (climb_on c q i ps pe t)
              (elim (climb_next_lem ps (suc h) (up c q i ps pe) (left₂ ++ (es ++ right₂)) left₁
                right₁ refl v l k (omega (arith, d)) path) [
                  | inl r ↦ inl (record { end = r.end; run = r.run; nothing = re' ∙ r.nothing })
                  | inr r ↦ inr (record {
                    top = r.top;
                    run = r.run;
                    height = r.height;
                    before = r.before;
                    kid = r.kid;
                    after = r.after;
                    left₁ = r.left₁;
                    right₁ = r.right₁;
                    int_key = r.int_key;
                    interior = r.interior;
                    in_page = r.in_page;
                    is_before = r.is_before;
                    holds = r.holds;
                    is_after = r.is_after;
                    stands = r.stands;
                    left_eq = left_up left₁ left₂ es right₂ le nothing ∙ r.left_eq;
                    right_eq = re' ∙ r.right_eq;
                  })
                ])
        | inr t ↦ rw (climb_stop c q i ps pe t) (
            inr (record {
              top = up c q i ps pe;
              run = refl;
              height = h;
              before = left₂;
              kid = es;
              after = right₂;
              left₁ = left₁;
              right₁ = right₁;
              int_key = key;
              interior = inner;
              in_page = ground arith;
              is_before = b;
              holds = hold;
              is_after = a;
              stands = record {
                is_valid = v;
                is_loaded = l;
                int_key = k;
                depth = omega (arith, d);
                path = path;
              };
              left_eq = ap (λ zs. zs ++ es) le ∙ append_assoc left₁ left₂ es;
              right_eq = re;
            }))
      ]
