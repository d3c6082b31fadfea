-- ===== src/Btree/Tree/Select.antt =====
-- The child that a search of an interior page selects has all entries next to the key.
use litebtree.Base.{
  ℕ, zero, suc, ◌≤◌, ◌<◌, ◌≡◌, ◌≢◌, refl, ap, List, [], ◌∷◌, ◌++◌, length, get_or, arith, inl, inr,
  All-append, sym, ◌∙◌,
}
use litebtree.Btree.Key.{Key, neg, pos, lex, lex_trans, lex_trans_pos, lex_eq, Sign-cases}
use litebtree.Btree.Page.{Cell, no_cell}
use litebtree.Btree.Tree.{Entry, Below, AtMost, Above, Kids, Before, After, child_in}
use mathlib.Core.List.{append-nil, append_assoc}

lt_of_le_lt : (a d k : Key) → lex a d ≢ pos → lex d k ≡ neg → lex a k ≡ neg
lt_of_le_lt a d k h e = elim (Sign-cases (lex a d)) [
  | inl l ↦ lex_trans a d k l e
  | inr (inl l) ↦ rw (lex_eq a d l) e
  | inr (inr l) ↦ absurd (h l)
]

gt_of_gt_ge : (a d k : Key) → lex a d ≡ pos → lex d k ≢ neg → lex a k ≡ pos
gt_of_gt_ge a d k h e = elim (Sign-cases (lex d k)) [
  | inl l ↦ absurd (e l)
  | inr (inl l) ↦ rw (← lex_eq d k l) h
  | inr (inr l) ↦ lex_trans_pos a d k h l
]

pub AtMost-Below : (d k : Key) (es : List Entry) → AtMost d es → lex d k ≡ neg → Below k es
AtMost-Below d k [] h e = tt
AtMost-Below d k (x ∷ es) h e = (lt_of_le_lt x.0 d k h.0 e, AtMost-Below d k es h.1 e)

pub Above-trans : (d k : Key) (es : List Entry) → Above d es → lex d k ≢ neg → Above k es
Above-trans d k [] h e = tt
Above-trans d k (x ∷ es) h e = (gt_of_gt_ge x.0 d k h.0 e, Above-trans d k es h.1 e)

pub child_in_nil : (right i : ℕ) → child_in [] right i ≡ right
child_in_nil right i = ground arith

pub child_in_zero : (c : Cell) (cs : List Cell) (right : ℕ) → child_in (c ∷ cs) right 0 ≡ c.child
child_in_zero c cs right = ground arith

pub child_in-suc :
    (c : Cell) (cs : List Cell) (right i : ℕ)
    → child_in (c ∷ cs) right (suc i) ≡ child_in cs right i
child_in-suc c cs right i = ground arith

-- The contents of a child, between what stands left and right of it.
pub record Selected (Q : ℕ → List Entry → Type 0) (cs : List Cell) (right : ℕ) (i : ℕ) (key : Key)
    (es : List Entry) : Type 0 where
  pub left : List Entry
  pub kid : List Entry
  pub rest : List Entry
  pub whole : es ≡ left ++ (kid ++ rest)
  pub holds : Q (child_in cs right i) kid
  pub before : Before Q cs i left
  pub after : After Q cs right i rest
  pub below : Below key left
  pub above : Above key rest

module _ (Q : ℕ → List Entry → Type 0) (key : Key) where
  pub select :
      (cs : List Cell) (right i : ℕ) (es : List Entry)
      → Kids Q cs right es
      → ((j : ℕ) → j < i → j < length cs → lex (get_or cs j no_cell).key key ≡ neg)
      → ((j : ℕ) → i ≤ j → j < length cs → lex (get_or cs j no_cell).key key ≢ neg)
      → Selected Q cs right i key es
  select [] right i es kids lo hi = record {
    left = [];
    kid = es;
    rest = [];
    whole = sym (append-nil es);
    holds = rw child_in_nil kids;
    before = refl;
    after = refl;
    below = tt;
    above = tt;
  }
  select (c ∷ cs) right zero es (xs, ys, e, q, le, gt, kids) lo hi = record {
    left = [];
    kid = xs;
    rest = ys;
    whole = e;
    holds = rw child_in_zero q;
    before = refl;
    after = kids;
    below = tt;
    above = Above-trans c.key key ys gt (hi 0 (omega arith) (omega arith));
  }
  select (c ∷ cs) right (suc i) es (xs, ys, e, q, le, gt, kids) lo hi =
      let s =
        select cs right i ys kids (λ j l m. lo (suc j) (omega arith) (omega arith))
          (λ j l m. hi (suc j) (omega arith) (omega arith)) in
      record {
        left = xs ++ s.left;
        kid = s.kid;
        rest = s.rest;
        whole = e ∙ ap (λ zs. xs ++ zs) s.whole ∙ sym (append_assoc xs s.left _);
        holds = rw child_in-suc s.holds;
        before = (xs, s.left, refl, q, s.before);
        after = s.after;
        below =
            All-append _ xs s.left (AtMost-Below c.key key xs le (lo 0 (omega arith) (omega arith)))
              s.below;
        above = s.above;
      }
