-- ===== src/Btree/Tree/Kids.antt =====
-- The children of an interior page, one after the other.
use litebtree.Base.{
  ℕ, zero, suc, ◌≤◌, ◌<◌, ◌≡◌, refl, ap, ◌∙◌, sym, List, [], ◌∷◌, ◌++◌, length, arith,
}
use litebtree.Btree.Page.{Cell}
use litebtree.Btree.Tree.Select.{child_in_nil, child_in_zero, child_in-suc}
use litebtree.Btree.Tree.{Entry, Kids, Before, After, child_in}
use mathlib.Core.List.{append-nil, append_assoc}

module _ (Q : ℕ → List Entry → Type 0) where
  -- A child with what stands right of it.
  pub record Split (cs : List Cell) (right i : ℕ) (es : List Entry) : Type 0 where
    pub kid : List Entry
    pub rest : List Entry
    pub whole : es ≡ kid ++ rest
    pub holds : Q (child_in cs right i) kid
    pub after : After Q cs right i rest

  pub first_kid :
      (cs : List Cell) (right : ℕ) (es : List Entry) → Kids Q cs right es → Split cs right 0 es
  first_kid [] right es k = record {
    kid = es;
    rest = [];
    whole = sym (append-nil es);
    holds = rw child_in_nil k;
    after = refl;
  }
  first_kid (c ∷ cs) right es (xs, ys, e, q, le, gt, kids) = record {
    kid = xs;
    rest = ys;
    whole = e;
    holds = rw child_in_zero q;
    after = kids;
  }

  pub next_kid :
      (cs : List Cell) (right i : ℕ) (es : List Entry)
      → i < length cs
      → After Q cs right i es
      → Split cs right (suc i) es
  next_kid [] right i es h a = absurd (omega arith)
  next_kid (c ∷ cs) right zero es h a =
      let s = first_kid cs right es a in
      record {
        kid = s.kid;
        rest = s.rest;
        whole = s.whole;
        holds = rw child_in-suc s.holds;
        after = s.after;
      }
  next_kid (c ∷ cs) right (suc i) es h a =
      let s = next_kid cs right i es (omega arith) a in
      record {
        kid = s.kid;
        rest = s.rest;
        whole = s.whole;
        holds = rw child_in-suc s.holds;
        after = s.after;
      }

  pub After-end :
      (cs : List Cell) (right i : ℕ) (es : List Entry)
      → length cs ≤ i
      → After Q cs right i es
      → es ≡ []
  After-end [] right i es h a = a
  After-end (c ∷ cs) right zero es h a = absurd (omega arith)
  After-end (c ∷ cs) right (suc i) es h a = After-end cs right i es (omega arith) a

  -- A child that is done joins what stands left.
  pub Before-kid :
      (cs : List Cell) (right i : ℕ) (es kid : List Entry)
      → i < length cs
      → Before Q cs i es
      → Q (child_in cs right i) kid
      → Before Q cs (suc i) (es ++ kid)
  Before-kid [] right i es kid h b q = absurd (omega arith)
  Before-kid (c ∷ cs) right zero es kid h b q =
      (kid, [], rw (b, append-nil), rw child_in_zero at q, before_zero cs)
    where
      before_zero : (ds : List Cell) → Before Q ds 0 []
      before_zero [] = refl
      before_zero (d ∷ ds) = refl
  Before-kid (c ∷ cs) right (suc i) es kid h (xs, ys, e, p, b) q = (
    xs,
    ys ++ kid,
    ap (λ zs. zs ++ kid) e ∙ append_assoc xs ys kid,
    p,
    Before-kid cs right i ys kid (omega arith) b (rw child_in-suc at q),
  )
