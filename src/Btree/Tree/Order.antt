-- ===== src/Btree/Tree/Order.antt =====
-- The contents of a well-formed tree ascend by their keys.
use litebtree.Base.{
  ℕ, zero, suc, ◌<◌, ◌≡◌, ◌≢◌, sym, subst, List, [], ◌∷◌, ◌++◌, map, length, get_or, arith, inl,
  inr, All-append,
}
use litebtree.Btree.Cursor.{BtShared}
use litebtree.Btree.Key.{Key, neg, pos, lex, lex_eq, lex_trans_pos, lex_neg, lex_pos, Sign-cases}
use litebtree.Btree.Page.{MemPage, Cell, no_cell}
use litebtree.Btree.Tree.{Entry, entry, AtMost, Above, Below, Kids, Node}

abbrev pub Ascending : List Entry → Type 0
Ascending [] = Unit {0}
Ascending (e ∷ es) = Above e.0 es × Ascending es

-- A key that is at most another is below what is above that one.
pos_over : (a k b : Key) → lex a k ≢ pos → lex b k ≡ pos → lex b a ≡ pos
pos_over a k b n h = elim (Sign-cases (lex a k)) [
  | inl l ↦ lex_trans_pos b k a h (lex_neg a k l)
  | inr (inl l) ↦ subst (λ x. lex b x ≡ pos) (sym (lex_eq a k l)) h
  | inr (inr l) ↦ absurd (n l)
]

Above-over : (a k : Key) (ys : List Entry) → lex a k ≢ pos → Above k ys → Above a ys
Above-over a k [] n h = tt
Above-over a k (y ∷ ys) n h = (pos_over a k y.0 n h.0, Above-over a k ys n h.1)

Ascending-++ :
    (k : Key) (xs ys : List Entry)
    → Ascending xs
    → Ascending ys
    → AtMost k xs
    → Above k ys
    → Ascending (xs ++ ys)
Ascending-++ k [] ys a b m h = b
Ascending-++ k (x ∷ xs) ys a b m h =
    (All-append _ xs ys a.0 (Above-over x.0 k ys m.0 h), Ascending-++ k xs ys a.1 b m.1 h)

-- Keys of cells that ascend, by their indices.
abbrev Sorted : List Cell → Type 0
Sorted cs =
    (i j : ℕ)
    → i < j
    → j < length cs
    → lex (get_or cs i no_cell).key (get_or cs j no_cell).key ≡ neg

Sorted-tail : (c : Cell) (cs : List Cell) → Sorted (c ∷ cs) → Sorted cs
Sorted-tail c cs s i j l m = s (suc i) (suc j) (omega arith) (omega arith)

Above-cells :
    (k : Key) (cs : List Cell)
    → ((j : ℕ) → j < length cs → lex k (get_or cs j no_cell).key ≡ neg)
    → Above k (map entry cs)
Above-cells k [] f = tt
Above-cells k (c ∷ cs) f =
    (lex_neg k c.key (f 0 (omega arith)), Above-cells k cs (λ j m. f (suc j) (omega arith)))

Ascending-cells : (cs : List Cell) → Sorted cs → Ascending (map entry cs)
Ascending-cells [] s = tt
Ascending-cells (c ∷ cs) s = (
  Above-cells c.key cs (λ j m. s 0 (suc j) (omega arith) (omega arith)),
  Ascending-cells cs (Sorted-tail c cs s),
)

Ascending-Kids :
    (Q : ℕ → List Entry → Type 0) (f : (n : ℕ) (xs : List Entry) → Q n xs → Ascending xs)
    (cs : List Cell) (right : ℕ) (es : List Entry)
    → Kids Q cs right es
    → Ascending es
Ascending-Kids Q f [] right es q = f right es q
Ascending-Kids Q f (c ∷ cs) right es (xs, ys, eq, q, m, h, rest) =
    subst Ascending (sym eq)
      (Ascending-++ c.key xs ys (f c.child xs q) (Ascending-Kids Q f cs right ys rest) m h)

-- The contents of a well-formed tree are in ascending order of their keys, without duplicates.
pub Node-Ascending :
    (bt : BtShared) (h : ℕ) (p : MemPage) (es : List Entry) → Node bt h p es → Ascending es
Node-Ascending bt zero p es n = subst Ascending (sym n.2) (Ascending-cells p.cells n.0.2)
Node-Ascending bt (suc h) p es n =
    Ascending-Kids _ (λ k xs q. Node-Ascending bt h q.0 xs q.2) p.cells p.right_child es n.2

Above-middle :
    (k : Key) (xs : List Entry) (y : Entry) (ys : List Entry)
    → Above k (xs ++ y ∷ ys)
    → lex y.0 k ≡ pos
Above-middle k [] y ys h = h.0
Above-middle k (x ∷ xs) y ys h = Above-middle k xs y ys h.1

pub Ascending-Below :
    (before : List Entry) (e : Entry) (after : List Entry)
    → Ascending (before ++ e ∷ after)
    → Below e.0 before
Ascending-Below [] e after a = tt
Ascending-Below (x ∷ before) e after a =
    (lex_pos e.0 x.0 (Above-middle x.0 before e after a.0), Ascending-Below before e after a.1)

pub Ascending-Above :
    (before : List Entry) (e : Entry) (after : List Entry)
    → Ascending (before ++ e ∷ after)
    → Above e.0 after
Ascending-Above [] e after a = a.0
Ascending-Above (x ∷ before) e after a = Ascending-Above before e after a.1
