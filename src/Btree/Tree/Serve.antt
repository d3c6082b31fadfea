-- ===== src/Btree/Tree/Serve.antt =====
-- sqlite3BtreeKvMoveto from any cursor that a client may hold: also from an entry of the tree, where
-- the fast path may end the seek at once.
use litebtree.Base.{
  ℕ, ◌≡◌, refl, ap, subst, ◌∙◌, true, false, Bool, ◌&&◌, ◌==◌, Bool-cases, List, [], ◌∷◌, ◌++◌,
  length, Option, some, ok, inl, inr, ◌⊎◌, arith,
}
use litebtree.Btree.Cursor.Seek.{Placed, placed, is_nil, is_there, kv_moveto}
use litebtree.Btree.Cursor.{BtShared, Cursor, bottom, is_valid}
use litebtree.Btree.Key.{Key, Sign, nil, lex, lex_eq, memcmp}
use litebtree.Btree.Page.{MemPage, key_at}
use litebtree.Btree.Tree.Descend.{Landed}
use litebtree.Btree.Tree.Moveto.{IsOpen, kv_moveto-Landed}
use litebtree.Btree.Tree.Order.{Ascending, Node-Ascending, Ascending-Below, Ascending-Above}
use litebtree.Btree.Tree.{Entry, IsAt, Below, Above}

-- The cursor is not valid, or it stands on an entry of the tree.
abbrev pub IsSettled : BtShared → List Entry → Cursor → Type 0
IsSettled bt es c =
    (is_valid c.e_state ≡ false)
    ⊎ ((before : List Entry) × (e : Entry) × (after : List Entry) × IsAt bt c before e after
        × (es ≡ before ++ e ∷ after))

memcmp_nil : (a b : Key) → length a ≡ length b → memcmp a b (length b) ≡ nil → lex a b ≡ nil
unfolding memcmp lex
memcmp_nil [] [] l h = refl
memcmp_nil [] (y ∷ ys) l h = absurd (omega (arith, l))
memcmp_nil (x ∷ xs) [] l h = absurd (omega (arith, l))
memcmp_nil (x ∷ xs) (y ∷ ys) l h = ground (arith, memcmp_nil xs ys (omega (arith, l)))

-- The last tests of the fast path, for a key at the cursor.
there_nil_lem :
    (v n s : Bool) (a key : Key)
    → (v && (n && (s && (length a == length key && is_nil (memcmp a key (length key)))))) ≡ true
    → lex a key ≡ nil
there_nil_lem v n s a key h = ground (arith, memcmp_nil a key)

there_nil : (c : Cursor) (key : Key) → is_there c key ≡ true → lex (key_at c.page c.ix) key ≡ nil
there_nil c key h =
    there_nil_lem (is_valid c.e_state) c.valid_n_key (is_nil c.skip) (key_at c.page c.ix) key h

IsOpen-bottom :
    (bt : BtShared) (h : ℕ) (root : MemPage) (es : List Entry) (c : Cursor)
    → IsOpen bt h root es c
    → c.loaded ≡ true
    → bottom c.page c.parents ≡ root
IsOpen-bottom bt h root es c o l = elim o.ready [ inl (n, s) ↦ absurd cc | inr (m, b, k) ↦ b ]

invalid_slow : (c : Cursor) (key : Key) → is_valid c.e_state ≡ false → is_there c key ≡ false
invalid_slow c key h = rw h refl

kv_moveto_fast :
    (bt : BtShared) (c : Cursor) (key : Key) (bias : Bool) (res : Sign)
    → is_there c key ≡ true
    → kv_moveto bt c key bias res ≡ some (placed nil (ok, c))
unfolding kv_moveto
kv_moveto_fast bt c key bias res h = rw h refl

fast-Landed :
    (bt : BtShared) (h : ℕ) (root : MemPage) (es : List Entry) (c : Cursor) (key : Key)
    (bias : Bool) (res : Sign)
    → IsOpen bt h root es c
    → IsSettled bt es c
    → is_there c key ≡ true
    → Landed bt (c.pgno_root, root) key es (kv_moveto bt c key bias res)
fast-Landed bt h root es c key bias res o (inl v) t = absurd (cc (invalid_slow c key v))
fast-Landed bt h root es c key bias res o (inr (before, e, after, at', eq)) t =
    let asc : Ascending (before ++ e ∷ after) =
      subst Ascending eq (Node-Ascending bt h root es o.node) in
    let n = there_nil c key t in
    let sign' : lex e.0 key ≡ nil = ap (λ x. lex x.0 key) at'.entry_eq ∙ n in
    let same : e.0 ≡ key = lex_eq e.0 key sign' in
    record {
      landed = placed nil (ok, c);
      run = kv_moveto_fast bt c key bias res t;
      rc = refl;
      before = before;
      e = e;
      after = after;
      place = at';
      base = (refl, IsOpen-bottom bt h root es c o at'.is_loaded);
      whole_eq = eq;
      sign = sign';
      below = subst (λ k. Below k before) same (Ascending-Below before e after asc);
      above = subst (λ k. Above k after) same (Ascending-Above before e after asc);
    }

-- From any settled cursor.
pub settled-Landed :
    (bt : BtShared) (h : ℕ) (root : MemPage) (es : List Entry) (c : Cursor) (key : Key)
    (bias : Bool) (res : Sign)
    → IsOpen bt h root es c
    → IsSettled bt es c
    → Landed bt (c.pgno_root, root) key es (kv_moveto bt c key bias res)
settled-Landed bt h root es c key bias res o s = elim (Bool-cases (is_there c key)) [
  | inl t ↦ fast-Landed bt h root es c key bias res o s t
  | inr f ↦ kv_moveto-Landed bt h root es c key bias res o f
]

pub Landed-IsSettled :
    (bt : BtShared) (root : ℕ × MemPage) (key : Key) (es : List Entry) (r : Option Placed)
    (m : Landed bt root key es r)
    → IsSettled bt es m.landed.cursor
Landed-IsSettled bt root key es r m = inr (m.before, m.e, m.after, m.place, m.whole_eq)
