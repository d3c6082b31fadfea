-- ===== src/Btree/Tree/Lookup.antt =====
-- sqlite3BtreeKvMoveto as a lookup in the map that the tree stores.
use litebtree.Base.{
  ℕ, ◌≡◌, refl, ap, ◌∙◌, sym, false, Bool, Option, none, some, List, [], ◌∷◌, ◌++◌, ok, inr,
}
use litebtree.Btree.Cursor.Seek.{Placed, is_there, kv_moveto}
use litebtree.Btree.Cursor.{BtShared, Cursor}
use litebtree.Btree.Key.{Key, Sign, neg, nil, pos, lex}
use litebtree.Btree.Page.{MemPage, find_cell}
use litebtree.Btree.Tree.Descend.{Landed}
use litebtree.Btree.Tree.Moveto.{IsOpen, kv_moveto-Landed}
use litebtree.Btree.Tree.{Entry, Below, Above}

-- The contents as a map: the value under a key.
unfoldable pub lookup : Key → List Entry → Option (List ℕ)
lookup key [] = none
lookup key (e ∷ es) = elim (lex e.0 key) [ nil ↦ some e.1 | _ ↦ lookup key es ]

pub lookup-Below :
    (key : Key) (es rest : List Entry) → Below key es → lookup key (es ++ rest) ≡ lookup key rest
unfolding lookup
lookup-Below key [] rest h = refl
lookup-Below key (e ∷ es) rest h = rw (lookup, h.0, lookup-Below key es rest h.1)

lookup-Above : (key : Key) (es : List Entry) → Above key es → lookup key es ≡ none
unfolding lookup
lookup-Above key [] h = refl
lookup-Above key (e ∷ es) h = rw (lookup, h.0, lookup-Above key es h.1)

-- A value that counts only if the comparison was equal.
abbrev pub hit : Sign → List ℕ → Option (List ℕ)
hit nil v = some v
hit _ v = none

-- What the map holds under the key, by the sign that *pRes reports: the value of the entry at the
-- cursor, or nothing.
abbrev pub answer : Placed → Option (List ℕ)
answer r = hit r.res (find_cell r.cursor.page r.cursor.ix).value

answer_at :
    (key : Key) (e : Entry) (after : List Entry) (s : Sign)
    → lex e.0 key ≡ s
    → Above key after
    → lookup key (e ∷ after) ≡ hit s e.1
unfolding lookup
answer_at key e after neg h a = rw (lookup, h, lookup-Above key after a)
answer_at key e after nil h a = rw (lookup, h)
answer_at key e after pos h a = rw (lookup, h, lookup-Above key after a)

pub Landed-answer :
    (bt : BtShared) (root : ℕ × MemPage) (key : Key) (es : List Entry) (r : Option Placed)
    (m : Landed bt root key es r)
    → answer m.landed ≡ lookup key es
Landed-answer bt root key es r m = sym (
    ap (lookup key) m.whole_eq
    ∙ lookup-Below key m.before _ m.below
    ∙ answer_at key m.e m.after m.landed.res m.sign m.above
    ∙ ap (λ x. hit m.landed.res x.1) m.place.entry_eq)

pub Landed-IsOpen :
    (bt : BtShared) (h : ℕ) (root : MemPage) (key : Key) (es : List Entry) (c : Cursor)
    (r : Option Placed)
    → IsOpen bt h root es c
    → (m : Landed bt (c.pgno_root, root) key es r) → IsOpen bt h root es m.landed.cursor
Landed-IsOpen bt h root key es c r o m = record {
  numbered = rw m.base.0 o.numbered;
  got = rw m.base.0 o.got;
  node = o.node;
  height = o.height;
  ready = inr (m.place.is_loaded, m.base.1, m.place.int_key);
}

-- On a well-formed tree lower than 20 levels, from an open cursor that is off the fast path,
-- sqlite3BtreeKvMoveto ends with SQLITE_OK; its *pRes with the value at the cursor is the value
-- that the contents hold under the key, or nothing; and the cursor is still open on the tree.
pub kv_moveto-lookup :
    (bt : BtShared) (h : ℕ) (root : MemPage) (es : List Entry) (c : Cursor) (key : Key)
    (bias : Bool) (res : Sign)
    → IsOpen bt h root es c
    → is_there c key ≡ false
    → (r : Placed) × (kv_moveto bt c key bias res ≡ some r)
      × (r.rc ≡ ok)
      × (answer r ≡ lookup key es)
      × IsOpen bt h root es r.cursor
kv_moveto-lookup bt h root es c key bias res o slow =
    let m = kv_moveto-Landed bt h root es c key bias res o slow in
    (
      m.landed,
      m.run,
      m.rc,
      Landed-answer bt (c.pgno_root, root) key es _ m,
      Landed-IsOpen bt h root key es c _ o m,
    )
