-- ===== src/Btree/Tree/Moveto.antt =====
-- sqlite3BtreeKvMoveto on a whole tree: from any cursor that is open on it, the seek ends on a
-- neighbour of the key, and it tells whether the key is stored.
use litebtree.Base.{
  ℕ, ◌+◌, ◌<◌, ◌≡◌, ◌≢◌, refl, ap, ◌∙◌, sym, subst, true, false, Bool, List, [], ◌∷◌, length, arith,
  ok, Rc, ◌⊎◌, inl, inr,
}
use litebtree.Btree.Cursor.Seek.{is_there, from_root, kv_moveto, descend}
use litebtree.Btree.Cursor.{
  BtShared, Cursor, CursorState, valid, invalid, skip_next, require_seek, fault, fetched, bottom,
  max_depth, clear_cursor, get_and_init_page, settle_root, check_root, load_root, open_root,
  move_to_root,
}
use litebtree.Btree.Key.{Key, Sign}
use litebtree.Btree.Page.{MemPage, n_cell}
use litebtree.Btree.Tree.Descend.{Landed, Node-IsFit, descend-Landed}
use litebtree.Btree.Tree.{Entry, Node, Ancestors, IsFit}
use mathlib.Core.List.{append-nil}

-- The pages of the cursor are dropped, or its root page is the root of the tree.
abbrev pub IsReady : MemPage → Cursor → Type 0
IsReady root c =
    ((c.loaded ≡ false) × (c.e_state ≢ fault))
    ⊎ ((c.loaded ≡ true) × (bottom c.page c.parents ≡ root) × (c.cur_int_key ≡ true))

-- The cursor is open on a tree that stores the entries, wherever it stands in it.
pub record IsOpen (bt : BtShared) (h : ℕ) (root : MemPage) (es : List Entry) (c : Cursor)
    : Type 0 where
  pub numbered : c.pgno_root ≢ 0
  pub got : get_and_init_page bt c.pgno_root ≡ fetched root
  pub node : Node bt h root es
  pub height : h < 20
  pub ready : IsReady root c

-- The cursor at the root, as moveToRoot leaves it.
abbrev at_root : Cursor → MemPage → Cursor
at_root c root = record c {
  e_state = valid;
  loaded = true;
  cur_int_key = true;
  page = root;
  parents = [];
  ix = 0;
  at_last = false;
  valid_n_key = false;
}

settle_root_lem :
    (bt : BtShared) (c : Cursor)
    → 0 < n_cell c.page
    → settle_root bt c
      ≡ (ok, record c { ix = 0; at_last = false; valid_n_key = false; e_state = valid })
unfolding settle_root
settle_root_lem bt c h = ground arith

check_root_lem :
    (bt : BtShared) (c : Cursor)
    → IsFit c.page
    → check_root bt c
      ≡ (ok, record c { ix = 0; at_last = false; valid_n_key = false; e_state = valid })
unfolding check_root
check_root_lem bt c f = ground (arith, settle_root_lem bt c f.1)

load_root_lem :
    (bt : BtShared) (c : Cursor) (root : MemPage)
    → get_and_init_page bt c.pgno_root ≡ fetched root
    → IsFit root
    → load_root bt c ≡ (ok, at_root c root)
unfolding load_root
load_root_lem bt c root got f =
    let d = record c { page = root; parents = []; loaded = true; cur_int_key = root.int_key } in
    rw (load_root, got)
      (check_root_lem bt d f ∙ ap (λ k. (ok, record (at_root c root) { cur_int_key = k })) f.0)

open_root_lem :
    (bt : BtShared) (c : Cursor) (root : MemPage) (s : CursorState)
    → s ≢ fault
    → get_and_init_page bt c.pgno_root ≡ fetched root
    → IsFit root
    → (d : Cursor) × (open_root bt c s ≡ (ok, at_root d root)) × (d.pgno_root ≡ c.pgno_root)
unfolding open_root
open_root_lem bt c root valid n got f = (c, load_root_lem bt c root got f, refl)
open_root_lem bt c root invalid n got f = (c, load_root_lem bt c root got f, refl)
open_root_lem bt c root skip_next n got f = (c, load_root_lem bt c root got f, refl)
open_root_lem bt c root require_seek n got f =
    (clear_cursor c, load_root_lem bt (clear_cursor c) root got f, refl)
open_root_lem bt c root fault n got f = absurd (n refl)

-- The state before the search: at the root page, in the state CURSOR_VALID.
pub record AtRoot (bt : BtShared) (c : Cursor) (root : MemPage) : Type 0 where
  pub there : Cursor
  pub run : move_to_root bt c ≡ (ok, there)
  pub page : there.page ≡ root
  pub parents : there.parents ≡ []
  pub is_valid : there.e_state ≡ valid
  pub is_loaded : there.loaded ≡ true
  pub int_key : there.cur_int_key ≡ true
  pub index : there.ix ≡ 0
  pub number : there.pgno_root ≡ c.pgno_root

placed_root :
    (bt : BtShared) (c : Cursor) (root : MemPage) (ps : List (MemPage × ℕ))
    → c.parents ≡ ps
    → c.loaded ≡ true
    → bottom c.page c.parents ≡ root
    → c.cur_int_key ≡ true
    → IsFit root
    → AtRoot bt c root
unfolding move_to_root
placed_root bt c root [] none_above l b k f =
    let here : c.page ≡ root = subst (λ ps. bottom c.page ps ≡ root) none_above b in
    record {
      there = record c { ix = 0; at_last = false; valid_n_key = false; e_state = valid };
      run = ground (arith, check_root_lem bt c (subst IsFit (sym here) f));
      page = here;
      parents = none_above;
      is_valid = refl;
      is_loaded = l;
      int_key = k;
      index = refl;
      number = refl;
    }
placed_root bt c root (q ∷ ps) above l b k f = record {
  there = at_root c root;
  run = ground (
    arith,
    settle_root_lem bt (record c { page = bottom c.page c.parents; parents = [] })
        (subst (λ p. 0 < n_cell p) (sym b) f.1),
  );
  page = refl;
  parents = refl;
  is_valid = refl;
  is_loaded = refl;
  int_key = refl;
  index = refl;
  number = refl;
}

pub open_root_run :
    (bt : BtShared) (h : ℕ) (root : MemPage) (es : List Entry) (c : Cursor)
    → IsOpen bt h root es c
    → AtRoot bt c root
unfolding move_to_root
open_root_run bt h root es c o = elim o.ready [
  | inl (l, n) ↦
      let (d, run, number) =
        open_root_lem bt c root c.e_state n o.got (Node-IsFit bt h root es o.node) in
      record {
        there = at_root d root;
        run = ground (arith, o.numbered);
        page = refl;
        parents = refl;
        is_valid = refl;
        is_loaded = refl;
        int_key = refl;
        index = refl;
        number = number;
      }
  | inr (l, b, k) ↦ placed_root bt c root c.parents refl l b k (Node-IsFit bt h root es o.node)
]

from_root_lem :
    (bt : BtShared) (r : Rc × Cursor) (c : Cursor) (key : Key) (bias : Bool) (res : Sign)
    → r ≡ (ok, c)
    → from_root bt r key bias res ≡ descend max_depth bt c key bias res
unfolding from_root
from_root_lem bt r c key bias res e = rw e

-- On an open cursor, off the fast path, the seek succeeds and lands on a neighbour of the key.
pub kv_moveto-Landed :
    (bt : BtShared) (h : ℕ) (root : MemPage) (es : List Entry) (c : Cursor) (key : Key)
    (bias : Bool) (res : Sign)
    → IsOpen bt h root es c
    → is_there c key ≡ false
    → Landed bt (c.pgno_root, root) key es (kv_moveto bt c key bias res)
unfolding kv_moveto
kv_moveto-Landed bt h root es c key bias res o slow =
    let a = open_root_run bt h root es c o in
    let d = a.there in
    rw (slow, from_root_lem bt _ d key bias res a.run)
      (descend-Landed bt (c.pgno_root, root) key es h 19 d es [] [] bias res
        (omega (arith, o.height))
        (record {
          node = subst (λ p. Node bt h p es) (sym a.page) o.node;
          is_valid = a.is_valid;
          is_loaded = a.is_loaded;
          int_key = a.int_key;
          depth = subst (λ ps. length ps + h < 20) (sym a.parents) (omega (arith, o.height));
          base = (a.number, subst (λ ps. bottom d.page ps ≡ root) (sym a.parents) a.page);
          path = subst (λ ps. Ancestors bt h ps es [] []) (sym a.parents) (refl, refl);
          below = tt;
          above = tt;
          whole_eq = sym (append-nil es);
        }))
