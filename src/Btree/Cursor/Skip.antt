-- ===== src/Btree/Cursor/Skip.antt =====
-- A moveto (src/btree.c) does not touch skipNext.
use litebtree.Base.{
  ℕ, zero, suc, ◌≡◌, refl, ◌∙◌, true, false, Bool, Option, none, some, [], arith, Rc, ok, error,
  nomem, corrupt, empty, done, notfound, toobig, short_read, other, is_ok, if◌then◌else◌,
}
use litebtree.Btree.Cursor.Seek.{
  Placed, kv_moveto, from_root, descend, act_on, next_layer, child_at, is_there,
}
use litebtree.Btree.Cursor.{
  BtShared, Cursor, CursorState, valid, invalid, skip_next, require_seek, fault, max_depth,
  move_to_child, settle_root, check_root, load_root, open_root, move_to_root, clear_cursor, bottom,
}
use litebtree.Btree.Key.{Key, Sign}
use litebtree.Btree.Page.{Found, exact, miss, stuck, search_page}

move_to_child-skip : (bt : BtShared) (c : Cursor) (n : ℕ) → (move_to_child bt c n).1.skip ≡ c.skip
unfolding move_to_child
move_to_child-skip bt c n = ground arith

settle_root-skip : (bt : BtShared) (c : Cursor) → (settle_root bt c).1.skip ≡ c.skip
unfolding settle_root
settle_root-skip bt c = ground (
  arith,
  move_to_child-skip bt (record c { ix = 0; at_last = false; valid_n_key = false; e_state = valid })
      c.page.right_child,
)

check_root-skip : (bt : BtShared) (c : Cursor) → (check_root bt c).1.skip ≡ c.skip
unfolding check_root
check_root-skip bt c = ground (arith, settle_root-skip bt c)

load_root-skip : (bt : BtShared) (c : Cursor) → (load_root bt c).1.skip ≡ c.skip
unfolding load_root
load_root-skip bt c = ground (arith, check_root-skip bt)

open_root-skip : (bt : BtShared) (c : Cursor) (s : CursorState) → (open_root bt c s).1.skip ≡ c.skip
unfolding open_root
open_root-skip bt c fault = refl
open_root-skip bt c require_seek = load_root-skip bt (clear_cursor c)
open_root-skip bt c valid = load_root-skip bt c
open_root-skip bt c invalid = load_root-skip bt c
open_root-skip bt c skip_next = load_root-skip bt c

move_to_root-skip : (bt : BtShared) (c : Cursor) → (move_to_root bt c).1.skip ≡ c.skip
unfolding move_to_root
move_to_root-skip bt c = ground (
  arith,
  open_root-skip bt c c.e_state,
  check_root-skip bt c,
  settle_root-skip bt (record c { page = bottom c.page c.parents; parents = [] }),
)

-- The result, if there is one, has this skipNext.
abbrev pub Keeps : Sign → Option Placed → Type 0
Keeps s none = Unit {0}
Keeps s (some r) = r.cursor.skip ≡ s

Keeps-if :
    (s : Sign) (b : Bool) (x y : Option Placed)
    → Keeps s x
    → Keeps s y
    → Keeps s (if b then x else y)
Keeps-if s true x y h k = h
Keeps-if s false x y h k = k

next_layer-Keeps :
    (go : Cursor → Option Placed) (bt : BtShared) (c : Cursor) (lwr : ℕ) (res s : Sign)
    → ((d : Cursor) → d.skip ≡ s → Keeps s (go d))
    → c.skip ≡ s
    → Keeps s (next_layer go bt c lwr res)
unfolding next_layer
next_layer-Keeps go bt c lwr res s k h =
    let r = move_to_child bt (record c { ix = lwr }) (child_at c.page lwr) in
    let m : r.1.skip ≡ s = move_to_child-skip bt _ _ ∙ h in Keeps-if s (is_ok r.0) _ _ (k r.1 m) m

act_on-Keeps :
    (go : Cursor → Option Placed) (bt : BtShared) (c : Cursor) (res s : Sign) (f : Found)
    → ((d : Cursor) → d.skip ≡ s → Keeps s (go d))
    → c.skip ≡ s
    → Keeps s (act_on go bt c res f)
unfolding act_on
act_on-Keeps go bt c res s (exact idx) k h =
    Keeps-if s c.page.leaf _ _ h (next_layer-Keeps go bt (record c { ix = idx }) idx res s k h)
act_on-Keeps go bt c res s (miss lwr idx x) k h =
    Keeps-if s c.page.leaf _ _ h (next_layer-Keeps go bt c lwr res s k h)
act_on-Keeps go bt c res s stuck k h = tt

descend-Keeps :
    (fuel : ℕ) (bt : BtShared) (c : Cursor) (key : Key) (bias : Bool) (res s : Sign)
    → c.skip ≡ s
    → Keeps s (descend fuel bt c key bias res)
unfolding descend
descend-Keeps zero bt c key bias res s h = tt
descend-Keeps (suc fuel) bt c key bias res s h =
    act_on-Keeps _ bt c res s (search_page c.page key bias)
      (λ d e. descend-Keeps fuel bt d key bias res s e) h

from_root-Keeps :
    (bt : BtShared) (rc : Rc) (c : Cursor) (key : Key) (bias : Bool) (res s : Sign)
    → c.skip ≡ s
    → Keeps s (from_root bt (rc, c) key bias res)
unfolding from_root
from_root-Keeps bt ok c key bias res s h = descend-Keeps max_depth bt c key bias res s h
from_root-Keeps bt empty c key bias res s h = h
from_root-Keeps bt error c key bias res s h = h
from_root-Keeps bt nomem c key bias res s h = h
from_root-Keeps bt corrupt c key bias res s h = h
from_root-Keeps bt done c key bias res s h = h
from_root-Keeps bt notfound c key bias res s h = h
from_root-Keeps bt toobig c key bias res s h = h
from_root-Keeps bt short_read c key bias res s h = h
from_root-Keeps bt (other n) c key bias res s h = h

pub kv_moveto-Keeps :
    (bt : BtShared) (c : Cursor) (key : Key) (bias : Bool) (res : Sign)
    → Keeps c.skip (kv_moveto bt c key bias res)
unfolding kv_moveto
kv_moveto-Keeps bt c key bias res = Keeps-if c.skip (is_there c key) _ _ refl (
    from_root-Keeps bt (move_to_root bt c).0 (move_to_root bt c).1 key bias res c.skip
      (move_to_root-skip bt c))
