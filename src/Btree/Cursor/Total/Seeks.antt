-- ===== src/Btree/Cursor/Total/Seeks.antt =====
-- The moves to the root, and with them the seeks of src/btree.c, have a result on any pages.
use litebtree.Base.{
  ℕ, ◌<◌, ◌≡◌, refl, Bool, true, false, not, List, [], ◌∷◌, arith, length, is_ok, if◌then◌else◌, Rc,
  ok, error, nomem, corrupt, empty, done, notfound, toobig, short_read, other, ◌&&◌, inl, inr, ◌⊎◌,
  ltb, ◌==◌,
}
use mathlib.Core.Option
use litebtree.Btree.Key.{Key, Sign}
use litebtree.Btree.Page.{MemPage, n_cell}
use litebtree.Btree.Cursor.{
  BtShared, Cursor, CursorState, fault, Moved, get_and_init_page, move_to_root, settle_root,
  check_root, load_root, open_root, move_to_leftmost, move_to_rightmost, bottom, valid, invalid,
  require_seek, skip_next, clear_cursor, is_valid,
}
use litebtree.Btree.Cursor.Seek.{
  sought, seek_end, is_there, mark_last, from_root, kv_moveto, first, last, btree_last,
}
use litebtree.Btree.Cursor.Total.{
  Ends, if-Ends, not_both, IsHonest, IsFaulty, Fetch-cases, IsWithin, fetch_honest, Deeper,
  move_to_child-Deeper, leftmost_loop-Ends, rightmost_loop-Ends, descend-Ends,
}

module _ (bt : BtShared) (honest : IsHonest bt) where
  -- A move to the root fails, or the cursor is at the root, or one level below.
  record AtRoot (r : Rc × Cursor) : Type 0 where
    outcome : (is_ok r.0 ≡ false) ⊎ ((r.0 ≡ ok) × IsWithin r.1)

  fails : {r : Rc × Cursor} → is_ok r.0 ≡ false → AtRoot r
  fails h = record { outcome = inl h }

  arrives : {r : Rc × Cursor} → r.0 ≡ ok → IsWithin r.1 → AtRoot r
  arrives h w = record { outcome = inr (h, w) }

  if-AtRoot :
      (b : Bool) {x y : Rc × Cursor}
      → (b ≡ true → AtRoot x)
      → (b ≡ false → AtRoot y)
      → AtRoot (if b then x else y)
  if-AtRoot true hx hy = hx refl
  if-AtRoot false hx hy = hy refl

  Deeper-AtRoot : (c : Cursor) (r : Rc × Cursor) → Deeper bt honest c r → AtRoot r
  Deeper-AtRoot c r (inl bad) = fails bad
  Deeper-AtRoot c r (inr (good, within, deep)) = arrives good within

  settle_root-AtRoot : (c : Cursor) → c.parents ≡ [] → AtRoot (settle_root bt c)
  unfolding settle_root
  settle_root-AtRoot c top =
      let none_above : length c.parents ≡ 0 = rw top refl in
      let below : Cursor = record c {
        ix = 0;
        at_last = false;
        valid_n_key = false;
        e_state = valid;
      } in
      if-AtRoot (ltb 0 (n_cell c.page)) (λ t. arrives refl (omega arith, ground arith))
        (λ t.
          if-AtRoot c.page.leaf (λ l. fails refl)
            (λ l.
              if-AtRoot (not (c.page.pgno == 1)) (λ o. fails refl)
                (λ o.
                  Deeper-AtRoot below _ (move_to_child-Deeper bt honest below c.page.right_child))))

  check_root-AtRoot : (c : Cursor) → c.parents ≡ [] → AtRoot (check_root bt c)
  unfolding check_root
  check_root-AtRoot c top =
      if-AtRoot c.page.int_key (λ t. settle_root-AtRoot c top) (λ t. fails refl)

  load_root-AtRoot : (c : Cursor) → AtRoot (load_root bt c)
  unfolding load_root
  load_root-AtRoot c = elim (Fetch-cases (get_and_init_page bt c.pgno_root)) [
    | inl (rc, e) ↦ fails (rw (load_root, e) (fetch_honest bt honest c.pgno_root rc e))
    | inr (p, e) ↦
        rw (load_root, e)
          (check_root-AtRoot
            (record c { page = p; parents = []; loaded = true; cur_int_key = p.int_key }) refl)
  ]

  open_root-AtRoot :
      (c : Cursor) (e : CursorState)
      → (e ≡ fault → is_ok c.fault_code ≡ false)
      → AtRoot (open_root bt c e)
  unfolding open_root
  open_root-AtRoot c fault h = fails (h refl)
  open_root-AtRoot c require_seek h = load_root-AtRoot (clear_cursor c)
  open_root-AtRoot c valid h = load_root-AtRoot c
  open_root-AtRoot c invalid h = load_root-AtRoot c
  open_root-AtRoot c skip_next h = load_root-AtRoot c

  move_to_root-AtRoot : (c : Cursor) → IsFaulty c → AtRoot (move_to_root bt c)
  unfolding move_to_root
  move_to_root-AtRoot c h =
      if-AtRoot c.loaded (λ t. loaded_root c.parents refl)
        (λ t. if-AtRoot (c.pgno_root == 0) (λ z. fails refl) (λ z. open_root-AtRoot c c.e_state h))
    where
      loaded_root :
          (ps : List (MemPage × ℕ))
          → c.parents ≡ ps
          → AtRoot (elim ps [
            | [] ↦ check_root bt c
            | q ∷ qs ↦ settle_root bt (record c { page = bottom c.page c.parents; parents = [] })
          ])
      loaded_root [] e = check_root-AtRoot c e
      loaded_root (q ∷ ps) e =
          settle_root-AtRoot (record c { page = bottom c.page c.parents; parents = [] }) refl

  from_root-Ends :
      (rc : Rc) (c : Cursor) (key : Key) (bias : Bool) (res : Sign)
      → AtRoot (rc, c)
      → Ends (from_root bt (rc, c) key bias res)
  unfolding from_root
  from_root-Ends ok c key bias res h = elim h.outcome [
    | inl bad ↦ absurd (not_both bad)
    | inr (good, within) ↦ descend-Ends bt honest 20 c key bias res within (omega arith)
  ]
  from_root-Ends empty c key bias res h = (_, refl)
  from_root-Ends error c key bias res h = (_, refl)
  from_root-Ends nomem c key bias res h = (_, refl)
  from_root-Ends corrupt c key bias res h = (_, refl)
  from_root-Ends done c key bias res h = (_, refl)
  from_root-Ends notfound c key bias res h = (_, refl)
  from_root-Ends toobig c key bias res h = (_, refl)
  from_root-Ends short_read c key bias res h = (_, refl)
  from_root-Ends (other n) c key bias res h = (_, refl)

  seek_end-Ends :
      (down : Cursor → Moved) (rc : Rc) (c : Cursor) (res : Bool)
      → (length c.parents < 20 → Ends (down c))
      → AtRoot (rc, c)
      → Ends (seek_end down (rc, c) res)
  seek_end-Ends down ok c res go h = elim h.outcome [
    | inl bad ↦ absurd (not_both bad)
    | inr (good, within) ↦ let (r, run) = go within.0 in (sought false r, rw run refl)
  ]
  seek_end-Ends down empty c res go h = (_, refl)
  seek_end-Ends down error c res go h = (_, refl)
  seek_end-Ends down nomem c res go h = (_, refl)
  seek_end-Ends down corrupt c res go h = (_, refl)
  seek_end-Ends down done c res go h = (_, refl)
  seek_end-Ends down notfound c res go h = (_, refl)
  seek_end-Ends down toobig c res go h = (_, refl)
  seek_end-Ends down short_read c res go h = (_, refl)
  seek_end-Ends down (other n) c res go h = (_, refl)

  kv_moveto-Ends :
      (c : Cursor) (key : Key) (bias : Bool) (res : Sign)
      → IsFaulty c
      → Ends (kv_moveto bt c key bias res)
  unfolding kv_moveto
  kv_moveto-Ends c key bias res h =
      if-Ends (is_there c key) (_, refl)
        (from_root-Ends (move_to_root bt c).0 (move_to_root bt c).1 key bias res
          (move_to_root-AtRoot c h))

  first-Ends : (c : Cursor) (res : Bool) → IsFaulty c → Ends (first bt c res)
  unfolding first move_to_leftmost
  first-Ends c res h =
      seek_end-Ends (move_to_leftmost bt) (move_to_root bt c).0 (move_to_root bt c).1 res
        (λ l. leftmost_loop-Ends bt honest 20 (move_to_root bt c).1 l (omega arith))
        (move_to_root-AtRoot c h)

  last-Ends : (c : Cursor) (res : Bool) → IsFaulty c → Ends (last bt c res)
  unfolding last btree_last move_to_rightmost
  last-Ends c res h =
      if-Ends (is_valid c.e_state && c.at_last) (_, refl)
        (seek_end-Ends (λ c'. Option.map mark_last (move_to_rightmost bt c')) (move_to_root bt c).0
          (move_to_root bt c).1 res
          (λ l.
            let (r, run) = rightmost_loop-Ends bt honest 20 (move_to_root bt c).1 l (omega arith) in
            (mark_last r, rw run refl))
          (move_to_root-AtRoot c h))

-- On any pages, when a fetch that fails has an error code, and from any cursor that has one in the
-- state CURSOR_FAULT, the seeks to a key, to the first and to the last entry have a result: they
-- never go down more than 20 levels.
pub seeks-End :
    (bt : BtShared) (c : Cursor) (key : Key) (bias : Bool) (sign : Sign) (res : Bool)
    → IsHonest bt
    → IsFaulty c
    → Ends (kv_moveto bt c key bias sign) × Ends (first bt c res) × Ends (last bt c res)
seeks-End bt c key bias sign res honest faulty = (
  kv_moveto-Ends bt honest c key bias sign faulty,
  first-Ends bt honest c res faulty,
  last-Ends bt honest c res faulty,
)
