-- ===== src/Btree/Cursor/Total.antt =====
-- The seeks of src/btree.c end on any pages, cyclic and corrupt ones included, since moveToChild
-- refuses to go deeper than BTCURSOR_MAX_DEPTH.
pub mod Seeks
use litebtree.Base.{
  ℕ, zero, suc, ◌+◌, ◌-◌, ◌/◌, ◌≤◌, ◌<◌, ◌≡◌, ◌≢◌, refl, Bool, true, false, not, Bool-cases, Option,
  none, some, List, [], ◌∷◌, arith, leb, length, is_ok, if◌then◌else◌, Rc, ok, error, nomem,
  corrupt, empty, done, notfound, toobig, short_read, other, ◌&&◌, inl, inr, ◌⊎◌, ltb, ◌||◌, ◌==◌,
}
use mathlib.Core.Bool.{xor}
use mathlib.Core.Option
use litebtree.Btree.Key.{Key, Sign, Sign-cases, kv_key_compare, neg, pos, nil}
use litebtree.Btree.Page.{
  MemPage, Found, exact, miss, stuck, n_cell, key_at, find_cell, search_loop, search_page,
}
use litebtree.Btree.Cursor.{
  BtShared, Cursor, CursorState, fault, Fetch, fetched, failed, Moved, get_and_init_page,
  move_to_child, move_to_root, settle_root, check_root, load_root, open_root, leftmost_loop,
  rightmost_loop, move_to_leftmost, move_to_rightmost, bottom, on_ok, valid, invalid, require_seek,
  skip_next, max_depth, clear_cursor, is_valid,
}
use litebtree.Btree.Cursor.Seek.{
  Placed, Sought, child_at, placed, sought, seek_end, is_there, mark_last, next_layer, act_on,
  descend, from_root, kv_moveto, first, last, btree_last,
}

-- A call that has a result.
abbrev pub Ends {ℓ} : {A : Type ℓ} → Option A → Type ℓ
Ends {A = A} o = (r : A) × (o ≡ some r)

if-Ends {ℓ} : {A : Type ℓ} (b : Bool) {x y : Option A} → Ends x → Ends y → Ends (if b then x else y)
if-Ends true hx hy = hx
if-Ends false hx hy = hy

not_both : is_ok ok ≡ false → ⊥
not_both h = cc

-- A fetch that fails has an error code.
abbrev pub IsHonest : BtShared → Type 0
IsHonest bt = (n : ℕ) (rc : Rc) → bt.page n ≡ failed rc → is_ok rc ≡ false

-- A cursor in the state CURSOR_FAULT has an error code.
abbrev pub IsFaulty : Cursor → Type 0
IsFaulty c = c.e_state ≡ fault → is_ok c.fault_code ≡ false

-- The search ends on keys in any order.
search_loop-ends :
    (fuel : ℕ) (p : MemPage) (key : Key) (lwr hi idx : ℕ)
    → lwr ≤ idx
    → idx < hi
    → hi ≤ lwr + fuel
    → search_loop fuel p key lwr hi idx ≢ stuck
unfolding search_loop
search_loop-ends zero p key lwr hi idx a b c e = omega arith
search_loop-ends (suc fuel) p key lwr hi idx a b c e =
    elim (Sign-cases (kv_key_compare (key_at p idx) key)) [
      | inl n ↦
          (let rest = search_loop-ends fuel p key (idx + 1) hi ((idx + 1 + hi - 1) / 2) in
            ground (arith, rest, n))
      | inr (inl n) ↦ ground (arith, n)
      | inr (inr n) ↦
          (let rest = search_loop-ends fuel p key lwr idx ((lwr + idx - 1) / 2) in
            ground (arith, rest, n))
    ]

search_page-ends :
    (p : MemPage) (key : Key) (bias : Bool) → 0 < n_cell p → search_page p key bias ≢ stuck
unfolding search_page
search_page-ends p key true h =
    search_loop-ends (n_cell p) p key 0 (n_cell p) _ (omega arith) (omega arith) (omega arith)
search_page-ends p key false h =
    search_loop-ends (n_cell p) p key 0 (n_cell p) _ (omega arith) (omega arith) (omega arith)

Fetch-cases : (f : Fetch) → ((rc : Rc) × (f ≡ failed rc)) ⊎ ((p : MemPage) × (f ≡ fetched p))
Fetch-cases (failed rc) = inl (rc, refl)
Fetch-cases (fetched p) = inr (p, refl)

-- Where a move that succeeds may leave the cursor.
abbrev IsWithin : Cursor → Type 0
IsWithin c = (length c.parents < 20) × (0 < n_cell c.page)

module _ (bt : BtShared) (honest : IsHonest bt) where
  fetch_honest : (n : ℕ) (rc : Rc) → get_and_init_page bt n ≡ failed rc → is_ok rc ≡ false
  unfolding get_and_init_page
  fetch_honest n rc e = elim (Bool-cases (ltb bt.n_page n)) [
    | inl t ↦ ground arith
    | inr t ↦ ground (arith, honest n rc)
  ]

  -- A move fails, or the cursor is one level deeper.
  abbrev Deeper : Cursor → Rc × Cursor → Type 0
  Deeper c r =
      (is_ok r.0 ≡ false)
      ⊎ ((r.0 ≡ ok) × IsWithin r.1 × (length r.1.parents ≡ suc (length c.parents)))

  move_to_child-Deeper : (c : Cursor) (pgno : ℕ) → Deeper c (move_to_child bt c pgno)
  unfolding move_to_child
  move_to_child-Deeper c pgno = elim (Bool-cases (leb 19 (length c.parents))) [
    | inl l ↦ inl (rw l refl)
    | inr l ↦ elim (Fetch-cases (get_and_init_page bt pgno)) [
      | inl (rc, e) ↦ inl (rw (l, e) (fetch_honest pgno rc e))
      | inr (p, e) ↦ elim (Bool-cases (ltb (n_cell p) 1 || xor p.int_key c.cur_int_key)) [
        | inl t ↦ inl (rw (l, e, t) refl)
        | inr t ↦ inr (rw (l, e, t) (refl, (ground arith, ground arith), refl))
      ]
    ]
  ]

  -- What goes on behind a move ends when it ends one level deeper.
  on_ok-Ends :
      (c : Cursor) (r : Rc × Cursor) (k : Cursor → Moved)
      → Deeper c r
      → (IsWithin r.1 → length r.1.parents ≡ suc (length c.parents) → Ends (k r.1))
      → Ends (on_ok r k)
  on_ok-Ends c r k (inl bad) next = (r, rw bad refl)
  on_ok-Ends c r k (inr (good, within, deep)) next =
      let (r', run) = next within deep in (r', rw good run)

  leftmost_loop-Ends :
      (fuel : ℕ) (c : Cursor)
      → length c.parents < 20
      → 20 ≤ fuel + length c.parents
      → Ends (leftmost_loop fuel bt c)
  unfolding leftmost_loop
  leftmost_loop-Ends zero c within enough = absurd (omega arith)
  leftmost_loop-Ends (suc fuel) c within enough =
      let r = move_to_child bt c (find_cell c.page c.ix).child in
      if-Ends c.page.leaf ((ok, c), refl)
        (on_ok-Ends c r (λ c'. leftmost_loop fuel bt c')
          (move_to_child-Deeper c (find_cell c.page c.ix).child)
          (λ w d. leftmost_loop-Ends fuel r.1 w.0 (omega arith)))

  rightmost_loop-Ends :
      (fuel : ℕ) (c : Cursor)
      → length c.parents < 20
      → 20 ≤ fuel + length c.parents
      → Ends (rightmost_loop fuel bt c)
  unfolding rightmost_loop
  rightmost_loop-Ends zero c within enough = absurd (omega arith)
  rightmost_loop-Ends (suc fuel) c within enough =
      let c' : Cursor = record c { ix = n_cell c.page } in
      let r = move_to_child bt c' c.page.right_child in
      if-Ends c.page.leaf (_, refl)
        (on_ok-Ends c' r (λ c''. rightmost_loop fuel bt c'')
          (move_to_child-Deeper c' c.page.right_child)
          (λ w d. rightmost_loop-Ends fuel r.1 w.0 (omega arith)))

  next_layer-Ends :
      (go : Cursor → Option Placed) (c : Cursor) (lwr : ℕ) (res : Sign)
      → ((c' : Cursor) → IsWithin c' → length c'.parents ≡ suc (length c.parents) → Ends (go c'))
      → Ends (next_layer go bt c lwr res)
  unfolding next_layer
  next_layer-Ends go c lwr res next =
      let c₁ : Cursor = record c { ix = lwr } in
      elim (move_to_child-Deeper c₁ (child_at c.page lwr)) [
        | inl bad ↦ (placed res (move_to_child bt c₁ (child_at c.page lwr)), rw bad refl)
        | inr (good, within, deep) ↦
            let (r, run) = next (move_to_child bt c₁ (child_at c.page lwr)).1 within deep in
            (r, rw good run)
      ]

  act_on-Ends :
      (go : Cursor → Option Placed) (c : Cursor) (res : Sign) (f : Found)
      → f ≢ stuck
      → ((c' : Cursor) → IsWithin c' → length c'.parents ≡ suc (length c.parents) → Ends (go c'))
      → Ends (act_on go bt c res f)
  unfolding act_on
  act_on-Ends go c res (exact idx) h next =
      if-Ends c.page.leaf (_, refl) (next_layer-Ends go (record c { ix = idx }) idx res next)
  act_on-Ends go c res (miss lwr idx s) h next =
      if-Ends c.page.leaf (_, refl) (next_layer-Ends go c lwr res next)
  act_on-Ends go c res stuck h next = absurd (h refl)

  descend-Ends :
      (fuel : ℕ) (c : Cursor) (key : Key) (bias : Bool) (res : Sign)
      → IsWithin c
      → 20 ≤ fuel + length c.parents
      → Ends (descend fuel bt c key bias res)
  unfolding descend
  descend-Ends zero c key bias res within enough = let l = within.0 in absurd (omega arith)
  descend-Ends (suc fuel) c key bias res within enough =
      act_on-Ends (λ c'. descend fuel bt c' key bias res) c res (search_page c.page key bias)
        (search_page-ends c.page key bias within.1)
        (λ c' w d. descend-Ends fuel c' key bias res w (omega arith))
