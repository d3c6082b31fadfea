-- ===== src/Btree/Cursor/Step.antt =====
-- sqlite3BtreeNext and sqlite3BtreePrevious of src/btree.c, with their slow halves btreeNext and
-- btreePrevious. The two call one another; each such call follows a step up to a parent.
use litebtree.Base.{
  ℕ, zero, suc, ◌+◌, ◌-◌, Bool, true, false, not, ◌&&◌, ◌||◌, ◌==◌, none, some, List, [], ◌∷◌, leb,
  if◌then◌else◌, ok, done, ◌⊎◌, inl, inr,
}
use litebtree.Btree.Key.{Sign, neg, pos}
use litebtree.Btree.Page.{MemPage, n_cell, find_cell}
use litebtree.Btree.Cursor.Seek.{restore_cursor_position}
use litebtree.Btree.Cursor.{
  BtShared, Cursor, valid, invalid, skip_next, Moved, on_ok, is_valid, move_to_child,
  move_to_leftmost, move_to_rightmost,
}

-- moveToParent. It is called only where there is a parent.
unfoldable pub move_to_parent : Cursor → Cursor
move_to_parent c = elim c.parents [
  | [] ↦ c
  | (p, i) ∷ ps ↦ record c { valid_n_key = false; page = p; ix = i; parents = ps }
]

-- The do loop of btreeNext: up, until a page has a cell to the right; `none` at the root.
unfoldable pub climb_next : List (MemPage × ℕ) → Cursor → Cursor ⊎ Cursor
climb_next [] c = inl c
climb_next (q ∷ ps) c =
    let up = move_to_parent c in
    let rest = climb_next ps up in if leb (n_cell up.page) up.ix then rest else inr up

-- The while loop of btreePrevious: up, until the index is not 0.
unfoldable pub climb_previous : List (MemPage × ℕ) → Cursor → Cursor ⊎ Cursor
climb_previous [] c = if c.ix == 0 then inl c else inr c
climb_previous (q ∷ ps) c =
    let rest = climb_previous ps (move_to_parent c) in if c.ix == 0 then rest else inr c

abbrev pub ran_off : Cursor → Moved
ran_off c = some (done, record c { e_state = invalid })

-- The part of btreeNext behind the restore: the index is raised first.
unfoldable pub advance : (Cursor → Moved) → BtShared → Cursor → Moved
unfolding climb_next
advance next bt c₀ =
    let c = record c₀ { ix = c₀.ix + 1 } in
    if leb (n_cell c.page) c.ix
    then if not c.page.leaf
      then on_ok (move_to_child bt c c.page.right_child) (λ c'. move_to_leftmost bt c')
      else elim (climb_next c.parents c) [
        | inl c' ↦ ran_off c'
        | inr c' ↦ if c'.page.int_key then next c' else some (ok, c')
      ]
    else if c.page.leaf
    then some (ok, c)
    else move_to_leftmost bt c

unfoldable pub retreat : (Cursor → Moved) → BtShared → Cursor → Moved
unfolding climb_previous
retreat previous bt c =
    if not c.page.leaf
    then on_ok (move_to_child bt c (find_cell c.page c.ix).child) (λ c'. move_to_rightmost bt c')
    else elim (climb_previous c.parents c) [
      | inl c' ↦ ran_off c'
      | inr c' ↦
          let c'' = record c' { ix = c'.ix - 1 } in
          if c''.page.int_key && not c''.page.leaf then previous c'' else some (ok, c'')
    ]

-- What follows a restore. In the state CURSOR_SKIPNEXT a step in the direction of `skip` is done.
abbrev pub resume : (Cursor → Moved) → (Sign → Bool) → Cursor → Moved
resume go skips c = elim c.e_state [
  | invalid ↦ some (done, c)
  | skip_next ↦
      let c' = record c { e_state = valid } in if skips c.skip then some (ok, c') else go c'
  | _ ↦ go c
]

abbrev pub restore_then : BtShared → (Cursor → Moved) → (Sign → Bool) → Cursor → Moved
restore_then bt go skips c =
    if is_valid c.e_state
    then go c
    else elim (restore_cursor_position bt c) [ none ↦ none | some r ↦ on_ok r (resume go skips) ]

abbrev pub is_pos : Sign → Bool
is_pos pos = true
is_pos _ = false

abbrev pub is_neg : Sign → Bool
is_neg neg = true
is_neg _ = false

unfoldable pub btree_next : (Cursor → Moved) → BtShared → Cursor → Moved
unfolding advance
btree_next next bt c = restore_then bt (λ c'. advance next bt c') is_pos c

unfoldable pub next_loop : ℕ → BtShared → Cursor → Moved
unfolding btree_next
next_loop zero bt c₀ = none
next_loop (suc fuel) bt c₀ =
    let c = record c₀ { valid_n_key = false } in
    let slow = btree_next (next_loop fuel bt) bt c in
    if not (is_valid c.e_state)
    then slow
    else if leb (n_cell c.page) (c.ix + 1)
    then slow
    else if c.page.leaf
    then some (ok, record c { ix = c.ix + 1 })
    else move_to_leftmost bt (record c { ix = c.ix + 1 })

unfoldable pub btree_previous : (Cursor → Moved) → BtShared → Cursor → Moved
unfolding retreat
btree_previous previous bt c = restore_then bt (λ c'. retreat previous bt c') is_neg c

unfoldable pub previous_loop : ℕ → BtShared → Cursor → Moved
unfolding btree_previous
previous_loop zero bt c₀ = none
previous_loop (suc fuel) bt c₀ =
    let c = record c₀ { valid_n_key = false; at_last = false } in
    let slow = btree_previous (previous_loop fuel bt) bt c in
    if not (is_valid c.e_state) || (c.ix == 0 || not c.page.leaf)
    then slow
    else some (ok, record c { ix = c.ix - 1 })

-- A call within a call stands at least one level higher, so a call for each level is enough.
abbrev pub step_fuel : ℕ
step_fuel = 22

unfoldable pub next : BtShared → Cursor → Moved
unfolding next_loop
next bt c = next_loop step_fuel bt c

unfoldable pub previous : BtShared → Cursor → Moved
unfolding previous_loop
previous bt c = previous_loop step_fuel bt c
