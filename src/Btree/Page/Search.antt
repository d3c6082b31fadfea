-- ===== src/Btree/Page/Search.antt =====
-- The binary search within a page ends, and finds the place of the key (src/btree.c,
-- sqlite3BtreeKvMoveto).
use litebtree.Base.{
  ℕ, zero, suc, ◌+◌, ◌-◌, ◌/◌, ◌≤◌, ◌<◌, ◌≡◌, refl, Bool, true, false, arith, leb, inl, inr,
  Bool-cases, dec_lt,
}
use litebtree.Btree.Key.{
  Key, neg, nil, pos, kv_key_compare-lex, lex, lex_trans, lex_trans_pos, lex_eq, lex_neg,
  Sign-cases,
}
use litebtree.Btree.Page.{
  MemPage, Found, exact, miss, stuck, n_cell, key_at, search_loop, search_page,
}

-- The keys of a page ascend strictly.
abbrev pub IsSorted : MemPage → Type 0
IsSorted p = (i j : ℕ) → i < j → j < n_cell p → lex (key_at p i) (key_at p j) ≡ neg

-- Every cell below `lwr` is smaller than the key, and every cell from `hi` on is greater.
abbrev pub Splits : MemPage → Key → ℕ → ℕ → Type 0
Splits p key lwr hi =
    ((j : ℕ) → j < lwr → lex (key_at p j) key ≡ neg)
    × ((j : ℕ) → hi ≤ j → j < n_cell p → lex (key_at p j) key ≡ pos)

-- The place that a search of a page must report. After a miss the compared cell is a neighbour of
-- the gap, on the side that its sign names.
abbrev pub IsPlace : MemPage → Key → Found → Type 0
IsPlace p key (exact i) = (i < n_cell p) × (key_at p i ≡ key)
IsPlace p key (miss lwr idx neg) = Splits p key lwr lwr × (lwr ≡ idx + 1) × (idx < n_cell p)
IsPlace p key (miss lwr idx pos) = Splits p key lwr lwr × (lwr ≡ idx) × (idx < n_cell p)
IsPlace p key (miss lwr idx nil) = ⊥
IsPlace p key stuck = ⊥

module _ (p : MemPage) (key : Key) (sorted : IsSorted p) where
  raise :
      (idx : ℕ)
      → idx < n_cell p
      → lex (key_at p idx) key ≡ neg
      → (j : ℕ) → j < idx + 1
      → lex (key_at p j) key ≡ neg
  raise idx h e j hj = elim (dec_lt j idx) [
    | yes l ↦ lex_trans _ _ _ (sorted j idx l h) e
    | no l ↦ let same : j ≡ idx = omega arith in rw same e
  ]

  lower :
      (idx : ℕ)
      → lex (key_at p idx) key ≡ pos
      → (j : ℕ) → idx ≤ j
      → j < n_cell p
      → lex (key_at p j) key ≡ pos
  lower idx e j hj hn = elim (dec_lt idx j) [
    | yes l ↦ lex_trans_pos _ _ _ (lex_neg _ _ (sorted idx j l hn)) e
    | no l ↦ let same : j ≡ idx = omega arith in rw same e
  ]

  search_loop-IsPlace :
      (fuel lwr hi idx : ℕ)
      → Splits p key lwr hi
      → hi ≤ n_cell p
      → lwr ≤ idx
      → idx < hi
      → hi ≤ lwr + fuel
      → IsPlace p key (search_loop fuel p key lwr hi idx)
  unfolding search_loop
  search_loop-IsPlace zero lwr hi idx s hn hl hi' hf = absurd (omega arith)
  search_loop-IsPlace (suc fuel) lwr hi idx s hn hl hi' hf =
      elim (Sign-cases (lex (key_at p idx) key)) [
        | inl e ↦
            let up = raise idx (omega arith) e in
            elim (Bool-cases (leb hi (idx + 1))) [
              | inl t ↦
                  let same : hi ≡ idx + 1 = ground arith in
                  rw (search_loop, kv_key_compare-lex, e, t)
                    ((up, rw (← same) s.1), refl, omega arith)
              | inr t ↦
                  rw (search_loop, kv_key_compare-lex, e, t)
                    (search_loop-IsPlace fuel (idx + 1) hi _ (up, s.1) hn (ground arith)
                      (ground arith) (omega arith))
            ]
        | inr (inl e) ↦ rw (search_loop, kv_key_compare-lex, e) (omega arith, lex_eq _ _ e)
        | inr (inr e) ↦
            let down = lower idx e in
            elim (Bool-cases (leb idx lwr)) [
              | inl t ↦
                  let same : lwr ≡ idx = ground arith in
                  rw (search_loop, kv_key_compare-lex, e, t)
                    ((s.0, rw same down), same, omega arith)
              | inr t ↦
                  rw (search_loop, kv_key_compare-lex, e, t)
                    (search_loop-IsPlace fuel lwr idx _ (s.0, down) (omega arith) (ground arith)
                      (ground arith) (omega arith))
            ]
      ]

  -- On a page with ascending keys and at least one cell the binary search ends, with either bias:
  -- it finds a cell with the key, or a gap such that all cells below it are smaller and all others
  -- greater than the key, with the last compared cell next to the gap on the side that the sign
  -- names.
  pub search_page-IsPlace :
      (bias_right : Bool) → 0 < n_cell p → IsPlace p key (search_page p key bias_right)
  unfolding search_page
  search_page-IsPlace true h =
      search_loop-IsPlace (n_cell p) 0 (n_cell p) (n_cell p - 1)
        ((λ j l. absurd (omega arith)), (λ j l k. absurd (omega arith))) (omega arith) (omega arith)
        (omega arith) (omega arith)
  search_page-IsPlace false h =
      search_loop-IsPlace (n_cell p) 0 (n_cell p) ((n_cell p - 1) / 2)
        ((λ j l. absurd (omega arith)), (λ j l k. absurd (omega arith))) (omega arith) (omega arith)
        (omega arith) (omega arith)
