-- ===== src/Api/Numbered.antt =====
-- nSavepoint of src/btreelite_api.c against the savepoints of the pager: each call keeps them in step.
use litebtree.Base.{
  ℕ, zero, suc, ◌+◌, ◌-◌, ◌≤◌, ◌<◌, ◌≡◌, ◌≢◌, refl, ap, sym, subst, ◌∙◌, arith, false, List, [],
  ◌∷◌, Option, some, none, length, take, get_elem?, Rc, ok, leb, ◌==◌, length-append, length-take,
  dec_le, ℕ_discrete,
}
use litebtree.Api.{
  TxnState, txn_none, txn_read, txn_write, Db, SavepointOp, release, rollback, btreelite_begin,
  begin_with, btree_begin_trans, open_times, btreelite_commit, btreelite_rollback,
  btreelite_savepoint, savepoint_at, outermost, btree_commit, btree_rollback, op_of, is_write,
}
use litebtree.Base.Ints.{ℤ, pos, negsuc}
use litebtree.Pager.Session.{Image, Spec, opened, released, rolled_back}

get_elem {ℓ} :
    {A : Type ℓ} (xs : List A) (n : ℕ) → n < length xs → (x : A) × (get_elem? xs n ≡ some x)
get_elem [] n l = absurd (omega arith)
get_elem (y ∷ ys) zero l = (y, refl)
get_elem (y ∷ ys) (suc n) l = get_elem ys n (omega arith)

module _ {D : Type 0} where
  -- In a write transaction the pager has one savepoint less than nSavepoint counts, or none if it
  -- counts none; otherwise nSavepoint is 0.
  abbrev pub IsNumbered : Db D → Type 0
  IsNumbered db = elim db.in_trans [
    | txn_none ↦ db.n_savepoint ≡ 0
    | txn_read ↦ db.n_savepoint ≡ 0
    | txn_write ↦ length db.session.saved ≡ db.n_savepoint - 1
  ]

  length-open_times : (n : ℕ) (sp : Spec D) → length (open_times n sp).saved ≡ length sp.saved + n
  unfolding open_times
  length-open_times zero sp = omega arith
  length-open_times (suc n) sp =
      let ih = length-open_times n (opened sp) in
      let one = length-append sp.saved (sp.now ∷ []) in omega arith

  -- The database, by its state.
  abbrev pub db_in : TxnState → ℕ → Image D → Spec D → Db D
  db_in t n base sp = record { in_trans = t; n_savepoint = n; committed = base; session = sp }

  module _ (base : Image D) (sp : Spec D) where
    fresh-IsNumbered :
        (lock open_rc : Rc) (wrflag : ℕ) (t : TxnState)
        → t ≢ txn_write
        → IsNumbered (begin_with lock open_rc wrflag (db_in t 0 base sp)).1
    unfolding begin_with btree_begin_trans open_times
    fresh-IsNumbered lock open_rc wrflag txn_none n = ground arith
    fresh-IsNumbered lock open_rc wrflag txn_read n = ground arith
    fresh-IsNumbered lock open_rc wrflag txn_write n = absurd (n refl)

    nested-IsNumbered :
        (lock open_rc : Rc) (wrflag n : ℕ)
        → length sp.saved ≡ n - 1
        → IsNumbered (begin_with lock open_rc wrflag (db_in txn_write n base sp)).1
    unfolding begin_with btree_begin_trans
    nested-IsNumbered lock open_rc wrflag n h =
        let l = length-open_times (n - length sp.saved) sp in ground arith

    pub commit-IsNumbered :
        (one two : Rc) (t : TxnState) (n : ℕ)
        → IsNumbered (db_in t n base sp)
        → IsNumbered (btreelite_commit one two (db_in t n base sp)).1
    unfolding btreelite_commit btree_commit
    commit-IsNumbered one two txn_none n h = refl
    commit-IsNumbered one two txn_read n h = refl
    commit-IsNumbered one two txn_write n h = ground (arith, h)

    pub rollback-IsNumbered :
        (t : TxnState) (n : ℕ) → IsNumbered (btreelite_rollback ok ok (db_in t n base sp)).1
    unfolding btreelite_rollback btree_rollback
    rollback-IsNumbered txn_none n = refl
    rollback-IsNumbered txn_read n = refl
    rollback-IsNumbered txn_write n = refl

    rolled_back_at :
        (j : ℕ) (x : Image D)
        → get_elem? sp.saved j ≡ some x
        → rolled_back j sp ≡ record { now = x; saved = take (suc j) sp.saved }
    rolled_back_at j x e = rw (rolled_back, e) refl

    length-rolled_back : (j : ℕ) → j < length sp.saved → length (rolled_back j sp).saved ≡ suc j
    length-rolled_back j l =
        let (x, e) = get_elem sp.saved j l in
        ap (λ s. length s.saved) (rolled_back_at j x e) ∙ length-take (suc j) sp.saved l

    module _ (one two : Rc) (failed : Spec D) (n : ℕ) (h : length sp.saved ≡ n - 1) where
      abbrev at_index : SavepointOp → ℕ → Db D
      at_index op i = (savepoint_at one two ok failed op i (db_in txn_write n base sp)).1

      -- The cases of a savepoint that is there.
      at_index-release :
          0 < n
          → savepoint_at one two ok failed release 0 (db_in txn_write n base sp)
            ≡ btreelite_commit one two (db_in txn_write n base sp)
      unfolding savepoint_at outermost
      at_index-release l = let le : leb n 0 ≡ false = ground (arith, l) in rw le refl

      outermost-IsNumbered : (op : SavepointOp) → 0 < n → IsNumbered (at_index op 0)
      unfolding savepoint_at outermost
      outermost-IsNumbered release l =
          subst (λ r. IsNumbered r.1) (sym (at_index-release l))
            (commit-IsNumbered one two txn_write n h)
      outermost-IsNumbered rollback l = ground (arith, l)

      abbrev inner : SavepointOp → ℕ → Rc × Db D
      inner release j = (ok, db_in txn_write (suc j) base (released (suc j - 1) sp))
      inner rollback j = (ok, db_in txn_write (suc (suc j)) base (rolled_back (suc j - 1) sp))

      at_index-inner :
          (op : SavepointOp) (j : ℕ)
          → suc j < n
          → savepoint_at one two ok failed op (suc j) (db_in txn_write n base sp) ≡ inner op j
      unfolding savepoint_at outermost
      at_index-inner release j l =
          let le : leb n (suc j) ≡ false = ground (arith, l) in
          let later : (suc j == 0) ≡ false = ground arith in rw (le, later) refl
      at_index-inner rollback j l =
          let le : leb n (suc j) ≡ false = ground (arith, l) in
          let later : (suc j == 0) ≡ false = ground arith in rw (le, later) refl

      inner-IsNumbered : (op : SavepointOp) (j : ℕ) → suc j < n → IsNumbered (inner op j).1
      inner-IsNumbered release j l = length-take (suc j - 1) sp.saved (omega arith)
      inner-IsNumbered rollback j l = length-rolled_back (suc j - 1) (omega arith) ∙ omega arith

      beyond-IsNumbered : (op : SavepointOp) (i : ℕ) → n ≤ i → IsNumbered (at_index op i)
      unfolding savepoint_at
      beyond-IsNumbered op i l = ground (arith, l, h)

      at_index-IsNumbered : (op : SavepointOp) (i : ℕ) → IsNumbered (at_index op i)
      at_index-IsNumbered op i = elim (dec_le n i) [
        | yes l ↦ beyond-IsNumbered op i l
        | no g ↦ elim (ℕ_discrete i 0) [
          | yes z ↦
              subst (λ k. IsNumbered (at_index op k)) (sym z)
                (outermost-IsNumbered op (omega arith))
          | no nz ↦
              let e : i ≡ suc (i - 1) = omega arith in
              subst (λ k. IsNumbered (at_index op k)) (sym e)
                (subst (λ r. IsNumbered r.1) (sym (at_index-inner op (i - 1) (omega arith)))
                  (inner-IsNumbered op (i - 1) (omega arith)))
        ]
      ]

      -- What the call does once op is checked.
      abbrev checked : Option SavepointOp → ℤ → Db D
      checked (some o) (pos k) = at_index o k
      checked _ i = db_in txn_write n base sp

      savepoint-checked :
          (o : Option SavepointOp) (op i : ℤ)
          → op_of op ≡ o
          → (btreelite_savepoint one two ok failed op i (db_in txn_write n base sp)).1 ≡ checked o i
      unfolding btreelite_savepoint
      savepoint-checked none op i e = rw (btreelite_savepoint, e) refl
      savepoint-checked (some o) op (negsuc k) e = rw (btreelite_savepoint, e) refl
      savepoint-checked (some o) op (pos k) e = rw (btreelite_savepoint, e) refl

      checked-IsNumbered : (o : Option SavepointOp) (i : ℤ) → IsNumbered (checked o i)
      checked-IsNumbered none i = h
      checked-IsNumbered (some o) (negsuc k) = h
      checked-IsNumbered (some o) (pos k) = at_index-IsNumbered o k

    savepoint-outside :
        (one two : Rc) (failed : Spec D) (op i : ℤ) (t : TxnState) (n : ℕ)
        → is_write t ≡ false
        → (btreelite_savepoint one two ok failed op i (db_in t n base sp)).1 ≡ db_in t n base sp
    unfolding btreelite_savepoint
    savepoint-outside one two failed op i t n h = ground (arith, h)

    pub savepoint-IsNumbered :
        (one two : Rc) (failed : Spec D) (op i : ℤ) (t : TxnState) (n : ℕ)
        → IsNumbered (db_in t n base sp)
        → IsNumbered (btreelite_savepoint one two ok failed op i (db_in t n base sp)).1
    savepoint-IsNumbered one two failed op i txn_none n h =
        subst IsNumbered (sym (savepoint-outside one two failed op i txn_none n refl)) h
    savepoint-IsNumbered one two failed op i txn_read n h =
        subst IsNumbered (sym (savepoint-outside one two failed op i txn_read n refl)) h
    savepoint-IsNumbered one two failed op i txn_write n h =
        subst IsNumbered (sym (savepoint-checked one two failed n h (op_of op) op i refl))
          (checked-IsNumbered one two failed n h (op_of op) i)

    pub begin-IsNumbered :
        (lock open_rc : Rc) (wrflag : ℤ) (t : TxnState) (n : ℕ)
        → IsNumbered (db_in t n base sp)
        → IsNumbered (btreelite_begin lock open_rc wrflag (db_in t n base sp)).1
    unfolding btreelite_begin
    begin-IsNumbered lock open_rc (negsuc k) t n h = h
    begin-IsNumbered lock open_rc (pos wrflag) txn_none n h =
        rw h (fresh-IsNumbered lock open_rc wrflag txn_none (λ e. cc))
    begin-IsNumbered lock open_rc (pos wrflag) txn_read n h =
        rw h (fresh-IsNumbered lock open_rc wrflag txn_read (λ e. cc))
    begin-IsNumbered lock open_rc (pos wrflag) txn_write n h =
        nested-IsNumbered lock open_rc wrflag n h
