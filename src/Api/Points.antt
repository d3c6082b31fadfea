-- ===== src/Api/Points.antt =====
-- The numbering of savepoints in src/btreelite_api.c and the nesting of calls of btreelite_begin: the
-- savepoint i is the database as it was at the i-th of them.
use litebtree.Base.{
  ℕ, zero, suc, ◌-◌, ◌<◌, ◌≡◌, refl, ◌∙◌, ap, arith, true, false, Bool-cases, inl, inr, ◌⊎◌, List,
  [], ◌∷◌, ◌++◌, some, length, take, get_elem?, Rc, ok, error, is_ok, leb, ◌==◌, length-append,
  length-take, append_assoc, append_nil,
}
use litebtree.Base.Ints.{ℤ, pos}
use litebtree.Pager.Session.{Image, Spec, opened, released, rolled_back}
use litebtree.Api.{
  txn_none, txn_write, Db, code_of, savepoint_at, SavepointOp, release, rollback, btreelite_begin,
  begin_with, btree_begin_trans, open_times, btreelite_commit, btreelite_rollback,
  btreelite_savepoint, outermost, btree_commit, btree_rollback, btreelite_integrity_check,
}

get-length {ℓ} :
    {A : Type ℓ} (xs : List A) (n : ℕ) (x : A) → get_elem? xs n ≡ some x → n < length xs
get-length [] n x e = absurd (cc)
get-length (y ∷ ys) zero x e = omega arith
get-length (y ∷ ys) (suc n) x e = let ih = get-length ys n x e in omega arith

module _ {D : Type 0} where
  -- No transaction, and a write transaction: nSavepoint is one more than the savepoints of the pager.
  abbrev pub idle : Image D → Spec D → Db D
  idle base sp = record { in_trans = txn_none; n_savepoint = 0; committed = base; session = sp }

  abbrev pub writing : Image D → Spec D → Db D
  writing base sp = record {
    in_trans = txn_write;
    n_savepoint = suc (length sp.saved);
    committed = base;
    session = sp;
  }

  abbrev pub started : Image D → Spec D
  started base = record { now = base; saved = [] }

  module _ (lock open_rc : Rc) (base : Image D) (sp : Spec D) where
    begin-idle :
        is_ok lock ≡ true
        → is_ok open_rc ≡ true
        → btreelite_begin lock open_rc (pos 1) (idle base sp) ≡ (ok, writing base (started base))
    unfolding btreelite_begin begin_with btree_begin_trans open_times
    begin-idle l k = rw (l, k) refl

    begin-writing :
        is_ok open_rc ≡ true
        → btreelite_begin lock open_rc (pos 1) (writing base sp) ≡ (ok, writing base (opened sp))
    unfolding btreelite_begin begin_with btree_begin_trans open_times
    begin-writing l =
        let one : suc (length sp.saved) - length sp.saved ≡ 1 = omega arith in
        let more = length-append sp.saved (sp.now ∷ []) in
        let count : length (sp.saved ++ (sp.now ∷ [])) ≡ suc (length sp.saved) = omega arith in
        rw (l, one, count) refl

  module _ (one two io : Rc) (failed : Spec D) (base : Image D) (sp : Spec D) where
    abbrev savepoint : SavepointOp → ℕ → Rc × Db D
    savepoint op i = btreelite_savepoint one two io failed (code_of op) (pos i) (writing base sp)

    rollback-zero : is_ok io ≡ true → savepoint rollback 0 ≡ (ok, writing base (started base))
    unfolding btreelite_savepoint savepoint_at outermost
    rollback-zero good = ground (arith, good)

    rollback-suc :
        (j : ℕ) (im : Image D)
        → is_ok io ≡ true
        → get_elem? sp.saved j ≡ some im
        → savepoint rollback (suc j)
          ≡ (ok, writing base (record { now = im; saved = take (suc j) sp.saved }))
    unfolding btreelite_savepoint savepoint_at outermost
    rollback-suc j im good e =
        let l = get-length sp.saved j im e in
        let le : leb (suc (length sp.saved)) (suc j) ≡ false = ground (arith, l) in
        let back : suc j - 1 ≡ j = omega arith in
        let count = length-take (suc j) sp.saved l in
        let later : (suc j == 0) ≡ false = ground arith in
        rw (le, later, back, e, count, good, rolled_back) (rw back refl)

    release-zero :
        is_ok one ≡ true
        → is_ok two ≡ true
        → savepoint release 0 ≡ (ok, idle sp.now (started sp.now))
    unfolding btreelite_savepoint savepoint_at outermost btreelite_commit btree_commit
    release-zero a b = rw (a, b) (ground arith)

    release-suc :
        (j : ℕ)
        → is_ok io ≡ true
        → j < length sp.saved
        → savepoint release (suc j) ≡ (ok, writing base (released j sp))
    unfolding btreelite_savepoint savepoint_at outermost
    release-suc j good l =
        let le : leb (suc (length sp.saved)) (suc j) ≡ false = ground (arith, l) in
        let later : (suc j == 0) ≡ false = ground arith in
        let back : suc j - 1 ≡ j = omega arith in
        let count = length-take j sp.saved (omega arith) in rw (le, later, back, count, good) refl

    -- The point with the index i: the start of the transaction, and then each nested begin.
    abbrev pub points : List (Image D)
    points = base ∷ sp.saved

    -- In a write transaction, if the layers below succeed, ROLLBACK TO i makes the database what
    -- it was at the begin i, keeps that savepoint and those outside it, and leaves the transaction
    -- open.
    pub btreelite_savepoint-rollback :
        (i : ℕ) (im : Image D)
        → is_ok io ≡ true
        → get_elem? points i ≡ some im
        → btreelite_savepoint one two io failed (code_of rollback) (pos i) (writing base sp)
          ≡ (ok, writing base (record { now = im; saved = take i sp.saved }))
    btreelite_savepoint-rollback zero im good e =
        let same : base ≡ im = cc in rw (← same) (rollback-zero good)
    btreelite_savepoint-rollback (suc j) im good e = rollback-suc j im good e

    -- What RELEASE i leaves: the commit of the transaction, or the database with the savepoint i and
    -- those inside it gone.
    abbrev pub released_at : ℕ → Db D
    released_at zero = idle sp.now (started sp.now)
    released_at (suc j) = writing base (record sp { saved = take j sp.saved })

    -- In a write transaction, if the layers below succeed, RELEASE 0 commits it, and RELEASE i of
    -- a later begin keeps the database and the savepoints outside i and drops the others.
    pub btreelite_savepoint-release :
        (i : ℕ)
        → is_ok one ≡ true
        → is_ok two ≡ true
        → is_ok io ≡ true
        → i < length points
        → btreelite_savepoint one two io failed (code_of release) (pos i) (writing base sp)
          ≡ (ok, released_at i)
    btreelite_savepoint-release zero a b good l = release-zero a b
    btreelite_savepoint-release (suc j) a b good l = release-suc j good (omega arith)

  -- The work that is done on the database between two calls.
  abbrev pub work : Image D → Db D → Db D
  work im db = record db { session = record db.session { now = im } }

  -- A nested begin behind each piece of work.
  abbrev pub begins : List (Image D) → Db D → Db D
  begins [] db = db
  begins (im ∷ ims) db = begins ims (btreelite_begin ok ok (pos 1) (work im db)).1

  begins-writing :
      (base last : Image D) (ims : List (Image D)) (sp : Spec D)
      → work last (begins ims (writing base sp))
        ≡ writing base (record { now = last; saved = sp.saved ++ ims })
  begins-writing base last [] sp = rw (append_nil sp.saved) refl
  begins-writing base last (im ∷ ims) sp =
      let step = begin-writing ok ok base (record sp { now = im }) refl in
      let ih = begins-writing base last ims (record { now = im; saved = sp.saved ++ (im ∷ []) }) in
      ap (λ r. work last (begins ims r.1)) step ∙ ih ∙ rw (append_assoc sp.saved (im ∷ []) ims) refl

  -- A write transaction is begun on a database and, behind each of some pieces of work, begun
  -- again; after more work, ROLLBACK TO i goes back to the database as it was at the begin i,
  -- counted from zero, if the layers below succeed.
  pub btreelite_begin-btreelite_savepoint :
      (io : Rc) (failed before : Spec D) (base last im : Image D) (ims : List (Image D)) (i : ℕ)
      → is_ok io ≡ true
      → get_elem? (base ∷ ims) i ≡ some im
      → btreelite_savepoint ok ok io failed
          (code_of rollback)
          (pos i)
          (work last (begins ims (btreelite_begin ok ok (pos 1) (idle base before)).1))
        ≡ (ok, writing base (record { now = im; saved = take i ims }))
  btreelite_begin-btreelite_savepoint io failed before base last im ims i good e =
      let first = begin-idle ok ok base before refl refl in
      let all = begins-writing base last ims (started base) in
      rw (first, all)
        (btreelite_savepoint-rollback ok ok io failed base (record { now = last; saved = ims }) i im
          good e)

  -- What is left of a write transaction whose rollback failed.
  abbrev pub stale : Image D → ℕ → Db D
  stale base n = record {
    in_trans = txn_none;
    n_savepoint = n;
    committed = base;
    session = started base;
  }

  rollback-stale :
      (cursors io : Rc) (base : Image D) (sp : Spec D)
      → (is_ok io ≡ false) ⊎ (is_ok cursors ≡ false)
      → (rc : Rc) × (is_ok rc ≡ false)
        × (btreelite_rollback cursors io (writing base sp)
            ≡ (rc, stale base (suc (length sp.saved))))
  unfolding btreelite_rollback btree_rollback
  rollback-stale cursors io base sp (inl bad) = (io, bad, rw bad (rw bad refl))
  rollback-stale cursors io base sp (inr bad) = elim (Bool-cases (is_ok io)) [
    | inr bad_io ↦ (io, bad_io, rw bad_io (rw bad_io refl))
    | inl good ↦ (cursors, bad, rw good (rw bad refl))
  ]

  begin-stale :
      (base : Image D) (n : ℕ)
      → (btreelite_begin ok ok (pos 1) (stale base n)).1.n_savepoint ≡ suc n
  unfolding btreelite_begin begin_with btree_begin_trans
  begin-stale base n = refl

  -- In a write transaction, if saving the cursors or the rollback in the pager fails, then
  -- btreelite_rollback returns an error and the transaction is over all the same, but nSavepoint
  -- stays: a single begin then counts one more than the lost transaction did.
  pub btreelite_rollback-stale :
      (cursors io : Rc) (base : Image D) (sp : Spec D)
      → (is_ok io ≡ false) ⊎ (is_ok cursors ≡ false)
      → (rc : Rc) × (is_ok rc ≡ false)
        × (btreelite_rollback cursors io (writing base sp)
            ≡ (rc, stale base (suc (length sp.saved))))
        × ((btreelite_begin ok ok (pos 1) (stale base (suc (length sp.saved)))).1.n_savepoint
            ≡ suc (suc (length sp.saved)))
  btreelite_rollback-stale cursors io base sp bad =
      let (rc, fails, e) = rollback-stale cursors io base sp bad in
      (rc, fails, e, begin-stale base (suc (length sp.saved)))

  check-writing :
      (lock check one two : Rc) (base : Image D) (sp : Spec D)
      → is_ok one ≡ true
      → is_ok two ≡ true
      → btreelite_integrity_check lock check one two (writing base sp)
        ≡ (check, idle sp.now (started sp.now))
  unfolding btreelite_integrity_check btreelite_begin begin_with btree_begin_trans btreelite_commit
      btree_commit
  check-writing lock check one two base sp a b = rw (a, b) (ground arith)

  -- Without a transaction there is no savepoint, and nothing to roll back.
  savepoint-idle :
      (one two io : Rc) (failed : Spec D) (op i : ℤ) (base : Image D) (sp : Spec D)
      → btreelite_savepoint one two io failed op i (idle base sp) ≡ (error, idle base sp)
  unfolding btreelite_savepoint
  savepoint-idle one two io failed op i base sp = ground arith

  rollback-idle :
      (cursors io : Rc) (base : Image D) (sp : Spec D)
      → (btreelite_rollback cursors io (idle base sp)).1.committed ≡ base
  unfolding btreelite_rollback btree_rollback
  rollback-idle cursors io base sp = ground arith

  -- If both phases of the commit succeed, the integrity check inside a write transaction ends it,
  -- whatever the result of the check: afterwards every savepoint call is refused, and a rollback
  -- leaves the database as the unfinished transaction had made it.
  pub btreelite_integrity_check-commits :
      (lock check one two : Rc) (base : Image D) (sp : Spec D)
      → is_ok one ≡ true
      → is_ok two ≡ true
      → (db : Db D) × (btreelite_integrity_check lock check one two (writing base sp) ≡ (check, db))
        × (db.in_trans ≡ txn_none)
        × ((one' two' io : Rc) (failed : Spec D) (op i : ℤ)
            → btreelite_savepoint one' two' io failed op i db ≡ (error, db))
        × ((cursors io : Rc) → (btreelite_rollback cursors io db).1.committed ≡ sp.now)
  btreelite_integrity_check-commits lock check one two base sp a b = (
    idle sp.now (started sp.now),
    check-writing lock check one two base sp a b,
    refl,
    λ one' two' io failed op i. savepoint-idle one' two' io failed op i sp.now (started sp.now),
    λ cursors io. rollback-idle cursors io sp.now (started sp.now),
  )
