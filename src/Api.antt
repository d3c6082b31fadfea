-- ===== src/Api.antt =====
-- Transactions and savepoints of the public interface (src/btreelite_api.c) over the transaction
-- state of the B-tree (src/btree.c). The pager is its specification: a database with saved images.
use litebtree.Base.{
  ℕ, zero, suc, ◌+◌, ◌-◌, ◌≡◌, Bool, true, false, not, ◌&&◌, ◌||◌, if◌then◌else◌, ltb, leb, ◌==◌,
  List, [], ◌∷◌, Rc, ok, error, is_ok, length, Option, none, some,
}
use litebtree.Base.Ints.{ℤ, pos, negsuc}
use litebtree.Pager.Session.{Image, Spec, opened, released, rolled_back}
pub mod Points
pub mod Numbered
pub mod Runs
pub mod Entries

-- TRANS_NONE, TRANS_READ and TRANS_WRITE.
pub data TxnState : Type 0 where
  txn_none txn_read txn_write : TxnState

abbrev pub is_write : TxnState → Bool
is_write txn_write = true
is_write _ = false

abbrev pub is_none : TxnState → Bool
is_none txn_none = true
is_none _ = false

-- btreelite_db with its Btree: inTrans, env.nSavepoint, the database that the file holds, and what
-- the write transaction has made of it.
pub record Db (D : Type 0) : Type 0 where
  pub in_trans : TxnState
  pub n_savepoint : ℕ
  pub committed : Image D
  pub session : Spec D

pub data SavepointOp : Type 0 where
  release rollback : SavepointOp

-- BTREELITE_SAVEPOINT_RELEASE and BTREELITE_SAVEPOINT_ROLLBACK.
abbrev pub code_of : SavepointOp → ℤ
code_of release = pos 1
code_of rollback = pos 2

-- The check of op.
abbrev pub op_of : ℤ → Option SavepointOp
op_of (pos n) = if n == 1 then some release else if n == 2 then some rollback else none
op_of (negsuc n) = none

-- What btreelite_savepoint sets nSavepoint to.
abbrev pub savepoints_left : SavepointOp → ℕ → ℕ
savepoints_left release i = i
savepoints_left rollback i = suc i

module _ {D : Type 0} where
  -- sqlite3PagerOpenSavepoint: as many savepoints as are missing.
  unfoldable pub open_times : ℕ → Spec D → Spec D
  open_times zero sp = sp
  open_times (suc n) sp = open_times n (opened sp)

  abbrev pub open_up_to : ℕ → Spec D → Spec D
  open_up_to n sp = open_times (n - length sp.saved) sp

  -- The number of savepoints that the pager has is brought up to nSavepoint.
  abbrev pub with_savepoints : Db D → Db D
  with_savepoints db = record db { session = open_up_to db.n_savepoint db.session }

  -- sqlite3BtreeBeginTrans of a database that is not shared. The result of taking the locks is
  -- given, and that of what follows in a write transaction: the write of page 1, if its page count
  -- is not the right one, and the opening of savepoints. On an error there no savepoint is opened,
  -- but a new write transaction stays open.
  unfoldable pub btree_begin_trans : Rc → Rc → ℕ → Db D → Rc × Db D
  unfolding open_times
  btree_begin_trans lock open_rc wrflag db =
      let writes = not (wrflag == 0) in
      let begun = record db {
        in_trans = txn_write;
        session = record { now = db.committed; saved = [] };
      } in
      if is_none db.in_trans || (not (is_write db.in_trans) && writes)
      then (if is_ok lock
          then (if writes
              then (if is_ok open_rc then (ok, with_savepoints begun) else (open_rc, begun))
              else (ok, record db { in_trans = txn_read }))
          else (lock, db))
      else if writes
      then (if is_ok open_rc then (ok, with_savepoints db) else (open_rc, db))
      else (ok, db)

  -- btreelite_begin with a wrflag that is not negative.
  unfoldable pub begin_with : Rc → Rc → ℕ → Db D → Rc × Db D
  unfolding btree_begin_trans
  begin_with lock open_rc wrflag db =
      let r = btree_begin_trans lock open_rc wrflag db in
      if ltb 2 wrflag
      then (error, db)
      else if is_ok r.0 && not (wrflag == 0) && is_write r.1.in_trans
      then (r.0, record r.1 { n_savepoint = suc r.1.n_savepoint })
      else r

  unfoldable pub btreelite_begin : Rc → Rc → ℤ → Db D → Rc × Db D
  unfolding begin_with
  btreelite_begin lock open_rc (negsuc k) db = (error, db)
  btreelite_begin lock open_rc (pos wrflag) db = begin_with lock open_rc wrflag db

  -- btreeEndTransaction, with no other statement on the handle.
  abbrev pub end_transaction : Db D → Db D
  end_transaction db = record db { in_trans = txn_none }

  -- sqlite3BtreeCommit: the results of the two phases in the pager are given.
  unfoldable pub btree_commit : Rc → Rc → Db D → Rc × Db D
  btree_commit one two db = elim db.in_trans [
    | txn_none ↦ (ok, db)
    | txn_read ↦ (ok, end_transaction db)
    | txn_write ↦
        if is_ok one
        then (if is_ok two
            then (
              ok,
              end_transaction (record db {
                committed = db.session.now;
                session = record { now = db.session.now; saved = [] };
              }),
            )
            else (two, db))
        else (one, db)
  ]

  unfoldable pub btreelite_commit : Rc → Rc → Db D → Rc × Db D
  unfolding btree_commit
  btreelite_commit one two db =
      let r = btree_commit one two db in
      if is_ok r.0 then (r.0, record r.1 { n_savepoint = 0 }) else r

  -- sqlite3BtreeRollback: the results of saving the cursors and of the rollback in the pager are
  -- given. The transaction ends in any case.
  unfoldable pub btree_rollback : Rc → Rc → Db D → Rc × Db D
  btree_rollback cursors io db = elim db.in_trans [
    | txn_none ↦ (cursors, end_transaction db)
    | txn_read ↦ (cursors, end_transaction db)
    | txn_write ↦ (
      if is_ok io then cursors else io,
      end_transaction (record db { session = record { now = db.committed; saved = [] } }),
    )
  ]

  unfoldable pub btreelite_rollback : Rc → Rc → Db D → Rc × Db D
  unfolding btree_rollback
  btreelite_rollback cursors io db =
      let r = btree_rollback cursors io db in
      if is_ok r.0 then (r.0, record r.1 { n_savepoint = 0 }) else r

  -- sqlite3PagerSavepoint of the index -1, and of one that is not negative.
  abbrev pub to_start : Db D → Spec D
  to_start db = record { now = db.committed; saved = [] }

  abbrev pub pager_savepoint : SavepointOp → ℕ → Spec D → Spec D
  pager_savepoint release i sp = released i sp
  pager_savepoint rollback i sp = rolled_back i sp

  -- sqlite3BtreeSavepoint in a write transaction. The result is given, and what the pager is left
  -- with where it is an error.
  abbrev pub btree_savepoint : Rc → Spec D → Spec D → Db D → Rc × Db D
  btree_savepoint io failed done db =
      if is_ok io then (ok, record db { session = done }) else (io, record db { session = failed })

  abbrev pub with_count : ℕ → Rc × Db D → Rc × Db D
  with_count n r = if is_ok r.0 then (r.0, record r.1 { n_savepoint = n }) else r

  unfoldable pub outermost : Rc → Rc → Rc → Spec D → SavepointOp → Db D → Rc × Db D
  unfolding btreelite_commit
  outermost one two io failed release db = btreelite_commit one two db
  outermost one two io failed rollback db =
      with_count 1 (btree_savepoint io failed (to_start db) db)

  -- From the check of iSavepoint against nSavepoint on.
  unfoldable pub savepoint_at : Rc → Rc → Rc → Spec D → SavepointOp → ℕ → Db D → Rc × Db D
  unfolding outermost
  savepoint_at one two io failed op i db =
      let first = outermost one two io failed op db in
      if leb db.n_savepoint i
      then (error, db)
      else if i == 0
      then first
      else with_count (savepoints_left op i)
          (btree_savepoint io failed (pager_savepoint op (i - 1) db.session) db)

  unfoldable pub btreelite_savepoint : Rc → Rc → Rc → Spec D → ℤ → ℤ → Db D → Rc × Db D
  unfolding savepoint_at
  btreelite_savepoint one two io failed op i db = elim (op_of op) [
    | none ↦ (error, db)
    | some o ↦
        if not (is_write db.in_trans)
        then (error, db)
        else elim i [ negsuc k ↦ (error, db) | pos k ↦ savepoint_at one two io failed o k db ]
  ]

  -- btreelite_integrity_check: a read transaction is begun and committed around the check, whose
  -- result is given.
  unfoldable pub btreelite_integrity_check : Rc → Rc → Rc → Rc → Db D → Rc × Db D
  unfolding btreelite_begin btreelite_commit
  btreelite_integrity_check lock check one two db =
      let r = btreelite_begin lock ok (pos 0) db in
      if is_ok r.0 then (check, (btreelite_commit one two r.1).1) else r
