-- ===== src/Tests/SmallSession.antt =====
-- Nested write transactions on a database of one page: the calls of src/btreelite_api.c run on it,
-- and the theorems about them at it.
use litebtree.Base.{ℕ, ◌≡◌, refl, arith, List, [], ◌∷◌, Rc, ok, error, nomem, inr, is_ok, false}
use litebtree.Api.Runs.{Call, begin_call, work_call, check_call, savepoint_call, run, run_all}
use litebtree.Base.Ints.{ℤ, pos, negsuc}
use litebtree.Pager.Session.{Image, Spec}
use litebtree.Api.{
  Db, txn_none, code_of, savepoint_at, release, rollback, btreelite_begin, begin_with,
  btree_begin_trans, open_times, btreelite_commit, btree_commit, btreelite_rollback, btree_rollback,
  btreelite_savepoint, outermost, btreelite_integrity_check,
}
use litebtree.Api.Points.{
  idle, writing, work, begins, stale, btreelite_savepoint-rollback, btreelite_savepoint-release,
  btreelite_begin-btreelite_savepoint, btreelite_rollback-stale, btreelite_integrity_check-commits,
}

program : Unit {0}
unfolding btreelite_begin begin_with btree_begin_trans open_times btreelite_commit btree_commit
    btreelite_rollback btree_rollback btreelite_savepoint savepoint_at outermost
    btreelite_integrity_check
program = tt

-- A database of one page with the content n.
abbrev one_page : ℕ → Image ℕ
one_page n = record { size = 1; page = λ x. n }

abbrev before : Spec ℕ
before = record { now = one_page 1; saved = [] }

-- Three begins, with the contents 1, 2 and 3, and then the content 4.
abbrev session : Spec ℕ
session = record { now = one_page 4; saved = one_page 2 ∷ one_page 3 ∷ [] }

begun :
    work (one_page 4) (
      begins
        (one_page 2 ∷ one_page 3 ∷ [])
        (btreelite_begin ok ok (pos 1) (idle (one_page 1) before)).1)
    ≡ writing (one_page 1) session
unfolding program
begun = refl

goes_back :
    (btreelite_savepoint ok ok ok before
      (code_of rollback)
      (pos 1)
      (writing (one_page 1) session)).1.session.now
    ≡ one_page 2
unfolding program
goes_back = refl

btreelite_begin-btreelite_savepoint_example :
    btreelite_savepoint ok ok ok before (code_of rollback) (pos 1) (
      work (one_page 4) (
        begins
          (one_page 2 ∷ one_page 3 ∷ [])
          (btreelite_begin ok ok (pos 1) (idle (one_page 1) before)).1))
    ≡ (ok, writing (one_page 1) (record { now = one_page 2; saved = one_page 2 ∷ [] }))
btreelite_begin-btreelite_savepoint_example =
    btreelite_begin-btreelite_savepoint ok before before (one_page 1) (one_page 4) (one_page 2)
      (one_page 2 ∷ one_page 3 ∷ []) 1 refl refl

btreelite_savepoint-release_example :
    btreelite_savepoint ok ok ok before (code_of release) (pos 2) (writing (one_page 1) session)
    ≡ (ok, writing (one_page 1) (record { now = one_page 4; saved = one_page 2 ∷ [] }))
btreelite_savepoint-release_example =
    btreelite_savepoint-release ok ok ok before (one_page 1) session 2 refl refl refl (omega arith)

btreelite_savepoint-rollback_example :
    btreelite_savepoint ok ok ok before (code_of rollback) (pos 0) (writing (one_page 1) session)
    ≡ (ok, writing (one_page 1) (record { now = one_page 1; saved = [] }))
btreelite_savepoint-rollback_example =
    btreelite_savepoint-rollback ok ok ok before (one_page 1) session 0 (one_page 1) refl refl

btreelite_rollback-stale_example :
    (rc : Rc) × (is_ok rc ≡ false)
    × (btreelite_rollback nomem ok (writing (one_page 1) session) ≡ (rc, stale (one_page 1) 3))
    × ((btreelite_begin ok ok (pos 1) (stale (one_page 1) 3)).1.n_savepoint ≡ 4)
btreelite_rollback-stale_example = btreelite_rollback-stale nomem ok (one_page 1) session (inr refl)

btreelite_integrity_check-commits_example :
    (db : Db ℕ) × (btreelite_integrity_check ok nomem ok ok (writing (one_page 1) session)
      ≡ (nomem, db))
    × (db.in_trans ≡ txn_none)
    × ((one two io : Rc) (failed : Spec ℕ) (op i : ℤ)
        → btreelite_savepoint one two io failed op i db ≡ (error, db))
    × ((cursors io : Rc) → (btreelite_rollback cursors io db).1.committed ≡ one_page 4)
btreelite_integrity_check-commits_example =
    btreelite_integrity_check-commits ok nomem ok ok (one_page 1) session refl refl

-- Other codes than the two of include/btreelite.h, and a negative index, are refused.
refuses :
    (btreelite_savepoint ok ok ok before (pos 0) (pos 1) (writing (one_page 1) session)).0 ≡ error
unfolding program
refuses = refl

refuses_negative :
    (btreelite_savepoint ok ok ok before (pos 1) (negsuc 0) (writing (one_page 1) session)).0
    ≡ error
unfolding program
refuses_negative = refl

-- Two begins with work between them, a check that cannot commit, savepoints with good and bad
-- arguments, and a rollback.
abbrev calls : List (Call ℕ)
calls =
    begin_call ok ok (pos 1)
    ∷ work_call (one_page 2)
    ∷ begin_call ok ok (pos 1)
    ∷ check_call ok ok nomem ok
    ∷ savepoint_call ok ok before (pos 2) (pos 1)
    ∷ savepoint_call ok ok before (pos 3) (negsuc 4)
    ∷ begin_call ok ok (negsuc 0)
    ∷ []

runs : (run_all calls (idle (one_page 1) before)).n_savepoint ≡ 2
unfolding program run run_all
runs = refl
