-- ===== src/Api/Runs.antt =====
-- Any calls of the transactions and savepoints of src/btreelite_api.c, one after the other.
use litebtree.Base.{List, [], ◌∷◌, Rc, ok}
use litebtree.Api.Numbered.{IsNumbered}
use litebtree.Api.{
  Db, btreelite_begin, btreelite_commit, btreelite_rollback, btreelite_savepoint,
  btreelite_integrity_check,
}
use litebtree.Base.Ints.{ℤ, pos}
use litebtree.Pager.Session.{Image, Spec}

-- The calls, and the work on the database between them. The first results are those of the layers
-- below; a rollback and a savepoint that is not outermost succeed there.
pub data Call (D : Type 0) : Type 0 where
  begin_call : Rc → Rc → ℤ → Call D
  commit_call : Rc → Rc → Call D
  rollback_call : Call D
  savepoint_call : Rc → Rc → Spec D → ℤ → ℤ → Call D
  check_call : Rc → Rc → Rc → Rc → Call D
  work_call : Image D → Call D

module _ {D : Type 0} where
  unfoldable pub run : Call D → Db D → Db D
  unfolding btreelite_begin btreelite_commit btreelite_rollback btreelite_savepoint
      btreelite_integrity_check
  run (begin_call lock open_rc wrflag) db = (btreelite_begin lock open_rc wrflag db).1
  run (commit_call one two) db = (btreelite_commit one two db).1
  run rollback_call db = (btreelite_rollback ok ok db).1
  run (savepoint_call one two failed op i) db = (btreelite_savepoint one two ok failed op i db).1
  run (check_call lock check one two) db = (btreelite_integrity_check lock check one two db).1
  run (work_call im) db = record db { session = record db.session { now = im } }

  unfoldable pub run_all : List (Call D) → Db D → Db D
  unfolding run
  run_all [] db = db
  run_all (k ∷ ks) db = run_all ks (run k db)

  module _ (lock check one two : Rc) (db : Db D) (h : IsNumbered db) where
    abbrev begun : Rc × Db D
    begun = btreelite_begin lock ok (pos 0) db
