-- ===== src/Tests/SmallSavepoints.antt =====
-- A database of three pages in a write transaction: the savepoint operations of src/pager.c run on
-- it, and the theorem about them at it.
use litebtree.Base.{
  ℕ, suc, ◌+◌, ◌==◌, if◌then◌else◌, ◌≡◌, ◌≤◌, refl, arith, [], ◌∷◌, none, some, Rc, ok, other, true,
  false, is_ok, get_elem?,
}
use litebtree.Pager.{
  Pager, Savepoint, put_at, content, on_log, find_frame, set_content, pager_write, pager_stress,
  pager_open_savepoint, open_more, release_savepoint, rollback_savepoint, playback_savepoint,
  playback_loop, playback_one_page, subjournal_page_if_required, subjournal_page,
  subj_requires_page, add_to_savepoint_bitvecs, wal_frame,
}
use litebtree.Pager.Journal.{IsJournalled, subjournal_page_if_required-IsJournalled}
use litebtree.Pager.Rollback.{IsRestored, rollback_savepoint-IsRestored}
use litebtree.Pager.Session.{
  Spec, Implements, Steps, wrote, spilled, opens, rolls_back, here, more, written, opened,
  rolled_back,
}
use litebtree.Pager.Session.Simulate.{Steps-Implements}

-- Page x of the file has the content 100 + x; page 2 has been changed to 7 before.
abbrev start : Pager ℕ
start = record {
  db_size = 3;
  cache = λ x. if x == 2 then some 7 else none;
  file = λ x. 100 + x;
  frame = λ k. (0, 0);
  mx_frame = 0;
  sub_journal = λ k. (0, 0);
  n_sub_rec = 0;
  savepoints = [];
}

abbrev start_spec : Spec ℕ
start_spec = record {
  now = record { size = 3; page = λ x. if x == 2 then 7 else 100 + x };
  saved = [];
}

program : Unit {0}
unfolding content on_log find_frame set_content pager_write pager_stress pager_open_savepoint
    open_more release_savepoint rollback_savepoint playback_savepoint playback_loop
    playback_one_page subjournal_page_if_required subjournal_page subj_requires_page
    add_to_savepoint_bitvecs wal_frame
program = tt

start-Implements : Implements start start_spec
unfolding program
start-Implements = record { size = refl; pages = λ x l. ground arith; sizes = refl; stack = tt }

abbrev one_open : Pager ℕ
one_open = (pager_open_savepoint 1 start).1

-- The changed page is spilled to the log and changed again.
abbrev spilt : Pager ℕ
spilt = (pager_stress ok ok 2 one_open).1

abbrev changed_again : Pager ℕ
changed_again = set_content 2 8 (pager_write ok 2 spilt).1

-- A new page behind the end.
abbrev grown : Pager ℕ
grown = set_content 4 9 (pager_write ok 4 changed_again).1

abbrev back : Pager ℕ
back = rollback_savepoint 0 grown

reads_changed : content grown 2 ≡ 8
unfolding program
reads_changed = refl

reads_back : content back 2 ≡ 7
unfolding program
reads_back = refl

size_back : back.db_size ≡ 3
unfolding program
size_back = refl

-- A write to the sub-journal that fails leaves the pages as they were.
fails : (pager_write (other 10) 2 one_open).0 ≡ other 10
unfolding program
fails = refl

good_write : is_ok (pager_write ok 2 spilt).0 ≡ true
unfolding program
good_write = refl

good_growth : is_ok (pager_write ok 4 changed_again).0 ≡ true
unfolding program
good_growth = refl

in_cache : one_open.cache 2 ≡ some 7
unfolding program
in_cache = refl

room_for_two : 2 ≤ suc spilt.db_size
unfolding program
room_for_two = omega arith

room_for_four : 4 ≤ suc changed_again.db_size
unfolding program
room_for_four = omega arith

run : Steps start start_spec back (rolled_back 0 (written 4 9 (written 2 8 (opened start_spec))))
run =
    more grown _ back _
      (more changed_again _ grown _
        (more spilt _ changed_again _
          (more one_open _ spilt _ (more start _ one_open _ here opens)
            (spilled ok ok 2 7 in_cache))
          (wrote ok 2 8 room_for_two good_write))
        (wrote ok 4 9 room_for_four good_growth))
      (rolls_back 0)

Steps-Implements_example :
    Implements back (rolled_back 0 (written 4 9 (written 2 8 (opened start_spec))))
Steps-Implements_example =
    Steps-Implements start start_spec back
      (rolled_back 0 (written 4 9 (written 2 8 (opened start_spec)))) run start-Implements

run_open : Steps start start_spec changed_again (written 2 8 (opened start_spec))
run_open =
    more spilt _ changed_again _
      (more one_open _ spilt _ (more start _ one_open _ here opens) (spilled ok ok 2 7 in_cache))
      (wrote ok 2 8 room_for_two good_write)

changed-Implements : Implements changed_again (written 2 8 (opened start_spec))
changed-Implements =
    Steps-Implements start start_spec changed_again (written 2 8 (opened start_spec)) run_open
      start-Implements

abbrev its_savepoint : Savepoint
its_savepoint = record {
  n_orig = 3;
  in_savepoint = put_at 2 true (λ x. false);
  sub_rec = 0;
  truncate_on_release = true;
  wal_frames = 0;
}

its_first : get_elem? changed_again.savepoints 0 ≡ some its_savepoint
unfolding program
its_first = refl

rollback_savepoint-IsRestored_example :
    IsRestored 0 changed_again (rollback_savepoint 0 changed_again) (start_spec.now.page ∷ [])
rollback_savepoint-IsRestored_example =
    rollback_savepoint-IsRestored 0 changed_again (start_spec.now.page ∷ []) its_savepoint
      changed-Implements.stack its_first

subjournal_page_if_required-IsJournalled_example :
    (rc : Rc) × (q : Pager ℕ) × (subjournal_page_if_required (other 10) 3 changed_again ≡ (rc, q))
    × IsJournalled 3 changed_again (start_spec.now.page ∷ []) rc q
subjournal_page_if_required-IsJournalled_example =
    subjournal_page_if_required-IsJournalled (other 10) 3 changed_again (start_spec.now.page ∷ [])
      changed-Implements.stack
