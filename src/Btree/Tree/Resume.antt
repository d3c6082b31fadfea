-- ===== src/Btree/Tree/Resume.antt =====
-- sqlite3BtreeNext (src/btree.c) from a position that was saved before the tree changed.
use litebtree.Base.{
  ℕ, suc, ◌≡◌, ◌≢◌, refl, ap, sym, subst, ◌∙◌, false, List, [], ◌∷◌, ◌++◌, some, ok, done,
  if◌then◌else◌,
}
use litebtree.Btree.Cursor.Seek.{restore_cursor_position}
use litebtree.Btree.Cursor.Step.{next, next_loop, advance, btree_next, resume, is_pos}
use litebtree.Btree.Cursor.{BtShared, Cursor, Moved, valid, invalid, is_valid}
use litebtree.Btree.Key.{Key, Sign, neg, nil, pos, lex}
use litebtree.Btree.Page.{MemPage}
use litebtree.Btree.Tree.Moveto.{IsOpen}
use litebtree.Btree.Tree.Next.{plain}
use litebtree.Btree.Tree.Restore.{
  IsSaved, IsRestored, RestoresTo, restore_cursor_position-RestoresTo,
}
use litebtree.Btree.Tree.Scan.{NextIs, advance_lem}
use litebtree.Btree.Tree.{Entry, Below, AtMost, Above, IsAt}
use mathlib.Core.List.{append_assoc}

-- The cursor stands on the first of the entries `hi`, or there is none and the call says so.
abbrev pub ContinuesAt : BtShared → List Entry → List Entry → Moved → Type 0
ContinuesAt bt lo [] m = (d : Cursor) × (m ≡ some (done, d)) × (d.e_state ≡ invalid)
ContinuesAt bt lo (x ∷ after) m = (d : Cursor) × (m ≡ some (ok, d)) × IsAt bt d lo x after

NextIs-ContinuesAt :
    (bt : BtShared) (before : List Entry) (e : Entry) (after : List Entry) (m : Moved)
    → NextIs bt before e after m
    → ContinuesAt bt (before ++ e ∷ []) after m
NextIs-ContinuesAt bt before e [] m h = h
NextIs-ContinuesAt bt before e (x ∷ after) m h = h

-- The contents fall into the entries up to the key and those above it, and the step has ended on
-- the first of these.
pub record StepsAbove (bt : BtShared) (key : Key) (es : List Entry) (m : Moved) : Type 0 where
  pub lo : List Entry
  pub hi : List Entry
  pub whole_eq : es ≡ lo ++ hi
  pub at_most : AtMost key lo
  pub above : Above key hi
  pub outcome : ContinuesAt bt lo hi m

AtMost-snoc :
    (key : Key) (es : List Entry) (e : Entry)
    → Below key es
    → lex e.0 key ≢ pos
    → AtMost key (es ++ e ∷ [])
AtMost-snoc key [] e h n = (n, tt)
AtMost-snoc key (x ∷ es) e h n = ((λ p. absurd cc), AtMost-snoc key es e h.1 n)

Below-AtMost : (key : Key) (es : List Entry) → Below key es → AtMost key es
Below-AtMost key [] h = tt
Below-AtMost key (x ∷ es) h = ((λ p. absurd cc), Below-AtMost key es h.1)

resume_lem :
    (go : Cursor → Moved) (d : Cursor) (s : Sign)
    → IsRestored s d
    → resume go is_pos d ≡ (
        if is_pos s
        then some (ok, record d { e_state = valid })
        else go (record d { e_state = valid }))
resume_lem go d neg h = rw (h.0, h.1) refl
resume_lem go d nil h = rw h refl
resume_lem go d pos h = rw (h.0, h.1) refl

btree_next_lem :
    (go : Cursor → Moved) (bt : BtShared) (c d : Cursor) (key : Key)
    → IsSaved key c
    → restore_cursor_position bt c ≡ some (ok, d)
    → btree_next go bt c ≡ resume (advance go bt) is_pos d
unfolding btree_next
btree_next_lem go bt c d key s run = rw (ap is_valid s.state, run) refl

next_loop-saved :
    (fuel : ℕ) (bt : BtShared) (c : Cursor)
    → is_valid c.e_state ≡ false
    → next_loop (suc fuel) bt c ≡ btree_next (next_loop fuel bt) bt (plain c)
unfolding next_loop
next_loop-saved fuel bt c h = rw h refl

module _ (bt : BtShared) (key : Key) (es : List Entry) (m : Moved) (t : RestoresTo bt key es) where
  -- The entry is at most the key: a step leads on.
  steps_on :
      m ≡ advance (next_loop 21 bt) bt (record t.there { e_state = valid })
      → lex t.e.0 key ≢ pos
      → StepsAbove bt key es m
  steps_on run n = record {
    lo = t.before ++ t.e ∷ [];
    hi = t.after;
    whole_eq = t.whole_eq ∙ sym (append_assoc t.before (t.e ∷ []) t.after);
    at_most = AtMost-snoc key t.before t.e t.below n;
    above = t.above;
    outcome = NextIs-ContinuesAt bt t.before t.e t.after m (
        subst (NextIs bt t.before t.e t.after) (sym run)
          (advance_lem bt (record t.there { e_state = valid }) t.before t.e t.after t.place));
  }

  -- The entry is above the key: the restore has skipped the step.
  steps_not :
      m ≡ some (ok, record t.there { e_state = valid })
      → lex t.e.0 key ≡ pos
      → StepsAbove bt key es m
  steps_not run h = record {
    lo = t.before;
    hi = t.e ∷ t.after;
    whole_eq = t.whole_eq;
    at_most = Below-AtMost key t.before t.below;
    above = (h, t.above);
    outcome = (record t.there { e_state = valid }, run, t.place);
  }

  steps_by_sign :
      (s : Sign)
      → lex t.e.0 key ≡ s
      → m ≡ (
          if is_pos s
          then some (ok, record t.there { e_state = valid })
          else advance (next_loop 21 bt) bt (record t.there { e_state = valid }))
      → StepsAbove bt key es m
  steps_by_sign neg h run = steps_on run (λ p. absurd cc)
  steps_by_sign nil h run = steps_on run (λ p. absurd cc)
  steps_by_sign pos h run = steps_not run h

-- The key of a cursor was saved before other writes, in the state CURSOR_REQUIRESEEK with skipNext
-- 0. On the well-formed tree lower than 20 levels that is there afterwards, whether the key is
-- still stored or not, sqlite3BtreeNext goes to the first entry above the key with SQLITE_OK, or,
-- if there is none, returns SQLITE_DONE and leaves the cursor invalid.
pub next-StepsAbove :
    (bt : BtShared) (h : ℕ) (root : MemPage) (es : List Entry) (c : Cursor) (key : Key)
    → IsOpen bt h root es c
    → IsSaved key c
    → StepsAbove bt key es (next bt c)
unfolding next
next-StepsAbove bt h root es c key o s =
    let p = plain c in
    let s' : IsSaved key p = record { state = s.state; saved = s.saved; skip = s.skip } in
    let o' : IsOpen bt h root es p = record {
      numbered = o.numbered;
      got = o.got;
      node = o.node;
      height = o.height;
      ready = o.ready;
    } in
    let (t, run) = restore_cursor_position-RestoresTo bt h root es p key o' s' in
    steps_by_sign bt key es (next bt c) t (lex t.e.0 key) refl (
      next_loop-saved 21 bt c (ap is_valid s.state)
      ∙ btree_next_lem (next_loop 21 bt) bt p t.there key s' run
      ∙ resume_lem (advance (next_loop 21 bt) bt) t.there (lex t.e.0 key) t.state)
