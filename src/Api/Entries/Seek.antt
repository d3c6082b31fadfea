-- ===== src/Api/Entries/Seek.antt =====
-- btreelite_seek (src/btreelite_api.c) on a well-formed tree.
use litebtree.Base.{
  ℕ, ◌≡◌, ◌≢◌, ◌≤◌, refl, sym, ap, ◌∙◌, true, false, some, Option, List, [], ◌∷◌, ◌++◌, length, All,
  Rc, ok, done,
}
use litebtree.Api.Entries.{
  KeyArg, bytes, checked_moveto, is_neg, ok_if_done, seek_placed, btreelite_seek,
}
use litebtree.Api.Entries.Check.{checked_moveto-bytes}
use litebtree.Btree.Cursor.Seek.{Placed}
use litebtree.Btree.Cursor.Step.{next}
use litebtree.Btree.Cursor.{BtShared, Cursor, Moved, invalid}
use litebtree.Btree.Key.{Key, Sign, neg, nil, pos, lex}
use litebtree.Btree.Page.{MemPage}
use litebtree.Btree.Tree.Descend.{Landed}
use litebtree.Btree.Tree.Moveto.{IsOpen}
use litebtree.Btree.Tree.Serve.{IsSettled, settled-Landed}
use litebtree.Btree.Tree.Scan.{NextIs, next_lem}
use litebtree.Btree.Tree.{Entry, Below, Above, IsAt}
use mathlib.Core.List.{append_assoc}

-- The cursor stands on the first of the entries that are left, or has run off the end.
abbrev pub StandsBefore : BtShared → List Entry → List Entry → Cursor → Type 0
StandsBefore bt before [] c = c.e_state ≡ invalid
StandsBefore bt before (e ∷ after) c = IsAt bt c before e after

abbrev pub NotBelow : Key → List Entry → Type 0
NotBelow k = All (λ e. lex e.0 k ≢ neg)

-- A cursor between the entries with smaller keys and the others.
pub record SeeksTo (bt : BtShared) (key : Key) (es : List Entry) : Type 0 where
  pub there : Cursor
  pub before : List Entry
  pub rest : List Entry
  pub whole_eq : es ≡ before ++ rest
  pub below : Below key before
  pub not_below : NotBelow key rest
  pub stands : StandsBefore bt before rest there

Above-NotBelow : (key : Key) (es : List Entry) → Above key es → NotBelow key es
Above-NotBelow key [] h = tt
Above-NotBelow key (e ∷ es) h = ((λ n. absurd cc), Above-NotBelow key es h.1)

Below-snoc :
    (key : Key) (es : List Entry) (e : Entry)
    → Below key es
    → lex e.0 key ≡ neg
    → Below key (es ++ e ∷ [])
Below-snoc key [] e h n = (n, tt)
Below-snoc key (x ∷ es) e h n = (h.0, Below-snoc key es e h.1 n)

seek_placed-stay :
    (bt : BtShared) (r : Placed)
    → r.rc ≡ ok
    → is_neg r.res ≡ false
    → seek_placed bt (some r) ≡ some (ok, r.cursor)
unfolding seek_placed
seek_placed-stay bt r h n = rw (h, n) refl

seek_placed-next :
    (bt : BtShared) (r : Placed) (x : Rc × Cursor)
    → r.rc ≡ ok
    → is_neg r.res ≡ true
    → next bt r.cursor ≡ some x
    → seek_placed bt (some r) ≡ some (ok_if_done x)
unfolding seek_placed
seek_placed-next bt r x h n e = rw (h, n, e) refl

module _ (bt : BtShared) (key : Key) (es : List Entry) (root : ℕ × MemPage) (m : Option Placed)
    (l : Landed bt root key es m) where
  -- The entry at the cursor is not below the key: the cursor stays.
  stay : (lex l.e.0 key ≢ neg) → SeeksTo bt key es
  stay n = record {
    there = l.landed.cursor;
    before = l.before;
    rest = l.e ∷ l.after;
    whole_eq = l.whole_eq;
    below = l.below;
    not_below = (n, Above-NotBelow key l.after l.above);
    stands = l.place;
  }

  stepped :
      (d : Cursor)
      → lex l.e.0 key ≡ neg
      → StandsBefore bt (l.before ++ l.e ∷ []) l.after d
      → SeeksTo bt key es
  stepped d n st = record {
    there = d;
    before = l.before ++ l.e ∷ [];
    rest = l.after;
    whole_eq = l.whole_eq ∙ sym (append_assoc l.before (l.e ∷ []) l.after);
    below = Below-snoc key l.before l.e l.below n;
    not_below = Above-NotBelow key l.after l.above;
    stands = st;
  }

  step_result :
      (after : List Entry) (x : Moved)
      → NextIs bt l.before l.e after x
      → (d : Cursor) × (y : Rc × Cursor) × (x ≡ some y)
        × (ok_if_done y ≡ (ok, d))
        × StandsBefore bt (l.before ++ l.e ∷ []) after d
  step_result [] x (d, run, off) = (d, (done, d), run, refl, off)
  step_result (e ∷ after) x (d, run, at') = (d, (ok, d), run, refl, at')

  seek_placed_lem :
      (s : Sign)
      → l.landed.res ≡ s
      → (t : SeeksTo bt key es) × (seek_placed bt (some l.landed) ≡ some (ok, t.there))
  unfolding stepped step_result stay
  seek_placed_lem neg h =
      let (d, y, run, fine, st) =
        step_result l.after _ (next_lem bt l.landed.cursor l.before l.e l.after l.place) in
      (
        stepped d (l.sign ∙ h) st,
        seek_placed-next bt l.landed y l.rc (ap is_neg h) run ∙ ap some fine,
      )
  seek_placed_lem nil h = (stay (λ n. absurd cc), seek_placed-stay bt l.landed l.rc (ap is_neg h))
  seek_placed_lem pos h = (stay (λ n. absurd cc), seek_placed-stay bt l.landed l.rc (ap is_neg h))

btreelite_seek_lem :
    (bt : BtShared) (c d : Cursor) (k : KeyArg)
    → seek_placed bt (checked_moveto bt c k nil) ≡ some (ok, d)
    → btreelite_seek bt (some c) k ≡ some (ok, some d)
unfolding btreelite_seek
btreelite_seek_lem bt c d k h = rw h refl

-- On a well-formed tree lower than 20 levels, from an open cursor that is not valid or stands on
-- an entry, btreelite_seek to a key of at most 255 bytes ends with BTREELITE_OK, and stands on the
-- first entry whose key is not below it, or is invalid if all keys are below it.
pub btreelite_seek-SeeksTo :
    (bt : BtShared) (h : ℕ) (root : MemPage) (es : List Entry) (c : Cursor) (key : Key)
    → IsOpen bt h root es c
    → IsSettled bt es c
    → length key ≤ 255
    → (t : SeeksTo bt key es) × (btreelite_seek bt (some c) (bytes key) ≡ some (ok, some t.there))
btreelite_seek-SeeksTo bt h root es c key o s short =
    let l = settled-Landed bt h root es c key false nil o s in
    let (t, run) = seek_placed_lem bt key es _ _ l l.landed.res refl in
    (
      t,
      btreelite_seek_lem bt c t.there (bytes key)
          (ap (seek_placed bt) (checked_moveto-bytes bt c key nil short ∙ l.run) ∙ run),
    )
