-- ===== src/Btree/Tree/Restore.antt =====
-- A position that was saved before the tree changed: btreeRestoreCursorPosition and the step with
-- sqlite3BtreeNext behind it (src/btree.c).
use litebtree.Base.{
  ℕ, ◌≡◌, refl, ap, sym, subst, ◌∙◌, true, false, Bool, List, ◌∷◌, ◌++◌, Option, some, none, ok,
  inl, inr, if◌then◌else◌,
}
use litebtree.Btree.Cursor.Seek.{
  Placed, kv_moveto, restore_cursor_position, finish_restore, restore_in, restored, key_or_empty,
}
use litebtree.Btree.Cursor.Skip.{Keeps, kv_moveto-Keeps}
use litebtree.Btree.Cursor.{BtShared, Cursor, valid, invalid, require_seek, skip_next}
use litebtree.Btree.Key.{Key, Sign, neg, nil, pos, lex}
use litebtree.Btree.Page.{MemPage}
use litebtree.Btree.Tree.Moveto.{IsOpen}
use litebtree.Btree.Tree.Serve.{settled-Landed}
use litebtree.Btree.Tree.{Entry, Below, Above, IsAt, IsAt-settled}

-- The cursor as saveCursorPosition leaves it: the key is kept and the pages are released.
pub record IsSaved (key : Key) (c : Cursor) : Type 0 where
  pub state : c.e_state ≡ require_seek
  pub saved : c.saved_key ≡ some key
  pub skip : c.skip ≡ nil

-- The cursor that the seek of the restore begins with.
abbrev pub unsaved : Cursor → Cursor
unsaved c = record c { e_state = invalid }

IsOpen-unsaved :
    (bt : BtShared) (h : ℕ) (root : MemPage) (es : List Entry) (c : Cursor)
    → IsOpen bt h root es c
    → IsOpen bt h root es (unsaved c)
IsOpen-unsaved bt h root es c o = record {
  numbered = o.numbered;
  got = o.got;
  node = o.node;
  height = o.height;
  ready = elim o.ready [ inl (l, n) ↦ inl (l, λ f. absurd cc) | inr x ↦ inr x ];
}

finish_restore_lem : (r : Placed) → r.rc ≡ ok → finish_restore (some r) ≡ some (ok, restored r)
unfolding finish_restore
finish_restore_lem r h = rw h refl

restore_run :
    (bt : BtShared) (c : Cursor) (key : Key) (r : Placed)
    → IsSaved key c
    → kv_moveto bt (unsaved c) key false nil ≡ some r
    → r.rc ≡ ok
    → restore_cursor_position bt c ≡ some (ok, restored r)
unfolding restore_cursor_position restore_in
restore_run bt c key r s run rc =
    ap (λ x. restore_in x bt c) s.state
    ∙ ap (λ k. finish_restore (kv_moveto bt (unsaved c) (key_or_empty k) false nil)) s.saved
    ∙ ap finish_restore run
    ∙ finish_restore_lem r rc

-- Where a restored cursor stands, by the sign of the comparison of the entry there with the key.
abbrev pub IsRestored : Sign → Cursor → Type 0
IsRestored nil d = d.e_state ≡ valid
IsRestored s d = (d.e_state ≡ skip_next) × (d.skip ≡ s)

-- A restore has ended on a neighbour of the key.
pub record RestoresTo (bt : BtShared) (key : Key) (es : List Entry) : Type 0 where
  pub there : Cursor
  pub before : List Entry
  pub e : Entry
  pub after : List Entry
  pub whole_eq : es ≡ before ++ e ∷ after
  pub below : Below key before
  pub above : Above key after
  pub place : IsAt bt (record there { e_state = valid }) before e after
  pub state : IsRestored (lex e.0 key) there

restored-IsRestored :
    (r : Placed) (s : Sign)
    → r.res ≡ s
    → r.cursor.e_state ≡ valid
    → r.cursor.skip ≡ nil
    → IsRestored s (restored r)
restored-IsRestored r neg h v k = rw (h, v) (refl, refl)
restored-IsRestored r nil h v k = rw (h, k, v) refl
restored-IsRestored r pos h v k = rw (h, v) (refl, refl)

Keeps-some :
    (s : Sign) (m : Option Placed) (r : Placed) → m ≡ some r → Keeps s m → r.cursor.skip ≡ s
Keeps-some s m r e k = subst (Keeps s) e k

IsAt-if :
    (b : Bool) (bt : BtShared) (c : Cursor) (before : List Entry) (e : Entry) (after : List Entry)
    (x : Sign)
    → IsAt bt c before e after
    → (let d = record c { saved_key = none; skip = x } in
        IsAt bt
          (record (if b then record d { e_state = skip_next } else d) { e_state = valid })
          before
          e
          after)
IsAt-if true bt c before e after x at' = IsAt-settled bt c before e after x none c.valid_n_key at'
IsAt-if false bt c before e after x at' = IsAt-settled bt c before e after x none c.valid_n_key at'

pub restore_cursor_position-RestoresTo :
    (bt : BtShared) (h : ℕ) (root : MemPage) (es : List Entry) (c : Cursor) (key : Key)
    → IsOpen bt h root es c
    → IsSaved key c
    → (t : RestoresTo bt key es) × (restore_cursor_position bt c ≡ some (ok, t.there))
restore_cursor_position-RestoresTo bt h root es c key o s =
    let m =
      settled-Landed bt h root es (unsaved c) key false nil (IsOpen-unsaved bt h root es c o)
        (inl refl) in
    let r = m.landed in
    (
      record {
        there = restored r;
        before = m.before;
        e = m.e;
        after = m.after;
        whole_eq = m.whole_eq;
        below = m.below;
        above = m.above;
        place = IsAt-if _ bt r.cursor m.before m.e m.after _ m.place;
        state =
            restored-IsRestored r (lex m.e.0 key) (sym m.sign) m.place.is_valid
              (Keeps-some c.skip _ r m.run (kv_moveto-Keeps bt (unsaved c) key false nil) ∙ s.skip);
      },
      restore_run bt c key r s m.run m.rc,
    )
