-- ===== src/Btree/Tree/First.antt =====
-- sqlite3BtreeFirst (src/btree.c), and a scan: from the first entry with sqlite3BtreeNext up to
-- SQLITE_DONE, the loop that a client of the library writes.
use litebtree.Base.{
  is_ok, ℕ, zero, suc, ◌+◌, ◌≤◌, ◌<◌, ◌≡◌, refl, ap, ◌∙◌, sym, subst, false, Bool, none, some,
  Option, List, [], ◌∷◌, ◌++◌, length, arith, ok, done, Rc, if◌then◌else◌,
}
use litebtree.Btree.Cursor.Seek.{Sought, sought, seek_end, first}
use litebtree.Btree.Cursor.Step.{next}
use litebtree.Btree.Cursor.{BtShared, Cursor, Moved, move_to_leftmost}
use litebtree.Btree.Page.{MemPage, find_cell}
use litebtree.Btree.Tree.Enter.{leftmost_loop-IsFirst}
use litebtree.Btree.Tree.Moveto.{IsOpen, open_root_run}
use litebtree.Btree.Tree.Scan.{next_lem}
use litebtree.Btree.Tree.{Entry, entry, Node, Ancestors, IsAt, IsAt-cast}
use mathlib.Core.Option
use mathlib.Core.List.{append-nil}

-- The seek has ended on the first of the entries.
pub record FindsFirst (bt : BtShared) (es : List Entry) (r : Option Sought) : Type 0 where
  pub there : Cursor
  pub run : r ≡ some (sought false (ok, there))
  pub e : Entry
  pub rest : List Entry
  pub whole : es ≡ e ∷ rest
  pub place : IsAt bt there [] e rest

seek_end_lem :
    (down : Cursor → Moved) (r : Rc × Cursor) (c d : Cursor) (res : Bool)
    → r ≡ (ok, c)
    → down c ≡ some (ok, d)
    → seek_end down r res ≡ some (sought false (ok, d))
seek_end_lem down r c d res e f = rw (e, f)

-- On a well-formed tree with entries, lower than 20 levels, sqlite3BtreeFirst from any open cursor
-- ends with SQLITE_OK and *pRes 0, and stands on the first entry.
pub first_lem :
    (bt : BtShared) (h : ℕ) (root : MemPage) (es : List Entry) (c : Cursor) (res : Bool)
    → IsOpen bt h root es c
    → FindsFirst bt es (first bt c res)
unfolding first move_to_leftmost
first_lem bt h root es c res o =
    let a = open_root_run bt h root es c o in
    let d = a.there in
    let f =
      leftmost_loop-IsFirst bt h 19 d es [] [] (omega (arith, o.height))
        (subst (λ p. Node bt h p es) (sym a.page) o.node)
        (record {
          is_valid = a.is_valid;
          is_loaded = a.is_loaded;
          int_key = a.int_key;
          depth = subst (λ ps. length ps + h < 20) (sym a.parents) (omega (arith, o.height));
          path = subst (λ ps. Ancestors bt h ps es [] []) (sym a.parents) (refl, refl);
        }) in
    record {
      there = f.there;
      run =
          seek_end_lem (move_to_leftmost bt) _ d f.there res a.run
            (ap (λ i. move_to_leftmost bt (record d { ix = i })) a.index ∙ f.run);
      e = f.e;
      rest = f.rest;
      whole = f.whole;
      place = IsAt-cast bt f.there refl (sym (append-nil f.rest)) f.place;
    }

-- The entry under the cursor.
abbrev current : Cursor → Entry
current c = entry (find_cell c.page c.ix)

-- The loop: the entry at the cursor, then a step, until SQLITE_DONE; `none` after an error.
scan_on : (Cursor → Option (List Entry)) → Entry → Moved → Option (List Entry)
scan_on go e (some (done, d)) = some (e ∷ [])
scan_on go e (some (ok, d)) = Option.map (λ es. e ∷ es) (go d)
scan_on go e _ = none

scan_from : ℕ → BtShared → Cursor → Option (List Entry)
unfolding scan_on
scan_from zero bt c = none
scan_from (suc fuel) bt c = scan_on (λ d. scan_from fuel bt d) (current c) (next bt c)

scan_sought : ℕ → BtShared → Option Sought → Option (List Entry)
scan_sought fuel bt none = none
scan_sought fuel bt (some r) =
    if is_ok r.rc then if r.res then some [] else scan_from fuel bt r.cursor else none

unfoldable pub scan : ℕ → BtShared → Cursor → Option (List Entry)
unfolding scan_from scan_sought
scan fuel bt c = scan_sought fuel bt (first bt c false)

scan_from_lem :
    (after : List Entry) (fuel : ℕ) (bt : BtShared) (c : Cursor) (before : List Entry) (e : Entry)
    → IsAt bt c before e after
    → length after < fuel
    → scan_from fuel bt c ≡ some (e ∷ after)
unfolding scan_from
scan_from_lem after zero bt c before e at' h = absurd (omega arith)
scan_from_lem [] (suc fuel) bt c before e at' h =
    let (d, run, off) = next_lem bt c before e [] at' in
    rw (run, scan_on) (ap (λ x. some (x ∷ [])) (sym at'.entry_eq))
scan_from_lem (x ∷ after) (suc fuel) bt c before e at' h =
    let (d, run, there) = next_lem bt c before e (x ∷ after) at' in
    rw (run, scan_on, scan_from_lem after fuel bt d (before ++ e ∷ []) x there (omega (arith, h)))
      (ap (λ y. some (y ∷ x ∷ after)) (sym at'.entry_eq))

-- On a well-formed tree lower than 20 levels, sqlite3BtreeFirst from an open cursor and then
-- sqlite3BtreeNext until SQLITE_DONE gives all entries, each once and in the order of the tree,
-- for any bound on the steps that is at least their number.
pub scan_lem :
    (bt : BtShared) (h : ℕ) (root : MemPage) (es : List Entry) (c : Cursor) (fuel : ℕ)
    → IsOpen bt h root es c
    → length es ≤ fuel
    → scan fuel bt c ≡ some es
unfolding scan
scan_lem bt h root es c fuel o hf =
    let f = first_lem bt h root es c false o in
    rw
      (
        f.run,
        scan_from_lem f.rest fuel bt f.there [] f.e f.place
            (subst (λ zs. length zs ≤ fuel) f.whole hf),
      )
      (ap some (sym f.whole))
