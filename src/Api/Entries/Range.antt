-- ===== src/Api/Entries/Range.antt =====
-- The scan of a range: btreelite_seek (src/btreelite_api.c), and btreelite_next until
-- btreelite_eof.
use litebtree.Base.{
  ℕ, zero, suc, ◌≡◌, ◌≢◌, ◌<◌, ◌≤◌, refl, sym, ap, subst, ◌∙◌, true, false, Bool, none, some,
  Option, List, [], ◌∷◌, ◌++◌, length, arith, Rc, ok, done, is_ok, if◌then◌else◌,
}
use litebtree.Api.Entries.{KeyArg, bytes, is_neg, btreelite_seek, btreelite_next, btreelite_eof}
use litebtree.Btree.Cursor.Step.{next}
use litebtree.Btree.Cursor.{BtShared, Cursor, invalid, valid}
use litebtree.Btree.Key.{Key, Sign, neg, nil, pos, lex}
use litebtree.Btree.Page.{MemPage, find_cell}
use litebtree.Btree.Tree.Moveto.{IsOpen}
use litebtree.Btree.Tree.Serve.{IsSettled}
use litebtree.Btree.Tree.Scan.{next_lem}
use litebtree.Btree.Tree.{Entry, entry, Below}
use mathlib.Core.Option
use litebtree.Api.Entries.Seek.{StandsBefore, NotBelow, btreelite_seek-SeeksTo}

-- The entries that are not below a key.
unfoldable pub at_least : Key → List Entry → List Entry
at_least key [] = []
at_least key (e ∷ es) =
    let rest = at_least key es in if is_neg (lex e.0 key) then rest else e ∷ rest

at_least-Below :
    (key : Key) (es rest : List Entry)
    → Below key es
    → at_least key (es ++ rest) ≡ at_least key rest
unfolding at_least
at_least-Below key [] rest h = refl
at_least-Below key (e ∷ es) rest h = rw (h.0) (at_least-Below key es rest h.1)

is_neg-false : (s : Sign) → s ≢ neg → is_neg s ≡ false
is_neg-false neg n = absurd (n refl)
is_neg-false nil n = refl
is_neg-false pos n = refl

at_least-NotBelow : (key : Key) (es : List Entry) → NotBelow key es → at_least key es ≡ es
unfolding at_least
at_least-NotBelow key [] h = refl
at_least-NotBelow key (e ∷ es) h =
    rw (is_neg-false (lex e.0 key) h.0) (ap (λ zs. e ∷ zs) (at_least-NotBelow key es h.1))

-- The loop of a client: the entry at the cursor, then btreelite_next, until btreelite_eof; `none`
-- after an error.
abbrev current : Cursor → Entry
current c = entry (find_cell c.page c.ix)

abbrev goes_on : Rc → Bool
goes_on done = true
goes_on rc = is_ok rc

abbrev read_on :
    (Option Cursor → Option (List Entry)) → Option (Rc × Option Cursor) → Option (List Entry)
read_on go none = none
read_on go (some (rc, h)) = if goes_on rc then go h else none

unfoldable pub read_to_end : ℕ → BtShared → Option Cursor → Option (List Entry)
unfolding btreelite_next btreelite_eof
read_to_end zero bt h = none
read_to_end (suc fuel) bt none = some []
read_to_end (suc fuel) bt (some c) =
    if btreelite_eof (some c)
    then some []
    else Option.map (λ es. current c ∷ es)
        (read_on (λ h. read_to_end fuel bt h) (btreelite_next bt (some c)))

read_to_end-off :
    (fuel : ℕ) (bt : BtShared) (c : Cursor)
    → c.e_state ≡ invalid
    → read_to_end (suc fuel) bt (some c) ≡ some []
unfolding read_to_end btreelite_eof
read_to_end-off fuel bt c h = rw h refl

read_to_end-step :
    (fuel : ℕ) (bt : BtShared) (c : Cursor) (d : Cursor) (rc : Rc) (es : List Entry)
    → c.e_state ≡ valid
    → next bt c ≡ some (rc, d)
    → goes_on rc ≡ true
    → read_to_end fuel bt (some d) ≡ some es
    → read_to_end (suc fuel) bt (some c) ≡ some (current c ∷ es)
unfolding read_to_end btreelite_eof btreelite_next
read_to_end-step fuel bt c d rc es v n g h = rw (n, v, g, h) refl

read_to_end_lem :
    (rest : List Entry) (fuel : ℕ) (bt : BtShared) (c : Cursor) (before : List Entry)
    → StandsBefore bt before rest c
    → length rest < fuel
    → read_to_end fuel bt (some c) ≡ some rest
read_to_end_lem rest zero bt c before st h = absurd (omega arith)
read_to_end_lem [] (suc fuel) bt c before st h = read_to_end-off fuel bt c st
read_to_end_lem (e ∷ []) (suc zero) bt c before st h = absurd (omega (arith, h))
read_to_end_lem (e ∷ []) (suc (suc fuel)) bt c before at' h =
    let (d, run, off) = next_lem bt c before e [] at' in
    read_to_end-step (suc fuel) bt c d done [] at'.is_valid run refl (read_to_end-off fuel bt d off)
    ∙ ap (λ x. some (x ∷ [])) (sym at'.entry_eq)
read_to_end_lem (e ∷ x ∷ after) (suc fuel) bt c before at' h =
    let (d, run, there) = next_lem bt c before e (x ∷ after) at' in
    read_to_end-step fuel bt c d ok (x ∷ after) at'.is_valid run refl
      (read_to_end_lem (x ∷ after) fuel bt d (before ++ e ∷ []) there (omega (arith, h)))
    ∙ ap (λ y. some (y ∷ x ∷ after)) (sym at'.entry_eq)

-- The scan of a range: btreelite_seek, then the loop.
unfoldable pub scan_range : ℕ → BtShared → Option Cursor → KeyArg → Option (List Entry)
unfolding read_to_end btreelite_seek
scan_range fuel bt h k = read_on (λ h'. read_to_end fuel bt h') (btreelite_seek bt h k)

length-++-right : (xs ys : List Entry) (n : ℕ) → length (xs ++ ys) < n → length ys < n
length-++-right [] ys n h = h
length-++-right (x ∷ xs) ys n h = length-++-right xs ys n (omega (arith, h))

scan_range_lem :
    (fuel : ℕ) (bt : BtShared) (h : Option Cursor) (k : KeyArg) (c : Cursor) (es : List Entry)
    → btreelite_seek bt h k ≡ some (ok, some c)
    → read_to_end fuel bt (some c) ≡ some es
    → scan_range fuel bt h k ≡ some es
unfolding scan_range
scan_range_lem fuel bt h k c es run eq = rw (run, eq) refl

-- On a well-formed tree lower than 20 levels, from an open cursor that is not valid or stands on
-- an entry, btreelite_seek to a key of at most 255 bytes and then btreelite_next until
-- btreelite_eof gives exactly the entries whose keys are not below that key, each once and in
-- order, for any bound on the steps that is above the number of entries.
pub scan_range-at_least :
    (bt : BtShared) (h : ℕ) (root : MemPage) (es : List Entry) (c : Cursor) (key : Key) (fuel : ℕ)
    → IsOpen bt h root es c
    → IsSettled bt es c
    → length key ≤ 255
    → length es < fuel
    → scan_range fuel bt (some c) (bytes key) ≡ some (at_least key es)
scan_range-at_least bt h root es c key fuel o s short enough =
    let (t, run) = btreelite_seek-SeeksTo bt h root es c key o s short in
    scan_range_lem fuel bt (some c) (bytes key) t.there t.rest run (
      read_to_end_lem t.rest fuel bt t.there t.before t.stands
        (length-++-right t.before t.rest fuel (subst (λ zs. length zs < fuel) t.whole_eq enough)))
    ∙ ap some (
        sym (
          ap (at_least key) t.whole_eq
          ∙ at_least-Below key t.before t.rest t.below
          ∙ at_least-NotBelow key t.rest t.not_below))
