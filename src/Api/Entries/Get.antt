-- ===== src/Api/Entries/Get.antt =====
-- btreelite_get (src/btreelite_api.c) on a well-formed tree.
use litebtree.Base.{
  ℕ, ◌≡◌, ◌≤◌, refl, sym, ap, subst, ◌∙◌, false, none, some, Option, List, [], ◌∷◌, map, All,
  length, take, Rc, ok, notfound, if◌then◌else◌,
}
use litebtree.Api.Entries.{
  KeyArg, bytes, checked_moveto, get_placed, btreelite_get, btreelite_value_size, btreelite_eof,
  btreelite_key, parsed,
}
use litebtree.Api.Entries.Check.{checked_moveto-bytes}
use litebtree.Base.Ints.{ℤ, to_u32}
use litebtree.Btree.Cursor.Seek.{Placed, is_nil}
use litebtree.Btree.Cursor.{BtShared, Cursor, valid}
use litebtree.Btree.Key.{Key, Sign, neg, nil, pos, lex, lex_eq}
use litebtree.Btree.Page.{MemPage, find_cell, key_at}
use litebtree.Btree.Tree.Lookup.{lookup, hit, Landed-answer, Landed-IsOpen}
use litebtree.Btree.Tree.Serve.{IsSettled, settled-Landed, Landed-IsSettled}
use litebtree.Btree.Tree.Moveto.{IsOpen}
use litebtree.Btree.Tree.{Entry}
use mathlib.Core.Option

-- What a call with a result and a cursor reports of a key, by what is stored under it: the cursor
-- then stands on an entry with this key and value, and btreelite_key and btreelite_value_size say so.
abbrev pub Reports : Key → Option (List ℕ) → Rc × Cursor → Type 0
Reports key none r = r.0 ≡ notfound
Reports key (some v) r =
    (r.0 ≡ ok)
    × ((find_cell r.1.page r.1.ix).value ≡ v)
    × (btreelite_value_size (some r.1) ≡ (ok, length v, some (parsed r.1)))
    × ((n_max : ℤ)
        → btreelite_key (some r.1) n_max
          ≡ (ok, length key, take (to_u32 n_max) key, some (parsed r.1)))

btreelite_value_size_lem :
    (c : Cursor)
    → c.e_state ≡ valid
    → btreelite_value_size (some c) ≡ (ok, length (find_cell c.page c.ix).value, some (parsed c))
unfolding btreelite_value_size btreelite_eof
btreelite_value_size_lem c h = rw h refl

btreelite_key_lem :
    (c : Cursor) (key : Key) (n_max : ℤ)
    → c.e_state ≡ valid
    → key_at c.page c.ix ≡ key
    → btreelite_key (some c) n_max ≡ (ok, length key, take (to_u32 n_max) key, some (parsed c))
unfolding btreelite_key btreelite_eof
btreelite_key_lem c key n_max h e = rw (h, e) refl

-- The result of btreelite_get behind a moveto that has succeeded.
abbrev found_or_not : Sign → Rc
found_or_not s = if is_nil s then ok else notfound

Reports-sign :
    (s : Sign) (c : Cursor) (key : Key)
    → c.e_state ≡ valid
    → lex (key_at c.page c.ix) key ≡ s
    → Reports key (hit s (find_cell c.page c.ix).value) (found_or_not s, c)
Reports-sign neg c key h e = refl
Reports-sign nil c key h e = (
  refl,
  refl,
  btreelite_value_size_lem c h,
  λ n_max. btreelite_key_lem c key n_max h (lex_eq _ key e),
)
Reports-sign pos c key h e = refl

get_placed_lem :
    (r : Placed) → r.rc ≡ ok → get_placed (some r) ≡ some (found_or_not r.res, r.cursor)
unfolding get_placed
get_placed_lem r h = rw h refl

btreelite_get_lem :
    (bt : BtShared) (c : Cursor) (k : KeyArg) (r : Rc × Cursor)
    → get_placed (checked_moveto bt c k nil) ≡ some r
    → btreelite_get bt (some c) k ≡ some (r.0, some r.1)
unfolding btreelite_get
btreelite_get_lem bt c k r h = rw h refl

pub btreelite_get-lookup :
    (bt : BtShared) (h : ℕ) (root : MemPage) (es : List Entry) (c : Cursor) (key : Key)
    → IsOpen bt h root es c
    → IsSettled bt es c
    → length key ≤ 255
    → (r : Rc × Cursor) × (btreelite_get bt (some c) (bytes key) ≡ some (r.0, some r.1))
      × Reports key (lookup key es) r
      × IsOpen bt h root es r.1
      × IsSettled bt es r.1
btreelite_get-lookup bt h root es c key o s short =
    let m = settled-Landed bt h root es c key false nil o s in
    let p = m.landed in
    (
      (found_or_not p.res, p.cursor),
      btreelite_get_lem bt c (bytes key) _
          (ap get_placed (checked_moveto-bytes bt c key nil short ∙ m.run) ∙ get_placed_lem p m.rc),
      subst (λ v. Reports key v (found_or_not p.res, p.cursor))
          (Landed-answer bt (c.pgno_root, root) key es _ m)
          (Reports-sign p.res p.cursor key m.place.is_valid
            (ap (λ e. lex e.0 key) (sym m.place.entry_eq) ∙ m.sign)),
      Landed-IsOpen bt h root key es c _ o m,
      Landed-IsSettled bt (c.pgno_root, root) key es _ m,
    )

-- What a client sees of a call of btreelite_get: a value or that there is none; `none` for an error.
abbrev seen : Rc × Option Cursor → Option (Option (List ℕ))
seen (ok, some c) = some (some (find_cell c.page c.ix).value)
seen (notfound, h) = some none
seen _ = none

abbrev then_see :
    (Option Cursor → Option (List (Option (List ℕ))))
    → Option (Rc × Option Cursor)
    → Option (List (Option (List ℕ)))
then_see go none = none
then_see go (some r) = elim (seen r) [ none ↦ none | some v ↦ Option.map (λ vs. v ∷ vs) (go r.1) ]

-- A client that asks for one key after the other with the same cursor.
unfoldable pub get_all : BtShared → Option Cursor → List Key → Option (List (Option (List ℕ)))
unfolding btreelite_get
get_all bt h [] = some []
get_all bt h (k ∷ ks) = then_see (λ h'. get_all bt h' ks) (btreelite_get bt h (bytes k))

seen-Reports :
    (key : Key) (found : Option (List ℕ)) (r : Rc × Cursor)
    → Reports key found r
    → seen (r.0, some r.1) ≡ some found
seen-Reports key none r h = rw h refl
seen-Reports key (some v) r h = rw (h.0, h.1) refl

get_all-step :
    (bt : BtShared) (h : Option Cursor) (k : Key) (ks : List Key) (r : Rc × Option Cursor)
    (v : Option (List ℕ)) (vs : List (Option (List ℕ)))
    → btreelite_get bt h (bytes k) ≡ some r
    → seen r ≡ some v
    → get_all bt r.1 ks ≡ some vs
    → get_all bt h (k ∷ ks) ≡ some (v ∷ vs)
unfolding get_all
get_all-step bt h k ks r v vs run s rest = rw (run, then_see, s, rest) refl

-- On a well-formed tree lower than 20 levels, from an open cursor that is not valid or stands on
-- an entry, any sequence of calls of btreelite_get with the same cursor and keys of at most 255
-- bytes gives, for each key, the value that the contents hold under it, or BTREELITE_NOTFOUND
-- where there is none.
pub get_all-lookup :
    (bt : BtShared) (h : ℕ) (root : MemPage) (es : List Entry) (keys : List Key) (c : Cursor)
    → IsOpen bt h root es c
    → IsSettled bt es c
    → All (λ k. length k ≤ 255) keys
    → get_all bt (some c) keys ≡ some (map (λ k. lookup k es) keys)
unfolding get_all
get_all-lookup bt h root es [] c o s short = refl
get_all-lookup bt h root es (k ∷ ks) c o s short =
    let (r, run, reports, open', settled) = btreelite_get-lookup bt h root es c k o s short.0 in
    get_all-step bt (some c) k ks (r.0, some r.1) _ _ run (seen-Reports k _ r reports)
      (get_all-lookup bt h root es ks r.1 open' settled short.1)
