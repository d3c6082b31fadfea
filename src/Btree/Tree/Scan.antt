-- ===== src/Btree/Tree/Scan.antt =====
-- A step with sqlite3BtreeNext from any entry, sqlite3BtreeFirst, and a scan of a whole tree.
use litebtree.Base.{
  ℕ, zero, suc, ◌≤◌, ◌<◌, ◌≡◌, refl, ap, ◌∙◌, sym, false, subst, Bool-cases, leb, some, List, [],
  ◌∷◌, ◌++◌, map, take, drop, get_or, length, arith, inl, inr, ok, done,
}
use litebtree.Btree.Cursor.Step.{next, next_loop, advance}
use litebtree.Btree.Cursor.{BtShared, Cursor, Moved, invalid}
use litebtree.Btree.Page.{Cell, no_cell, n_cell}
use litebtree.Btree.Tree.Climb.{climb_next_lem}
use litebtree.Btree.Tree.Next.{
  plain, raised, next_within, next_slow, advance_inside, advance_off, advance_up, next-HasClimbed,
}
use litebtree.Btree.Tree.{Entry, entry, IsAt, IsAt-cast, IsAt-settled}
use mathlib.Core.List.{append_assoc}

-- The outcome of a step, by what stands to the right.
abbrev pub NextIs : BtShared → List Entry → Entry → List Entry → Moved → Type 0
NextIs bt before e [] m = (d : Cursor) × (m ≡ some (done, d)) × (d.e_state ≡ invalid)
NextIs bt before e (x ∷ after) m =
    (d : Cursor) × (m ≡ some (ok, d)) × IsAt bt d (before ++ e ∷ []) x after

NextIs-cast :
    (bt : BtShared) (before : List Entry) (e : Entry) (m : Moved) {a a' : List Entry}
    → a ≡ a'
    → NextIs bt before e a' m
    → NextIs bt before e a m
NextIs-cast bt before e m p h = subst (λ zs. NextIs bt before e zs m) (sym p) h

drop_step :
    (cs : List Cell) (i : ℕ)
    → i < length cs
    → map entry (drop i cs) ≡ entry (get_or cs i no_cell) ∷ map entry (drop (suc i) cs)
drop_step [] i h = absurd (omega arith)
drop_step (c ∷ cs) zero h = refl
drop_step (c ∷ cs) (suc i) h = drop_step cs i (omega arith)

take_step :
    (cs : List Cell) (i : ℕ)
    → i < length cs
    → map entry (take (suc i) cs) ≡ map entry (take i cs) ++ entry (get_or cs i no_cell) ∷ []
take_step [] i h = absurd (omega arith)
take_step (c ∷ cs) zero h = refl
take_step (c ∷ cs) (suc i) h = ap (λ zs. entry c ∷ zs) (take_step cs i (omega arith))

take_all : (cs : List Cell) (i : ℕ) → length cs ≤ i → map entry (take i cs) ≡ map entry cs
take_all [] zero h = refl
take_all [] (suc i) h = refl
take_all (c ∷ cs) zero h = absurd (omega arith)
take_all (c ∷ cs) (suc i) h = ap (λ zs. entry c ∷ zs) (take_all cs i (omega arith))

drop_all : (cs : List Cell) (i : ℕ) → length cs ≤ i → map entry (drop i cs) ≡ []
drop_all [] zero h = refl
drop_all [] (suc i) h = refl
drop_all (c ∷ cs) zero h = absurd (omega arith)
drop_all (c ∷ cs) (suc i) h = drop_all cs i (omega arith)

module _ (bt : BtShared) (c : Cursor) (before : List Entry) (e : Entry) (after : List Entry)
    (at' : IsAt bt c before e after) where
  before_step : before ++ e ∷ [] ≡ at'.left ++ map entry (take (suc c.ix) c.page.cells)
  before_step =
      let b = map entry (take c.ix c.page.cells) in
      ap (λ zs. zs ++ e ∷ []) at'.before_eq
      ∙ ap (λ x. (at'.left ++ b) ++ x ∷ []) at'.entry_eq
      ∙ append_assoc at'.left b _
      ∙ ap (λ zs. at'.left ++ zs) (sym (take_step c.page.cells c.ix at'.in_page))

  -- The next cell of the same leaf.
  within :
      (m : Moved)
      → suc c.ix < n_cell c.page
      → m ≡ some (ok, record c { ix = suc c.ix })
      → NextIs bt before e after m
  within m h run =
      let cs = c.page.cells in
      NextIs-cast bt before e _
        (at'.after_eq ∙ ap (λ zs. zs ++ at'.right) (drop_step cs (suc c.ix) h))
        (
          record c { ix = suc c.ix },
          run,
          record {
            is_valid = at'.is_valid;
            is_loaded = at'.is_loaded;
            int_key = at'.int_key;
            on_leaf = at'.on_leaf;
            in_page = h;
            depth = at'.depth;
            left = at'.left;
            right = at'.right;
            path = at'.path;
            before_eq = before_step;
            entry_eq = refl;
            after_eq = refl;
          },
        )

  -- From the last cell of a leaf, up and down again.
  across : n_cell c.page ≤ suc c.ix → NextIs bt before e after (advance (next_loop 21 bt) bt c)
  across h =
      let cs = c.page.cells in
      let right_eq : after ≡ at'.right =
        at'.after_eq ∙ ap (λ zs. zs ++ at'.right) (drop_all cs (suc c.ix) h) in
      elim (climb_next_lem bt c.parents 0 (raised c) (map entry cs) at'.left at'.right refl
        at'.is_valid at'.is_loaded at'.int_key (omega (arith, at'.depth)) at'.path) [
          | inl l ↦ NextIs-cast bt before e _ (right_eq ∙ l.nothing) (
            record l.end { e_state = invalid },
            advance_off (next_loop 21 bt) bt c (omega arith) l.end at'.on_leaf l.run,
            refl,
          )
          | inr t ↦
              let n = next-HasClimbed 20 bt (map entry cs) at'.left at'.right _ t in
              let f = n.first in
              NextIs-cast bt before e _ (right_eq ∙ n.whole ∙ ap (λ zs. zs ++ n.rest) f.whole) (
                f.there,
                advance_up (next_loop 21 bt) bt c (omega arith) t.top at'.on_leaf t.int_key t.run
                    ∙ f.run,
                IsAt-cast bt f.there
                    (before_step ∙ ap (λ zs. at'.left ++ zs) (take_all cs (suc c.ix) h)) refl
                    f.place,
              )
        ]

  -- btreeNext behind its restore.
  pub advance_lem : NextIs bt before e after (advance (next_loop 21 bt) bt c)
  advance_lem = elim (Bool-cases (leb (n_cell c.page) (suc c.ix))) [
    | inl h ↦ across (ground arith)
    | inr h ↦
        within _ (ground arith) (advance_inside (next_loop 21 bt) bt c (ground arith) at'.on_leaf)
  ]

module _ (bt : BtShared) (c : Cursor) (before : List Entry) (e : Entry) (after : List Entry)
    (at' : IsAt bt c before e after) where
  -- From any entry of a well-formed tree sqlite3BtreeNext ends: with an entry to the right it
  -- returns SQLITE_OK and stands on that entry, with none it returns SQLITE_DONE and leaves the
  -- cursor invalid.
  pub next_lem : NextIs bt before e after (next bt c)
  unfolding next
  next_lem =
      let plain_at =
        subst (λ k. IsAt bt (record (plain c) { e_state = k }) before e after) (sym at'.is_valid)
          (IsAt-settled bt c before e after c.skip c.saved_key false at') in
      elim (Bool-cases (leb (n_cell c.page) (suc c.ix))) [
        | inl h ↦
            subst (NextIs bt before e after) (sym (next_slow 21 bt c at'.is_valid (ground arith)))
              (advance_lem bt (plain c) before e after plain_at)
        | inr h ↦
            within bt (plain c) before e after plain_at _ (ground arith)
              (next_within 21 bt c at'.is_valid (ground arith) at'.on_leaf)
      ]
