-- ===== src/Pager/Session.antt =====
-- A write transaction as the layers above see it (src/pager.c): a database of pages, and the images
-- of it that the open savepoints restore.
use litebtree.Base.{
  ℕ, suc, ◌+◌, ◌≤◌, ◌≡◌, Bool, true, false, List, [], ◌∷◌, ◌++◌, map, Option, none, some, Rc, is_ok,
  length, take, get_elem?, ltb, if◌then◌else◌,
}
use litebtree.Pager.{
  Savepoint, Pager, content, on_log, put_at, set_content, pager_write, pager_stress,
  pager_open_savepoint, release_savepoint, rollback_savepoint,
}
use litebtree.Pager.State.{Stack}
mod Change
mod Nest
pub mod Run
pub mod Simulate

-- A database: its size and its pages.
pub record Image (D : Type 0) : Type 0 where
  pub size : ℕ
  pub page : ℕ → D

-- The database now, and at each open savepoint, the outermost first.
pub record Spec (D : Type 0) : Type 0 where
  pub now : Image D
  pub saved : List (Image D)

module _ {D : Type 0} where
  abbrev pub written : ℕ → D → Spec D → Spec D
  written pg d sp = record sp {
    now = record {
      size = if ltb sp.now.size pg then pg else sp.now.size;
      page = put_at pg d sp.now.page;
    };
  }

  abbrev pub opened : Spec D → Spec D
  opened sp = record sp { saved = sp.saved ++ (sp.now ∷ []) }

  abbrev pub released : ℕ → Spec D → Spec D
  released i sp = record sp { saved = take i sp.saved }

  abbrev pub rolled_back : ℕ → Spec D → Spec D
  rolled_back i sp = elim (get_elem? sp.saved i) [
    | none ↦ sp
    | some im ↦ record { now = im; saved = take (suc i) sp.saved }
  ]

  -- The pager stands for this database and these images.
  pub record Implements (p : Pager D) (sp : Spec D) : Type 0 where
    pub size : p.db_size ≡ sp.now.size
    pub pages : (x : ℕ) → x ≤ sp.now.size → content p x ≡ sp.now.page x
    pub sizes : map (λ s. s.n_orig) p.savepoints ≡ map (λ im. im.size) sp.saved
    pub stack : Stack p p.savepoints (map (λ im. im.page) sp.saved)

  -- One step: a page is changed, or may not be; the cache spills, loads or drops a page; a savepoint
  -- is opened, released or rolled back.
  pub data Step (p : Pager D) (sp : Spec D) : Pager D → Spec D → Type 0 where
    wrote :
        (io : Rc) (pg : ℕ) (d : D)
        → pg ≤ suc p.db_size
        → is_ok (pager_write io pg p).0 ≡ true
        → Step p sp (set_content pg d (pager_write io pg p).1) (written pg d sp)
    not_wrote :
        (io : Rc) (pg : ℕ)
        → pg ≤ p.db_size
        → is_ok (pager_write io pg p).0 ≡ false
        → Step p sp (pager_write io pg p).1 sp
    spilled :
        (io io_log : Rc) (pg : ℕ) (d : D)
        → p.cache pg ≡ some d
        → Step p sp (pager_stress io io_log pg p).1 sp
    loaded : (pg : ℕ) → Step p sp (set_content pg (content p pg) p) sp
    dropped :
        (pg : ℕ)
        → p.cache pg ≡ some (on_log p pg)
        → Step p sp (record p { cache = put_at pg none p.cache }) sp
    opens : Step p sp (pager_open_savepoint (suc (length p.savepoints)) p).1 (opened sp)
    releases : (i : ℕ) → Step p sp (release_savepoint i p) (released i sp)
    rolls_back : (i : ℕ) → Step p sp (rollback_savepoint i p) (rolled_back i sp)

  pub data Steps (p : Pager D) (sp : Spec D) : Pager D → Spec D → Type 0 where
    here : Steps p sp p sp
    more :
        (q : Pager D) (sq : Spec D) (r : Pager D) (sr : Spec D)
        → Steps p sp q sq
        → Step q sq r sr
        → Steps p sp r sr
