-- ===== src/Pager/Session/Run.antt =====
-- Each of the steps that write, spill, load, drop a page or open a savepoint does on the pager what it
-- is to do on the database with its saved images (src/pager.c).
use litebtree.Base.{
  ℕ, suc, ◌≤◌, ◌<◌, ◌≡◌, ◌≢◌, refl, sym, ◌∙◌, ap, arith, true, Bool-cases, ◌⊎◌, inl, inr, List, [],
  ◌∷◌, ◌++◌, map, Option, none, some, Rc, ok, is_ok, length, ltb, if◌then◌else◌, ℕ_discrete, dec_lt,
}
use litebtree.Pager.{
  Savepoint, Pager, content, on_log, or_else, put_at, set_content, pager_write, pager_stress,
  pager_open_savepoint, new_savepoint,
}
use litebtree.Pager.State.{Stack-same, Stack-listed, listed-content, relogged}
use litebtree.Pager.Journal.{IsCovered, IsJournalled, subjournal_page_if_required-IsJournalled}
use litebtree.Pager.Session.Change.{Stack-changed, set_content-DiffersAt, wal_frame-IsSpilled}
use litebtree.Pager.Session.Nest.{pager_open_savepoint-with_new, with_new-Stack}
use litebtree.Pager.Session.{Image, Spec, Implements, written, opened}

map-append {ℓ} :
    {A B : Type ℓ} (f : A → B) (xs ys : List A) → map f (xs ++ ys) ≡ map f xs ++ map f ys
map-append f [] ys = refl
map-append f (x ∷ xs) ys = ap (λ t. f x ∷ t) (map-append f xs ys)

abbrev pub pages_of : {D : Type 0} → List (Image D) → List (ℕ → D)
pages_of ims = map (λ im. im.page) ims

module _ {D : Type 0} (p : Pager D) (sp : Spec D) (i : Implements p sp) where
  -- pager_write journals the page, and the database grows up to it.
  pager_write-IsJournalled :
      (io : Rc) (pg : ℕ)
      → (rc : Rc) × (q : Pager D) × (pager_write io pg p
          ≡ (rc, record q { db_size = if ltb q.db_size pg then pg else q.db_size }))
        × IsJournalled pg p (pages_of sp.saved) rc q
  unfolding pager_write
  pager_write-IsJournalled io pg = elim (dec_lt 0 (length p.savepoints)) [
    | yes l ↦
        let (rc, q, e, j) =
          subjournal_page_if_required-IsJournalled io pg p (pages_of sp.saved) i.stack in
        (rc, q, rw e (ground (arith, l)), j)
    | no l ↦ (
      ok,
      p,
      ground (arith, l),
      record {
        stack = i.stack;
        covered = λ h. nothing p.savepoints l;
        same_content = λ x. refl;
        same_cache = refl;
        same_log = (refl, refl);
        same_size = refl;
        same_file = refl;
        same_sizes = refl;
      },
    )
  ]
    where
      nothing : (ss : List Savepoint) → ¬ (0 < length ss) → IsCovered pg ss
      nothing [] l = tt
      nothing (s ∷ ss) l = absurd (l (omega arith))

  -- A cache that reads as before.
  cached-Implements :
      (cache : ℕ → Option D)
      → ((x : ℕ) → content (record p { cache = cache }) x ≡ content p x)
      → Implements (record p { cache = cache }) sp
  cached-Implements cache same = record {
    size = i.size;
    pages = λ x l. same x ∙ i.pages x l;
    sizes = i.sizes;
    stack = Stack-same p p.db_size cache p.savepoints same p.savepoints (pages_of sp.saved) i.stack;
  }

  put_cases :
      (pg x : ℕ) (a : Option D)
      → ((x ≡ pg) × (put_at pg a p.cache x ≡ a)) ⊎ (put_at pg a p.cache x ≡ p.cache x)
  put_cases pg x a = elim (ℕ_discrete x pg) [
    | yes e ↦ inl (e, ground (arith, e))
    | no n ↦ inr (ground (arith, n))
  ]

  reads :
      (x : ℕ) (cache : ℕ → Option D)
      → content (record p { cache = cache }) x ≡ or_else (cache x) (on_log p x)
  unfolding content on_log
  reads x cache = refl

  pub loaded-Implements : (pg : ℕ) → Implements (set_content pg (content p pg) p) sp
  unfolding set_content
  loaded-Implements pg = cached-Implements (put_at pg (some (content p pg)) p.cache) same
    where
      same :
          (x : ℕ)
          → content (record p { cache = put_at pg (some (content p pg)) p.cache }) x ≡ content p x
      same x = elim (put_cases pg x (some (content p pg))) [
        | inl (e, put) ↦ reads x _ ∙ rw put (ap (content p) (sym e))
        | inr put ↦ reads x _ ∙ rw put (sym (reads x p.cache))
      ]

  pub dropped-Implements :
      (pg : ℕ)
      → p.cache pg ≡ some (on_log p pg)
      → Implements (record p { cache = put_at pg none p.cache }) sp
  dropped-Implements pg e = cached-Implements (put_at pg none p.cache) (λ x.
      elim (put_cases pg x none) [
        | inl (z, put) ↦
            let cached : p.cache x ≡ some (on_log p x) = rw z e in
            reads x _ ∙ rw put (sym (reads x p.cache ∙ rw cached refl))
        | inr put ↦ reads x _ ∙ rw put (sym (reads x p.cache))
      ])

  pub opens-Implements :
      Implements (pager_open_savepoint (suc (length p.savepoints)) p).1 (opened sp)
  opens-Implements = rw pager_open_savepoint-with_new (record {
    size = i.size;
    pages =
        λ x l. listed-content p p.db_size (p.savepoints ++ (new_savepoint p ∷ [])) x ∙ i.pages x l;
    sizes =
        map-append (λ s. s.n_orig) p.savepoints (new_savepoint p ∷ [])
        ∙ rw (i.sizes, i.size) (sym (map-append (λ im. im.size) sp.saved (sp.now ∷ [])));
    stack = rw (map-append (λ im. im.page) sp.saved (sp.now ∷ [])) (
        with_new-Stack p sp.now.page (pages_of sp.saved) (λ x l. i.pages x (rw (← i.size) l))
          i.stack);
  })

  -- A page that is changed behind pager_write.
  module _ (pg : ℕ) (d : D) (q : Pager D) (rc : Rc) (l : pg ≤ suc p.db_size)
      (j : IsJournalled pg p (pages_of sp.saved) rc q) where
    abbrev grown : ℕ
    grown = if ltb q.db_size pg then pg else q.db_size

    abbrev changed : Pager D
    changed = relogged q grown (put_at pg (some d) q.cache) q.frame q.mx_frame q.savepoints

    grown_eq : grown ≡ (if ltb sp.now.size pg then pg else sp.now.size)
    grown_eq = rw (j.same_size, i.size) refl

    grown_cases :
        (x : ℕ) → x ≤ (if ltb sp.now.size pg then pg else sp.now.size) → x ≢ pg → x ≤ sp.now.size
    grown_cases x m n = let e = i.size in ground (arith, e, m, n, l)

    changed-pages :
        (x : ℕ)
        → x ≤ (if ltb sp.now.size pg then pg else sp.now.size)
        → content changed x ≡ put_at pg d sp.now.page x
    unfolding content on_log
    changed-pages x m = elim (ℕ_discrete x pg) [
      | yes e ↦ ground (arith, e)
      | no n ↦
          let differs = set_content-DiffersAt q pg grown d in
          let others = differs.others x n in
          let here = j.same_content x ∙ i.pages x (grown_cases x m n) in
          others ∙ here ∙ ground (arith, n)
    ]

    changed-Implements : is_ok rc ≡ true → Implements changed (written pg d sp)
    changed-Implements good = record {
      size = grown_eq;
      pages = changed-pages;
      sizes = j.same_sizes ∙ i.sizes;
      stack =
          Stack-changed q pg grown (put_at pg (some d) q.cache) q.frame q.mx_frame q.savepoints
            (set_content-DiffersAt q pg grown d) q.savepoints (pages_of sp.saved) (j.covered good)
            j.stack;
    }

  pub wrote-Implements :
      (io : Rc) (pg : ℕ) (d : D)
      → pg ≤ suc p.db_size
      → is_ok (pager_write io pg p).0 ≡ true
      → Implements (set_content pg d (pager_write io pg p).1) (written pg d sp)
  unfolding set_content
  wrote-Implements io pg d l good =
      let (rc, q, e, j) = pager_write-IsJournalled io pg in
      let ok_rc : is_ok rc ≡ true = ap (λ t. is_ok t.0) (sym e) ∙ good in
      rw e (changed-Implements pg d q rc l j ok_rc)

  pub not_wrote-Implements :
      (io : Rc) (pg : ℕ) → pg ≤ p.db_size → Implements (pager_write io pg p).1 sp
  not_wrote-Implements io pg l =
      let (rc, q, e, j) = pager_write-IsJournalled io pg in
      let size = j.same_size in
      let stays : (if ltb q.db_size pg then pg else q.db_size) ≡ p.db_size =
        ground (arith, l, size) in
      rw (e, stays)
        (record {
          size = i.size;
          pages = λ x m. listed-content q p.db_size q.savepoints x ∙ j.same_content x ∙ i.pages x m;
          sizes = j.same_sizes ∙ i.sizes;
          stack = Stack-listed q p.db_size q.savepoints q.savepoints (pages_of sp.saved) j.stack;
        })

  journalled-Implements :
      (pg : ℕ) (rc : Rc) (q : Pager D)
      → IsJournalled pg p (pages_of sp.saved) rc q
      → Implements q sp
  journalled-Implements pg rc q j = record {
    size = j.same_size ∙ i.size;
    pages = λ x m. j.same_content x ∙ i.pages x m;
    sizes = j.same_sizes ∙ i.sizes;
    stack = j.stack;
  }

  pub spilled-Implements :
      (io io_log : Rc) (pg : ℕ) (d : D)
      → p.cache pg ≡ some d
      → Implements (pager_stress io io_log pg p).1 sp
  unfolding pager_stress
  spilled-Implements io io_log pg d cached =
      let (rc, q, e, j) =
        subjournal_page_if_required-IsJournalled io pg p (pages_of sp.saved) i.stack in
      elim (Bool-cases (is_ok rc)) [
        | inr bad ↦ rw (e, bad) (journalled-Implements pg rc q j)
        | inl good ↦ elim (Bool-cases (is_ok io_log)) [
          | inr bad ↦ rw (e, good, bad) (journalled-Implements pg rc q j)
          | inl good_log ↦
              let its : content p pg ≡ d = reads pg p.cache ∙ rw cached refl in
              let there : q.cache pg ≡ some d = rw j.same_cache cached in
              let s =
                wal_frame-IsSpilled q pg d (pages_of sp.saved) there (j.covered good) j.stack in
              rw (e, good, good_log, its)
                (record {
                  size = s.same_size ∙ j.same_size ∙ i.size;
                  pages = λ x m. s.pages x ∙ j.same_content x ∙ i.pages x m;
                  sizes = ap (map (λ s. s.n_orig)) s.same_savepoints ∙ j.same_sizes ∙ i.sizes;
                  stack = s.stack;
                })
        ]
      ]
