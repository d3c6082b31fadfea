-- ===== src/Pager/Session/Simulate.antt =====
-- The pager simulates the database with its saved images (src/pager.c): whatever is written, spilled,
-- opened, released and rolled back, in any order.
use litebtree.Base.{
  ℕ, zero, suc, ◌≡◌, refl, sym, ◌∙◌, ap, inl, inr, List, [], ◌∷◌, map, Option, none, some,
  Option-cases, take, get_elem?,
}
use litebtree.Pager.{Savepoint, Pager, release_savepoint, rollback_savepoint}
use litebtree.Pager.Rollback.{IsRestored, rollback_savepoint-IsRestored}
use litebtree.Pager.Session.Nest.{
  release_savepoint-without, release_savepoint-Stack, without-content,
}
use litebtree.Pager.Session.Run.{
  pages_of, loaded-Implements, dropped-Implements, opens-Implements, wrote-Implements,
  not_wrote-Implements, spilled-Implements,
}
use litebtree.Pager.Session.{
  Image, Spec, Implements, Step, Steps, wrote, not_wrote, spilled, loaded, dropped, opens, releases,
  rolls_back, here, more, released, rolled_back,
}

module _ {ℓ} {A B : Type ℓ} (f : A → B) where
  map-take : (n : ℕ) (xs : List A) → map f (take n xs) ≡ take n (map f xs)
  map-take zero xs = refl
  map-take (suc n) [] = refl
  map-take (suc n) (x ∷ xs) = ap (λ t. f x ∷ t) (map-take n xs)

  map-get :
      (xs : List A) (n : ℕ) (x : A) → get_elem? xs n ≡ some x → get_elem? (map f xs) n ≡ some (f x)
  map-get [] n x e = absurd (cc)
  map-get (y ∷ ys) zero x e = let same : y ≡ x = cc in rw same refl
  map-get (y ∷ ys) (suc n) x e = map-get ys n x e

  map-get_none : (xs : List A) (n : ℕ) → get_elem? xs n ≡ none → get_elem? (map f xs) n ≡ none
  map-get_none [] n e = refl
  map-get_none (y ∷ ys) zero e = absurd (cc)
  map-get_none (y ∷ ys) (suc n) e = map-get_none ys n e

  take-get_none : (xs : List A) (n : ℕ) → get_elem? xs n ≡ none → take n xs ≡ xs
  take-get_none [] zero e = refl
  take-get_none [] (suc n) e = refl
  take-get_none (y ∷ ys) zero e = absurd (cc)
  take-get_none (y ∷ ys) (suc n) e = ap (λ t. y ∷ t) (take-get_none ys n e)

no_some {ℓ} : {A : Type ℓ} {o : Option A} {a : A} → o ≡ none → o ≡ some a → ⊥
no_some p q = cc

release_none :
    {D : Type 0} (n : ℕ) (p : Pager D) → get_elem? p.savepoints n ≡ none → release_savepoint n p ≡ p
unfolding release_savepoint
release_none n p e = rw (e, release_savepoint) refl

rollback_none :
    {D : Type 0} (n : ℕ) (p : Pager D)
    → get_elem? p.savepoints n ≡ none
    → rollback_savepoint n p ≡ p
unfolding rollback_savepoint
rollback_none n p e = rw (e, rollback_savepoint) refl

module _ {D : Type 0} (p : Pager D) (sp : Spec D) (i : Implements p sp) (n : ℕ) where
  -- There is a savepoint with the index in the one just where there is one in the other.
  no_image : get_elem? p.savepoints n ≡ none → get_elem? sp.saved n ≡ none
  no_image e = elim (Option-cases (get_elem? sp.saved n)) [
    | inl none_there ↦ none_there
    | inr (im, found) ↦ absurd (
        no_some (map-get_none (λ s. s.n_orig) p.savepoints n e)
          (ap (λ t. get_elem? t n) i.sizes ∙ map-get (λ im. im.size) sp.saved n im found))
  ]

  its_size :
      (t : Savepoint) (im : Image D)
      → get_elem? p.savepoints n ≡ some t
      → get_elem? sp.saved n ≡ some im
      → t.n_orig ≡ im.size
  its_size t im e found =
      let a = map-get (λ s. s.n_orig) p.savepoints n t e in
      let b = map-get (λ im. im.size) sp.saved n im found in
      let c = ap (λ t. get_elem? t n) i.sizes in
      let same : some t.n_orig ≡ some im.size = sym a ∙ c ∙ b in cc

  releases-Implements : Implements (release_savepoint n p) (released n sp)
  releases-Implements = elim (Option-cases (get_elem? p.savepoints n)) [
    | inl e ↦
        rw (release_none n p e, take-get_none (λ (im : Image D). im) sp.saved n (no_image e)) i
    | inr (t, e) ↦ rw (release_savepoint-without p n t e) (record {
      size = i.size;
      pages = λ x m. without-content p n t x ∙ i.pages x m;
      sizes =
          map-take (λ s. s.n_orig) n p.savepoints
          ∙ ap (take n) i.sizes
          ∙ sym (map-take (λ im. im.size) n sp.saved);
      stack =
          rw (map-take (λ im. im.page) n sp.saved)
            (release_savepoint-Stack p n t (pages_of sp.saved) e i.stack);
    })
  ]

  restored-Implements :
      (q : Pager D) (im : Image D)
      → IsRestored n p q (pages_of sp.saved)
      → get_elem? sp.saved n ≡ some im
      → Implements q (record { now = im; saved = take (suc n) sp.saved })
  restored-Implements q im r found =
      let size = r.size ∙ its_size r.savepoint im r.found found in
      let image : some r.image ≡ some im.page =
        sym r.its_image ∙ map-get (λ im. im.page) sp.saved n im found in
      let same : r.image ≡ im.page = cc in
      record {
        size = size;
        pages = λ x m. r.restored x (rw size m) ∙ ap (λ f. f x) same;
        sizes =
            ap (map (λ s. s.n_orig)) r.savepoints
            ∙ map-take (λ s. s.n_orig) (suc n) p.savepoints
            ∙ ap (take (suc n)) i.sizes
            ∙ sym (map-take (λ im. im.size) (suc n) sp.saved);
        stack = rw (map-take (λ im. im.page) (suc n) sp.saved) r.stack;
      }

  rolls_back-Implements : Implements (rollback_savepoint n p) (rolled_back n sp)
  rolls_back-Implements = elim (Option-cases (get_elem? p.savepoints n)) [
    | inl e ↦ rw (rollback_none n p e, no_image e, rolled_back) i
    | inr (t, e) ↦
        let r = rollback_savepoint-IsRestored n p (pages_of sp.saved) t i.stack e in
        elim (Option-cases (get_elem? sp.saved n)) [
          | inr (im, found) ↦
              rw (found, rolled_back) (restored-Implements (rollback_savepoint n p) im r found)
          | inl none_there ↦
              absurd (no_some (map-get_none (λ im. im.page) sp.saved n none_there) r.its_image)
        ]
  ]

module _ {D : Type 0} where
  Step-Implements :
      (p : Pager D) (sp : Spec D) (q : Pager D) (sq : Spec D)
      → Step p sp q sq
      → Implements p sp
      → Implements q sq
  Step-Implements p sp _ _ (wrote io pg d l good) i = wrote-Implements p sp i io pg d l good
  Step-Implements p sp _ _ (not_wrote io pg l bad) i = not_wrote-Implements p sp i io pg l
  Step-Implements p sp _ _ (spilled io io_log pg d e) i = spilled-Implements p sp i io io_log pg d e
  Step-Implements p sp _ _ (loaded pg) i = loaded-Implements p sp i pg
  Step-Implements p sp _ _ (dropped pg e) i = dropped-Implements p sp i pg e
  Step-Implements p sp _ _ opens i = opens-Implements p sp i
  Step-Implements p sp _ _ (releases n) i = releases-Implements p sp i n
  Step-Implements p sp _ _ (rolls_back n) i = rolls_back-Implements p sp i n

  -- A pager that stands for a database and its saved images still does after any number of steps
  -- in any order: pages written, or not for an error of the sub-journal, spilled to the log,
  -- loaded and dropped, and savepoints opened, released and rolled back. A rollback so gives back
  -- the database as it was when the savepoint was opened.
  pub Steps-Implements :
      (p : Pager D) (sp : Spec D) (q : Pager D) (sq : Spec D)
      → Steps p sp q sq
      → Implements p sp
      → Implements q sq
  Steps-Implements p sp _ _ here i = i
  Steps-Implements p sp _ _ (more q sq r sr before last) i =
      Step-Implements q sq r sr last (Steps-Implements p sp q sq before i)
