-- ===== src/Pager/Journal.antt =====
-- A page that is about to change is put into the sub-journal where a savepoint requires it
-- (src/pager.c, subjournalPageIfRequired); the images of all savepoints stay restorable.
use litebtree.Base.{
  ℕ, suc, ◌≤◌, ◌<◌, ◌≡◌, ◌≢◌, refl, sym, ◌∙◌, ap, subst, arith, Bool, true, false, not, ◌&&◌,
  Bool-cases, ◌⊎◌, inl, inr, List, [], ◌∷◌, map, All, leb, if◌then◌else◌, dec_le, Rc, ok, is_ok,
}
use litebtree.Pager.{
  Savepoint, Pager, content, on_log, subj_requires_page, keep_on_release, add_to_savepoint,
  add_to_savepoint_bitvecs, subjournal_page, subjournal_page_if_required,
}
use litebtree.Pager.State.{Holds, Order, Stack, Stack-listed, listed-content}
pub mod Record
use litebtree.Pager.Journal.Record.{
  not_both, add-n_orig, kept-Holds, keep_outer, recorded, recorded-content, map-keep-Stack,
  map-keep_on_release, add_to_savepoint-Order, add_to_savepoint-Holds,
}

-- The page is in the set of each savepoint that has it.
abbrev pub IsCovered : ℕ → List Savepoint → Type 0
IsCovered pg ss = All (λ s. pg ≤ s.n_orig → s.in_savepoint pg ≡ true) ss

add_to_savepoint-in :
    (pg : ℕ) (s : Savepoint)
    → pg ≤ (add_to_savepoint pg s).n_orig
    → (add_to_savepoint pg s).in_savepoint pg ≡ true
add_to_savepoint-in pg s l = elim (dec_le pg s.n_orig) [
  | yes m ↦ ground (arith, m)
  | no m ↦ ground (arith, m, l)
]

map-IsCovered : (pg : ℕ) (ss : List Savepoint) → IsCovered pg (map (add_to_savepoint pg) ss)
map-IsCovered pg [] = tt
map-IsCovered pg (s ∷ ss) = (add_to_savepoint-in pg s, map-IsCovered pg ss)

module _ (pg : ℕ) (s : Savepoint) (ss : List Savepoint) where
  requires-hit :
      pg ≤ s.n_orig
      → s.in_savepoint pg ≡ false
      → subj_requires_page pg (s ∷ ss) ≡ (true, s ∷ map keep_on_release ss)
  unfolding subj_requires_page
  requires-hit l u = ground (arith, l, u)

  requires-miss :
      (pg ≤ s.n_orig → s.in_savepoint pg ≡ true)
      → subj_requires_page pg (s ∷ ss)
        ≡ ((subj_requires_page pg ss).0, s ∷ (subj_requires_page pg ss).1)
  unfolding subj_requires_page
  requires-miss c = elim (dec_le pg s.n_orig) [
    | yes l ↦ let set = c l in ground (arith, l, set)
    | no l ↦ ground (arith, l)
  ]

  -- Whether the savepoint requires the page.
  requires_cases :
      ((pg ≤ s.n_orig) × (s.in_savepoint pg ≡ false)) ⊎ (pg ≤ s.n_orig → s.in_savepoint pg ≡ true)
  requires_cases = elim (dec_le pg s.n_orig) [
    | no l ↦ inr (λ m. absurd (l m))
    | yes l ↦ elim (Bool-cases (s.in_savepoint pg)) [
      | inl set ↦ inr (λ m. set)
      | inr u ↦ inl (l, u)
    ]
  ]

not_required :
    (pg : ℕ) (ss : List Savepoint)
    → (subj_requires_page pg ss).0 ≡ false
    → ((subj_requires_page pg ss).1 ≡ ss) × IsCovered pg ss
unfolding subj_requires_page
not_required pg [] h = (refl, tt)
not_required pg (s ∷ ss) h = elim (requires_cases pg s ss) [
  | inl (l, u) ↦ absurd (not_both (ap (λ t. t.0) (requires-hit pg s ss l u)) h)
  | inr c ↦
      let e = requires-miss pg s ss c in
      let (same, covered) = not_required pg ss (sym (ap (λ t. t.0) e) ∙ h) in
      (ap (λ t. t.1) e ∙ ap (λ t. s ∷ t) same, (c, covered))
]

module _ {D : Type 0} (pg : ℕ) (p : Pager D) (all : List Savepoint) where
  abbrev after : Pager D
  after = recorded pg p all

  miss-Order :
      (s : Savepoint) (image : ℕ → D) (ts : List Savepoint)
      → (pg ≤ s.n_orig → s.in_savepoint pg ≡ true)
      → All (λ t. t.sub_rec ≤ p.n_sub_rec) ts
      → All (Order p.sub_journal s image) ts
      → All
          (Order after.sub_journal (add_to_savepoint pg s) image)
          (map (add_to_savepoint pg) (subj_requires_page pg ts).1)
  miss-Order s image [] c l o = unfold subj_requires_page in tt
  miss-Order s image (t ∷ ts) c (l, ls) (o, os) =
      let first = add_to_savepoint-Order pg p all s t image l c o in
      elim (requires_cases pg t ts) [
        | inl (m, u) ↦
            rw (requires-hit pg t ts m u) (first, map-keep_on_release pg p all s image ts os)
        | inr c' ↦ rw (requires-miss pg t ts c') (first, miss-Order s image ts c ls os)
      ]

  Stack-records :
      (ss : List Savepoint) (images : List (ℕ → D))
      → Stack p ss images
      → All (λ t. t.sub_rec ≤ p.n_sub_rec) ss
  Stack-records [] images k = tt
  Stack-records (s ∷ ss) [] k = elim k [ ]
  Stack-records (s ∷ ss) (im ∷ ims) (h, o, k) = (h.records, Stack-records ss ims k)

  required-Stack :
      (ss : List Savepoint) (images : List (ℕ → D))
      → Stack p ss images
      → Stack after (map (add_to_savepoint pg) (subj_requires_page pg ss).1) images
  required-Stack [] [] k = unfold subj_requires_page in tt
  required-Stack [] (im ∷ ims) k = elim k [ ]
  required-Stack (s ∷ ss) [] k = elim k [ ]
  required-Stack (s ∷ ss) (im ∷ ims) (h, o, k) =
      let first = add_to_savepoint-Holds pg p all s im h in
      elim (requires_cases pg s ss) [
        | inl (l, u) ↦
            rw (requires-hit pg s ss l u)
              (first, map-keep_on_release pg p all s im ss o, map-keep-Stack pg p all ss ims k)
        | inr c ↦
            rw (requires-miss pg s ss c)
              (first, miss-Order s im ss c (Stack-records ss ims k) o, required-Stack ss ims k)
      ]

abbrev sizes_of : List Savepoint → List ℕ
sizes_of ss = map (λ s. s.n_orig) ss

keep-sizes : (ss : List Savepoint) → sizes_of (map keep_on_release ss) ≡ sizes_of ss
keep-sizes [] = refl
keep-sizes (s ∷ ss) = ap (λ t. s.n_orig ∷ t) (keep-sizes ss)

add-sizes : (pg : ℕ) (ss : List Savepoint) → sizes_of (map (add_to_savepoint pg) ss) ≡ sizes_of ss
add-sizes pg [] = refl
add-sizes pg (s ∷ ss) = rw (add-sizes pg ss, add-n_orig pg s) refl

flags-sizes : (pg : ℕ) (ss : List Savepoint) → sizes_of (subj_requires_page pg ss).1 ≡ sizes_of ss
flags-sizes pg [] = unfold subj_requires_page in refl
flags-sizes pg (s ∷ ss) = elim (requires_cases pg s ss) [
  | inl (l, u) ↦ rw (requires-hit pg s ss l u) (ap (λ t. s.n_orig ∷ t) (keep-sizes ss))
  | inr c ↦ rw (requires-miss pg s ss c) (ap (λ t. s.n_orig ∷ t) (flags-sizes pg ss))
]

-- The flags alone: savepoints that are to be kept on release hold as before.
module _ {D : Type 0} (pg : ℕ) (p : Pager D) where
  keep-Order :
      (s : Savepoint) (image : ℕ → D) (ts : List Savepoint)
      → All (Order p.sub_journal s image) ts
      → All (Order p.sub_journal s image) (map keep_on_release ts)
  keep-Order s image [] o = tt
  keep-Order s image (t ∷ ts) (o, os) = (
    record {
      records = o.records;
      frames = o.frames;
      dispensable = λ flag x l u. absurd (not_both flag refl);
    },
    keep-Order s image ts os,
  )

  keep-Stack :
      (ss : List Savepoint) (images : List (ℕ → D))
      → Stack p ss images
      → Stack p (map keep_on_release ss) images
  keep-Stack [] [] k = tt
  keep-Stack [] (im ∷ ims) k = elim k [ ]
  keep-Stack (s ∷ ss) [] k = elim k [ ]
  keep-Stack (s ∷ ss) (im ∷ ims) (h, o, k) = (
    kept-Holds pg p [] s im h,
    keep-Order (keep_on_release s) im ss (keep_outer pg p [] s im ss o),
    keep-Stack ss ims k,
  )

  flags-Order :
      (s : Savepoint) (image : ℕ → D) (ts : List Savepoint)
      → All (Order p.sub_journal s image) ts
      → All (Order p.sub_journal s image) (subj_requires_page pg ts).1
  flags-Order s image [] o = unfold subj_requires_page in tt
  flags-Order s image (t ∷ ts) (o, os) = elim (requires_cases pg t ts) [
    | inl (l, u) ↦ rw (requires-hit pg t ts l u) (o, keep-Order s image ts os)
    | inr c ↦ rw (requires-miss pg t ts c) (o, flags-Order s image ts os)
  ]

  flags-Stack :
      (ss : List Savepoint) (images : List (ℕ → D))
      → Stack p ss images
      → Stack p (subj_requires_page pg ss).1 images
  flags-Stack [] [] k = unfold subj_requires_page in tt
  flags-Stack [] (im ∷ ims) k = elim k [ ]
  flags-Stack (s ∷ ss) [] k = elim k [ ]
  flags-Stack (s ∷ ss) (im ∷ ims) (h, o, k) = elim (requires_cases pg s ss) [
    | inl (l, u) ↦ rw (requires-hit pg s ss l u) (h, keep-Order s im ss o, keep-Stack ss ims k)
    | inr c ↦ rw (requires-miss pg s ss c) (h, flags-Order s im ss o, flags-Stack ss ims k)
  ]

-- What a page that is journalled as required leaves: the images of all savepoints restorable, the
-- content of the pages as it was, and, unless the write to the sub-journal failed, the page in the
-- set of each savepoint.
pub record IsJournalled {D : Type 0} (pg : ℕ) (p : Pager D) (images : List (ℕ → D)) (rc : Rc)
    (q : Pager D) : Type 0 where
  pub stack : Stack q q.savepoints images
  pub covered : is_ok rc ≡ true → IsCovered pg q.savepoints
  pub same_content : (x : ℕ) → content q x ≡ content p x
  pub same_cache : q.cache ≡ p.cache
  pub same_log : (q.frame ≡ p.frame) × (q.mx_frame ≡ p.mx_frame)
  pub same_size : q.db_size ≡ p.db_size
  pub same_file : q.file ≡ p.file
  pub same_sizes : map (λ s. s.n_orig) q.savepoints ≡ map (λ s. s.n_orig) p.savepoints

module _ {D : Type 0} (io : Rc) (pg : ℕ) (p : Pager D) (images : List (ℕ → D))
    (stack : Stack p p.savepoints images) where
  flagged : Pager D
  flagged = record p { savepoints = (subj_requires_page pg p.savepoints).1 }

  flagged-IsJournalled :
      (rc : Rc)
      → (is_ok rc ≡ true → IsCovered pg flagged.savepoints)
      → IsJournalled pg p images rc flagged
  unfolding flagged
  flagged-IsJournalled rc covered = record {
    stack =
        Stack-listed p p.db_size (subj_requires_page pg p.savepoints).1
          (subj_requires_page pg p.savepoints).1 images
          (flags-Stack pg p p.savepoints images stack);
    covered = covered;
    same_content = λ x. listed-content p p.db_size (subj_requires_page pg p.savepoints).1 x;
    same_cache = refl;
    same_log = (refl, refl);
    same_size = refl;
    same_file = refl;
    same_sizes = flags-sizes pg p.savepoints;
  }

  entered : Pager D
  entered = recorded pg p (map (add_to_savepoint pg) (subj_requires_page pg p.savepoints).1)

  entered-IsJournalled : IsJournalled pg p images ok entered
  unfolding entered
  entered-IsJournalled =
      let now = map (add_to_savepoint pg) (subj_requires_page pg p.savepoints).1 in
      record {
        stack = required-Stack pg p now p.savepoints images stack;
        covered = λ h. map-IsCovered pg (subj_requires_page pg p.savepoints).1;
        same_content = recorded-content pg p now;
        same_cache = refl;
        same_log = (refl, refl);
        same_size = refl;
        same_file = refl;
        same_sizes =
            add-sizes pg (subj_requires_page pg p.savepoints).1 ∙ flags-sizes pg p.savepoints;
      }

  -- On a stack of savepoints, whatever the result of the write to the sub-journal,
  -- subjournalPageIfRequired leaves each page as it reads, the log and the size as they were and
  -- the images of all savepoints restorable; where the result is ok, each savepoint that has the
  -- page has it in its set.
  pub subjournal_page_if_required-IsJournalled :
      (rc : Rc) × (q : Pager D) × (subjournal_page_if_required io pg p ≡ (rc, q))
      × IsJournalled pg p images rc q
  unfolding subjournal_page_if_required subjournal_page add_to_savepoint_bitvecs flagged entered
      content on_log
  subjournal_page_if_required-IsJournalled =
      elim (Bool-cases (subj_requires_page pg p.savepoints).0) [
        | inr n ↦
            let (same, covered) = not_required pg p.savepoints n in
            (ok, flagged, rw n refl, flagged-IsJournalled ok (λ h. rw same covered))
        | inl y ↦ elim (Bool-cases (is_ok io)) [
          | inl good ↦ (ok, entered, rw (y, good) refl, entered-IsJournalled)
          | inr bad ↦ (
            io,
            flagged,
            rw (y, bad) refl,
            flagged-IsJournalled io (λ h. absurd (not_both h bad)),
          )
        ]
      ]
