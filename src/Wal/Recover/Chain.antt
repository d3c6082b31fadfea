-- ===== src/Wal/Recover/Chain.antt =====
-- Recovery finds what a writer has put into the log, whatever stands behind it (src/wal.c,
-- walIndexRecover against walFrames).
use litebtree.Base.{
  ℕ, zero, suc, ◌+◌, ◌≤◌, ◌<◌, ◌≡◌, refl, sym, ap, ◌∙◌, List, [], ◌∷◌, ◌++◌, Bool, true, false,
  if◌then◌else◌, ◌==◌, Option, none, some, ok, is_ok, All, length, get_elem?, arith, Bool-cases,
  inl, inr,
}
use litebtree.Util.Word.{IsByte}
use litebtree.Wal.Frame.{
  FrameState, IsOpenLog, wal_encode_frame, wal_decode_frame, wal_decode_frame-wal_encode_frame,
  wal_encode_frame-IsOpenLog,
}
use litebtree.Wal.Index.{WalIndex, wal_index_append, wal_frame_pgno}
use litebtree.Wal.Index.Append.{IsAppended, wal_index_append-IsAppended}
use litebtree.Wal.Index.Frames.{IsIndex, committed-IsIndex}
use litebtree.Wal.Recover.{
  Frame, Recovery, Written, note_commit, after_append, after_decode, proceed, recover_frame,
  recover_frames, append_frames,
}

-- A page that a writer may write.
pub record IsWritable (x : Written) : Type 0 where
  pub real : 0 < x.page
  pub page_word : x.page < 4294967296
  pub truncate_word : x.truncate < 4294967296
  pub bytes : All IsByte x.content

-- The frame of the last commit record, for pages that are written behind n frames.
abbrev pub last_commit : ℕ → List Written → ℕ → ℕ
last_commit n [] mx = mx
last_commit n (x ∷ xs) mx = last_commit (suc n) xs (if x.truncate == 0 then mx else suc n)

-- The database size at the last commit record.
abbrev pub last_size : List Written → ℕ → ℕ
last_size [] size = size
last_size (x ∷ xs) size = last_size xs (if x.truncate == 0 then size else x.truncate)

-- The file ends, or goes on with a frame that is not valid: one that was torn, or is of an older
-- log.
abbrev pub IsTorn : Bool → FrameState → List Frame → Type 0
IsTorn big_host w [] = Unit {0}
IsTorn big_host w (f ∷ fs) = (wal_decode_frame big_host w f.1 f.0).0 ≡ none

record Noted (r r' : Recovery) (k truncate : ℕ) : Type 0 where
  index : IsIndex r'.index k
  mx : r'.index.mx_frame ≡ (if truncate == 0 then r.index.mx_frame else k)
  size : r'.n_page ≡ (if truncate == 0 then r.n_page else truncate)
  state : r'.state ≡ r.state
  mapped : (i : ℕ) → r'.index.mapped i ≡ r.index.mapped i
  pages : (f : ℕ) → wal_frame_pgno r'.index f ≡ wal_frame_pgno r.index f

note_commit-Noted :
    (r : Recovery) (k truncate : ℕ)
    → IsIndex r.index k
    → Noted r (note_commit k truncate r) k truncate
unfolding note_commit wal_frame_pgno
note_commit-Noted r k truncate index = elim (Bool-cases (truncate == 0)) [
  | inl t ↦ record {
    index = rw t index;
    mx = rw t refl;
    size = rw t refl;
    state = rw t refl;
    mapped = λ i. rw t refl;
    pages = λ f. rw t refl;
  }
  | inr t ↦ record {
    index = rw t (committed-IsIndex r.index k index);
    mx = rw t refl;
    size = rw t refl;
    state = rw t refl;
    mapped = λ i. rw t refl;
    pages = λ f. rw t refl;
  }
]

-- What recovery of the pages `xs` behind n frames promises, from the state r to the state r'.
pub record IsRecovered (n : ℕ) (xs : List Written) (r r' : Recovery) : Type 0 where
  pub index : IsIndex r'.index (n + length xs)
  pub mx : r'.index.mx_frame ≡ last_commit n xs r.index.mx_frame
  pub size : r'.n_page ≡ last_size xs r.n_page
  pub older : (f : ℕ) → 0 < f → f ≤ n → wal_frame_pgno r'.index f ≡ wal_frame_pgno r.index f
  pub pages :
      (j : ℕ) (x : Written)
      → get_elem? xs j ≡ some x
      → wal_frame_pgno r'.index (suc (n + j)) ≡ x.page

recover_frame-run :
    (big_host : Bool) (k : ℕ) (header content : List ℕ) (r : Recovery) (pgno truncate : ℕ)
    (s : FrameState) (index : WalIndex)
    → wal_decode_frame big_host r.state content header ≡ (some (pgno, truncate), s)
    → wal_index_append r.index k pgno ≡ (ok, index)
    → recover_frame big_host k (header, content) r
      ≡ (true, ok, note_commit k truncate (record r { state = s; index = index }))
unfolding recover_frame after_decode after_append
recover_frame-run big_host k header content r pgno truncate s index decoded run =
    ap (after_decode k r) decoded ∙ ap (after_append k truncate (record r { state = s })) run

after_decode-none :
    (k : ℕ) (r : Recovery) (d : Option (ℕ × ℕ) × FrameState)
    → d.0 ≡ none
    → after_decode k r d ≡ (false, ok, record r { state = d.1 })
unfolding after_decode
after_decode-none k r (none, s) h = refl
after_decode-none k r (some p, s) h = cc

IsRecovered-nil :
    (n : ℕ) (r : Recovery) (s : FrameState)
    → IsIndex r.index n
    → IsRecovered n [] r (record r { state = s })
IsRecovered-nil n r s index = record {
  index = let same : n + 0 ≡ n = omega arith in rw same index;
  mx = refl;
  size = refl;
  older = λ f p l. refl;
  pages = λ j x h. cc;
}

module _ (writer_big reader_big : Bool) where
  recover_frame-step :
      (r : Recovery) (n : ℕ) (x : Written)
      → IsOpenLog r.state
      → r.state.re_cksum ≡ 0
      → IsWritable x
      → IsIndex r.index n
      → n + 4097 < 4294967296
      → ((i : ℕ) → is_ok (r.index.mapped i) ≡ true)
      → (let e = wal_encode_frame writer_big r.state x.page x.truncate x.content in
          (index' : WalIndex) × (recover_frame reader_big (suc n) (e.0, x.content) r
            ≡ (true, ok, note_commit (suc n) x.truncate (record r { state = e.1; index = index' })))
          × IsAppended r.index index' (suc n) x.page)
  recover_frame-step r n x open_log e writable index room mapped =
      let decoded =
        wal_decode_frame-wal_encode_frame writer_big reader_big r.state x.page x.truncate x.content
          open_log e writable.bytes writable.real writable.page_word writable.truncate_word in
      let (index', run, appended) =
        wal_index_append-IsAppended r.index n x.page index room writable.real (mapped _) in
      (
        index',
        recover_frame-run reader_big (suc n) _ x.content r x.page x.truncate _ index' decoded run,
        appended,
      )

  later_pages :
      (n : ℕ) (x : Written) (xs : List Written) (r : Recovery) (index' : WalIndex) (s : FrameState)
      (r₁ r' : Recovery)
      → IsAppended r.index index' (suc n) x.page
      → Noted (record r { state = s; index = index' }) r₁ (suc n) x.truncate
      → IsRecovered (suc n) xs r₁ r'
      → (j : ℕ) (y : Written) → get_elem? (x ∷ xs) j ≡ some y
      → wal_frame_pgno r'.index (suc (n + j)) ≡ y.page
  later_pages n x xs r index' s r₁ r' appended noted rest zero y h =
      let here : n + 0 ≡ n = omega arith in
      let same : x ≡ y = cc in
      rw (here, ← same)
        (rest.older (suc n) (omega arith) (omega arith) ∙ (noted.pages (suc n) ∙ appended.here))
  later_pages n x xs r index' s r₁ r' appended noted rest (suc j) y h =
      let eq : n + suc j ≡ suc n + j = omega arith in rw eq (rest.pages j y h)

  -- One page, and then the rest.
  IsRecovered-step :
      (n : ℕ) (x : Written) (xs : List Written) (r : Recovery) (index' : WalIndex) (s : FrameState)
      (r₁ r' : Recovery)
      → IsAppended r.index index' (suc n) x.page
      → Noted (record r { state = s; index = index' }) r₁ (suc n) x.truncate
      → IsRecovered (suc n) xs r₁ r'
      → IsRecovered n (x ∷ xs) r r'
  IsRecovered-step n x xs r index' s r₁ r' appended noted rest = record {
    index = let same : n + suc (length xs) ≡ suc n + length xs = omega arith in rw same rest.index;
    mx =
        let m = appended.at_mx in
        rest.mx
        ∙ ap (last_commit (suc n) xs) (noted.mx ∙ ap (λ k. if x.truncate == 0 then k else suc n) m);
    size = rest.size ∙ ap (last_size xs) noted.size;
    older =
        λ f p l. rest.older f p (omega arith) ∙ (noted.pages f ∙ appended.older f p (omega arith));
    pages = later_pages n x xs r index' s r₁ r' appended noted rest;
  }

  recover_torn :
      (tail : List Frame) (k n : ℕ) (r : Recovery)
      → IsTorn reader_big r.state tail
      → IsIndex r.index n
      → (r' : Recovery) × (recover_frames reader_big k tail r ≡ (ok, r')) × IsRecovered n [] r r'
  unfolding recover_frames recover_frame
  recover_torn [] k n r torn index = (r, refl, IsRecovered-nil n r r.state index)
  recover_torn (f ∷ fs) k n r torn index =
      let d = wal_decode_frame reader_big r.state f.1 f.0 in
      (
        record r { state = d.1 },
        ap (proceed (λ r'. recover_frames reader_big (suc k) fs r')) (after_decode-none k r d torn),
        IsRecovered-nil n r d.1 index,
      )

  recover_frames-lem :
      (xs : List Written) (tail : List Frame) (n : ℕ) (r : Recovery)
      → IsOpenLog r.state
      → r.state.re_cksum ≡ 0
      → All IsWritable xs
      → IsTorn reader_big (append_frames writer_big xs r.state).1 tail
      → IsIndex r.index n
      → n + length xs + 4096 < 4294967296
      → ((i : ℕ) → is_ok (r.index.mapped i) ≡ true)
      → (r' : Recovery) × (recover_frames reader_big
            (suc n)
            ((append_frames writer_big xs r.state).0 ++ tail)
            r
          ≡ (ok, r'))
        × IsRecovered n xs r r'
  unfolding recover_frames append_frames
  recover_frames-lem [] tail n r open_log e writable torn index room mapped =
      recover_torn tail (suc n) n r torn index
  recover_frames-lem (x ∷ xs) tail n r open_log e writable torn index room mapped =
      let (index', run, appended) =
        recover_frame-step r n x open_log e writable.0 index (omega arith) mapped in
      let enc = wal_encode_frame writer_big r.state x.page x.truncate x.content in
      let next : Recovery = record r { state = enc.1; index = index' } in
      let noted = note_commit-Noted next (suc n) x.truncate appended.index in
      let (open', e') =
        wal_encode_frame-IsOpenLog writer_big r.state x.page x.truncate x.content open_log e
          (writable.0.bytes) in
      let r₁ = note_commit (suc n) x.truncate next in
      let (r', rest, recovered) =
        recover_frames-lem xs tail (suc n) r₁ (rw noted.state open') (rw noted.state e') writable.1
          (rw noted.state torn) noted.index (omega arith)
          (λ i. rw (noted.mapped i, appended.same_mapped i) (mapped i)) in
      (
        r',
        ap
              (proceed (λ q.
                recover_frames reader_big (suc (suc n))
                  ((append_frames writer_big xs enc.1).0 ++ tail) q))
              run
            ∙ (ap
                  (λ s.
                    recover_frames reader_big (suc (suc n))
                      ((append_frames writer_big xs s).0 ++ tail) r₁)
                  (sym noted.state)
                ∙ rest),
        IsRecovered-step n x xs r index' enc.1 r₁ r' appended noted recovered,
      )

-- The frames that a writer appends to an open log, of fewer than 2^32 - 4096 valid pages and
-- without checksums that are to be recomputed, are found again by recovery on a host of any byte
-- order, from the same state of the log and an empty index whose blocks can all be mapped, if the
-- file ends behind them or goes on with a frame that is not valid: recovery ends with SQLITE_OK,
-- the index has one frame for each page in their order, and mxFrame and the database size are
-- those of the last commit record.
pub recover_frames-append_frames :
    (writer_big reader_big : Bool) (xs : List Written) (tail : List Frame) (r : Recovery)
    → IsOpenLog r.state
    → r.state.re_cksum ≡ 0
    → All IsWritable xs
    → IsTorn reader_big (append_frames writer_big xs r.state).1 tail
    → r.index.mx_frame ≡ 0
    → length xs + 4096 < 4294967296
    → ((i : ℕ) → is_ok (r.index.mapped i) ≡ true)
    → (r' : Recovery) × (recover_frames reader_big 1
          ((append_frames writer_big xs r.state).0 ++ tail)
          r
        ≡ (ok, r'))
      × IsRecovered 0 xs r r'
recover_frames-append_frames writer_big reader_big xs tail r open_log e writable torn empty few
      mapped =
    recover_frames-lem writer_big reader_big xs tail 0 r open_log e writable torn
      (record { behind = omega arith; room = omega arith; covered = λ i l. absurd (omega arith) })
      (omega arith) mapped
