-- ===== src/Wal/Index/Search.antt =====
-- The search of one block (src/wal.c, the inner loop of walFindFrame) ends, and reports the newest
-- entry of the page that the reader may use.
use litebtree.Base.{
  ℕ, zero, suc, ◌+◌, ◌-◌, ◌%◌, ◌≤◌, ◌<◌, ◌≡◌, refl, Bool, true, false, Bool-cases, if◌then◌else◌,
  ◌==◌, arith, ◌⊎◌, inl, inr, Option, some, ℕ_discrete, dec_lt, sym, ◌∙◌, leb, ◌&&◌, ap,
}
use litebtree.Wal.Index.{
  Block, wal_hash, wal_next_hash, find_in, is_match, hash_zero, WalIndex, find_in_block,
}
use litebtree.Wal.Index.Filled.{IsFilled, Reaches, wal_hash-small}
use litebtree.Wal.Index.Probe.{at, at-step, at-zero, at-back, IsGap, IsGap-step, has-IsGap}

-- What scanning the d slots from k leaves in iRead: the last match, or the value before the scan.
abbrev Scanned : (ℕ → Bool) → ℕ → (ℕ → ℕ) → ℕ → ℕ → ℕ → Option ℕ → Type 0
Scanned matches base f k d read r =
    ((r ≡ some read) × ((e : ℕ) → e < d → matches (f (at k e)) ≡ false))
    ⊎ ((e : ℕ) × (e < d)
        × (matches (f (at k e)) ≡ true)
        × ((e' : ℕ) → e < e' → e' < d → matches (f (at k e')) ≡ false)
        × (r ≡ some ((f (at k e) + base) % 4294967296)))

module _ (matches : ℕ → Bool) (base : ℕ) (f : ℕ → ℕ) where
  find_in-stop : (n k read : ℕ) → f k ≡ 0 → find_in n matches base f k read ≡ some read
  unfolding find_in
  find_in-stop zero k read z = ground (arith, z)
  find_in-stop (suc n) k read z = ground (arith, z)

  abbrev taking : ℕ → ℕ → ℕ
  taking h read = if matches h then (h + base) % 4294967296 else read

  find_in-go :
      (n k read : ℕ)
      → 0 < f k
      → find_in (suc n) matches base f k read
        ≡ find_in n matches base f (at k 1) (taking (f k) read)
  unfolding find_in wal_next_hash
  find_in-go n k read h = ground (arith, h)

  -- One slot in front of a scan.
  Scanned-step :
      (k d read : ℕ) (r : Option ℕ)
      → k < 8192
      → Scanned matches base f (at k 1) d (taking (f k) read) r
      → Scanned matches base f k (suc d) read r
  Scanned-step k d read r h (inr (e, l, hit, no_more, end)) = inr (
    suc e,
    omega arith,
    rw (← at-step k e) hit,
    (λ e' m m'. rw (← at-back k e' (omega arith)) (no_more (e' - 1) (omega arith) (omega arith))),
    rw (← at-step k e) end,
  )
  Scanned-step k d read r h (inl (end, no_hit)) = elim (Bool-cases (matches (f k))) [
    | inl t ↦ inr (
      0,
      omega arith,
      rw (at-zero k h) t,
      (λ e' m m'.
          let same : suc (e' - 1) ≡ e' = omega arith in
          rw (← same, ← at-step k (e' - 1)) (no_hit (e' - 1) (omega arith))),
      rw (at-zero k h, end, t) refl,
    )
    | inr t ↦ inl (
      rw (end, t) refl,
      λ e m. elim (ℕ_discrete e 0) [
        | yes z ↦ rw (z, at-zero k h) t
        | no z ↦ rw (← at-back k e (omega arith)) (no_hit (e - 1) (omega arith))
      ],
    )
  ]

  find_in-Scanned :
      (n d k read : ℕ)
      → k < 8192
      → d ≤ n
      → IsGap f k d
      → Scanned matches base f k d read (find_in n matches base f k read)
  find_in-Scanned n zero k read h l g =
      let z : f k ≡ 0 = rw (← at-zero k h) g.free in
      inl (find_in-stop n k read z, λ e m. absurd (omega arith))
  find_in-Scanned zero (suc d) k read h l g = absurd (omega arith)
  find_in-Scanned (suc n) (suc d) k read h l g =
      let first : 0 < f k = rw (← at-zero k h) (g.taken 0 (omega arith)) in
      rw (find_in-go n k read first) (
        Scanned-step k d read _ h (
          find_in-Scanned n d (at k 1) (taking (f k) read) (omega arith) (omega arith)
            (IsGap-step f k d g)))

module _ (b : Block) (last least base pgno : ℕ) where
  -- Whether the reader may use entry j for the page.
  abbrev pub IsHit : ℕ → Type 0
  IsHit j = (suc j + base ≤ last) × (least ≤ suc j + base) × (b.a_pgno j ≡ pgno)

  -- The newest entry that the reader may use, or zero.
  abbrev pub IsNewest : ℕ → ℕ → Type 0
  IsNewest n r =
      ((r ≡ 0) × ((j : ℕ) → j < n → ¬ IsHit j))
      ⊎ ((j : ℕ) × (j < n) × IsHit j × ((i : ℕ) → j < i → i < n → ¬ IsHit i) × (r ≡ suc j + base))

module _ (b : Block) (n last least base pgno : ℕ) (filled : IsFilled b n)
    (room : base + 4096 < 4294967296) where
  abbrev takes : ℕ → Bool
  takes = is_match last least b.a_pgno base pgno

  takes_eq :
      (j : ℕ)
      → j < 4096
      → takes (suc j) ≡ leb (suc j + base) last && leb least (suc j + base) && (b.a_pgno j == pgno)
  unfolding is_match
  takes_eq j l =
      let c : (suc j + base) % 4294967296 ≡ suc j + base = omega arith in
      let a : (suc j - 1) % 4096 ≡ j = omega arith in rw (c, a) refl

  takes-IsHit : (j : ℕ) → j < 4096 → takes (suc j) ≡ true → IsHit b last least base pgno j
  takes-IsHit j l t = let h = sym (takes_eq j l) ∙ t in ground arith

  IsHit-takes : (j : ℕ) → j < 4096 → IsHit b last least base pgno j → takes (suc j) ≡ true
  IsHit-takes j l h = takes_eq j l ∙ ground arith

  module _ (d : ℕ) (near : d ≤ n) (gap : IsGap b.a_hash (wal_hash pgno) d) where
    abbrev seen : ℕ → ℕ
    seen e = b.a_hash (at (wal_hash pgno) e)

    clash : (e j : ℕ) → seen e ≡ suc j → e ≡ d → seen d ≡ 0 → ⊥
    clash e j t z f = let t' : seen d ≡ suc j = rw (← z) t in omega arith

    -- An entry of the page stands on the scanned part of the probe sequence.
    reach :
        (j : ℕ)
        → j < n
        → b.a_pgno j ≡ pgno
        → (e : ℕ) × (e < d) × Reaches b.a_hash (wal_hash pgno) (suc j) e
    reach j l same =
        let (e, r) = filled.entry j l in
        let r' : Reaches b.a_hash (wal_hash pgno) (suc j) e = rw (← same) r in
        elim (dec_lt e d) [
          | yes m ↦ (e, m, r')
          | no m ↦ elim (ℕ_discrete e d) [
            | yes z ↦ let t = r'.there in let f = gap.free in absurd (clash e j t z f)
            | no z ↦ let t = r'.smaller d (omega arith) in let f = gap.free in absurd (omega arith)
          ]
        ]

    not_both : {x : Bool} → x ≡ true → x ≡ false → ⊥
    not_both p q = cc

    -- Behind the last match on the sequence there is no newer entry of the page.
    no_newer :
        (e j : ℕ)
        → e < d
        → j < n
        → seen e ≡ suc j
        → IsHit b last least base pgno j
        → ((e' : ℕ) → e < e' → e' < d → takes (seen e') ≡ false)
        → (i : ℕ) → j < i
        → i < n
        → ¬ IsHit b last least base pgno i
    no_newer e j l lj there h no_more i m li hi =
        let few = filled.few in
        let (e₂, l₂, r₂) = reach i li hi.2 in
        let (e₁, l₁, r₁) = reach j lj h.2 in
        let t₂ = r₂.there in
        let t₁ = r₁.there in
        elim (dec_lt e e₂) [
          | yes later ↦ not_both (IsHit-takes i (omega arith) hi) (rw (← t₂) (no_more e₂ later l₂))
          | no earlier ↦
              let one =
                filled.once (at (wal_hash pgno) e) (at (wal_hash pgno) e₁) (omega arith)
                  (omega arith) (there ∙ sym t₁) (rw there (λ z. omega arith)) in
              let same : e ≡ e₁ = omega arith in
              elim (ℕ_discrete e₂ e) [
                | yes z ↦ let t : seen e ≡ suc i = rw (← z) t₂ in omega arith
                | no z ↦ let s = r₁.smaller e₂ (omega arith) in omega arith
              ]
        ]

    found-IsNewest :
        (r : Option ℕ)
        → Scanned takes base b.a_hash (wal_hash pgno) d 0 r
        → (read : ℕ) × (r ≡ some read) × IsNewest b last least base pgno n read
    found-IsNewest r (inl (end, no_hit)) =
        let few = filled.few in
        (
          0,
          end,
          inl (
            refl,
            λ j l h.
                let (e, m, reached) = reach j l h.2 in
                not_both (IsHit-takes j (omega arith) h) (rw (← reached.there) (no_hit e m)),
          ),
        )
    found-IsNewest r (inr (e, l, hit, no_more, end)) =
        let few = filled.few in
        let pos = gap.taken e l in
        let top = filled.bound (at (wal_hash pgno) e) (omega arith) in
        let j = seen e - 1 in
        let same : seen e ≡ suc j = omega arith in
        let h = takes-IsHit j (omega arith) (rw (← same) hit) in
        let small : (seen e + base) % 4294967296 ≡ suc j + base = omega arith in
        (
          suc j + base,
          rw end (ap some small),
          inr (j, omega arith, h, no_newer e j l (omega arith) same h no_more, refl),
        )

-- The loop ends within the slots of the table, and iRead is then the newest entry of the page.
pub find_in_block-IsNewest :
    (w : WalIndex) (pgno i n : ℕ)
    → (filled : IsFilled (w.block i) n) → (room : hash_zero i + 4096 < 4294967296)
    → (read : ℕ) × (find_in_block w pgno i ≡ some read)
      × IsNewest (w.block i) w.mx_frame w.min_frame (hash_zero i) pgno n read
unfolding find_in_block
find_in_block-IsNewest w pgno i n filled room =
    let few = filled.few in
    let b = w.block i in
    let k = wal_hash pgno in
    let (d, near, gap) = has-IsGap b.a_hash n k (omega arith) filled.bound filled.once in
    found-IsNewest b n w.mx_frame w.min_frame (hash_zero i) pgno filled room d near gap _ (
      find_in-Scanned (is_match w.mx_frame w.min_frame b.a_pgno (hash_zero i) pgno) (hash_zero i)
        b.a_hash 8192 d k 0 (wal_hash-small pgno) (omega arith) gap)
