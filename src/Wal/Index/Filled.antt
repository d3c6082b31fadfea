-- ===== src/Wal/Index/Filled.antt =====
-- What a block of the wal-index looks like after some appends (src/wal.c, walIndexAppend), and that
-- storing an entry in a free slot keeps it.
use litebtree.Base.{ℕ, suc, ◌-◌, ◌%◌, ◌≤◌, ◌<◌, ◌≡◌, ◌≢◌, refl, arith, ℕ_discrete}
use litebtree.Wal.Index.{Block, wal_hash, put, enter}
use litebtree.Wal.Index.Probe.{at, IsGap}

-- The probe sequence from k comes to the value j at distance d, behind smaller values only.
pub record Reaches (f : ℕ → ℕ) (k j d : ℕ) : Type 0 where
  pub near : d < 8192
  pub there : f (at k d) ≡ j
  pub smaller : (e : ℕ) → e < d → (0 < f (at k e)) × (f (at k e) < j)

-- A block with m entries. The slot value of entry j is j + 1, in exactly one slot, on the probe
-- sequence of its page and behind older entries only.
pub record IsFilled (b : Block) (m : ℕ) : Type 0 where
  pub few : m ≤ 4096
  pub bound : (k : ℕ) → k < 8192 → b.a_hash k ≤ m
  pub once : (i k : ℕ) → i < 8192 → k < 8192 → b.a_hash i ≡ b.a_hash k → b.a_hash i ≢ 0 → i ≡ k
  pub entry : (j : ℕ) → j < m → (d : ℕ) × Reaches b.a_hash (wal_hash (b.a_pgno j)) (suc j) d
  pub used : (j : ℕ) → j < m → 0 < b.a_pgno j
  pub unused : (j : ℕ) → m ≤ j → b.a_pgno j ≡ 0

pub wal_hash-small : (page : ℕ) → wal_hash page < 8192
unfolding wal_hash
wal_hash-small page = omega arith

pub put-same {ℓ} : {A : Type ℓ} (f : ℕ → A) (i : ℕ) (a : A) → put f i a i ≡ a
put-same f i a = ground arith

pub put-other {ℓ} : {A : Type ℓ} (f : ℕ → A) (i : ℕ) (a : A) (j : ℕ) → j ≢ i → put f i a j ≡ f j
put-other f i a j h = ground arith

module _ (f : ℕ → ℕ) (s m : ℕ) (free : f s ≡ 0) where
  -- A slot that was taken still has its value.
  kept : (k : ℕ) → 0 < f k → put f s (suc m) k ≡ f k
  kept k h = put-other f s (suc m) k (λ e. let z : f k ≡ 0 = rw e free in omega arith)

  Reaches-kept : {k j d : ℕ} → Reaches f k (suc j) d → Reaches (put f s (suc m)) k (suc j) d
  Reaches-kept {k} {j} {d} r = record {
    near = r.near;
    there = let h = r.there in rw (kept (at k d) (omega arith)) h;
    smaller = λ e l. let h = r.smaller e l in rw (kept (at k e) h.0) h;
  }

module _ (b : Block) (m page d : ℕ) (filled : IsFilled b m) (room : m < 4096) (real : 0 < page)
    (near : d ≤ m) (gap : IsGap b.a_hash (wal_hash page) d) where
  slot : ℕ
  slot = at (wal_hash page) d

  grown : Block
  grown = record { a_pgno = put b.a_pgno m page; a_hash = put b.a_hash slot (suc m) }

  enter-grown : enter (suc m) page (at (wal_hash page) d) b ≡ grown
  unfolding enter grown slot
  enter-grown =
      let same : (suc m - 1) % 4096 ≡ m = omega arith in
      let small : suc m % 65536 ≡ suc m = omega arith in rw (same, small) refl

  fresh : Reaches grown.a_hash (wal_hash page) (suc m) d
  unfolding grown slot
  fresh = record {
    near = omega arith;
    there = put-same b.a_hash (at (wal_hash page) d) (suc m);
    smaller = λ e l.
        let h = gap.taken e l in
        let top = filled.bound (at (wal_hash page) e) (omega arith) in
        rw (kept b.a_hash (at (wal_hash page) d) m gap.free (at (wal_hash page) e) h)
          (h, omega arith);
  }

  grown-entry :
      (j : ℕ) → j < suc m → (d' : ℕ) × Reaches grown.a_hash (wal_hash (grown.a_pgno j)) (suc j) d'
  unfolding grown slot
  grown-entry j l = elim (ℕ_discrete j m) [
    | yes e ↦ rw (e, put-same b.a_pgno m page) (d, fresh)
    | no other ↦
        let (d', r) = filled.entry j (omega arith) in
        rw (put-other b.a_pgno m page j other) (d', Reaches-kept b.a_hash _ m gap.free r)
  ]

  grown-IsFilled : IsFilled grown (suc m)
  unfolding grown slot
  grown-IsFilled = record {
    few = omega arith;
    bound = λ k l. let h = filled.bound k l in ground arith;
    once = λ i k li lk same set.
        let hi = filled.bound i li in
        let hk = filled.bound k lk in let h = filled.once i k li lk in ground arith;
    entry = grown-entry;
    used = λ j l. let h = filled.used j in ground (arith, real);
    unused = λ j l. let h = filled.unused j in ground arith;
  }

  pub enter-IsFilled : IsFilled (enter (suc m) page (at (wal_hash page) d) b) (suc m)
  enter-IsFilled = rw enter-grown grown-IsFilled
