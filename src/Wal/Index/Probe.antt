-- ===== src/Wal/Index/Probe.antt =====
-- Probe sequences of the hash tables of the wal-index: a table with fewer entries than slots has an
-- empty slot within as many probes as it has entries.
use litebtree.Base.{
  ℕ, zero, suc, ◌+◌, ◌-◌, ◌%◌, ◌≤◌, ◌<◌, ◌≡◌, ◌≢◌, if◌then◌else◌, ◌==◌, arith, ◌⊎◌, inl, inr,
  ℕ_discrete, some,
}
use litebtree.Wal.Index.{wal_next_hash, free_slot}

-- The slot at distance d from the slot k.
abbrev pub at : ℕ → ℕ → ℕ
at k d = (k + d) % 8192

-- The first empty slot of the probe sequence from k is at distance d.
pub record IsGap (f : ℕ → ℕ) (k d : ℕ) : Type 0 where
  pub free : f (at k d) ≡ 0
  pub taken : (e : ℕ) → e < d → 0 < f (at k e)

-- Either a function has a zero up to n, and then a first one, or none.
first_zero :
    (f : ℕ → ℕ) (n : ℕ)
    → ((d : ℕ) × (d ≤ n) × (f d ≡ 0) × ((e : ℕ) → e < d → 0 < f e)) ⊎ ((e : ℕ) → e ≤ n → 0 < f e)
first_zero f zero = elim (ℕ_discrete (f 0) 0) [
  | yes z ↦ inl (0, omega arith, z, λ e l. absurd (omega arith))
  | no z ↦ inr (λ e l. let same : e ≡ 0 = omega arith in rw same (omega arith))
]
first_zero f (suc n) = elim (first_zero f n) [
  | inl (d, l, z, t) ↦ inl (d, omega arith, z, t)
  | inr t ↦ elim (ℕ_discrete (f (suc n)) 0) [
    | yes z ↦ inl (suc n, omega arith, z, λ e l. t e (omega arith))
    | no z ↦ inr (λ e l. elim (ℕ_discrete e (suc n)) [
      | yes same ↦ rw same (omega arith)
      | no other ↦ t e (omega arith)
    ])
  ]
]

-- No n + 1 different numbers fit between 1 and n.
pigeonhole :
    (n : ℕ) (f : ℕ → ℕ)
    → ((e : ℕ) → e ≤ n → (0 < f e) × (f e ≤ n))
    → ((e e' : ℕ) → e < e' → e' ≤ n → f e ≢ f e')
    → ⊥
pigeonhole zero f inside apart = let h = inside 0 (omega arith) in omega arith
pigeonhole (suc n) f inside apart =
    let g : ℕ → ℕ = λ e. if f e == suc n then f (suc n) else f e in
    pigeonhole n g
      (λ e l.
        let a = inside e (omega arith) in
        let b = inside (suc n) (omega arith) in
        let c = apart e (suc n) (omega arith) (omega arith) in ground arith)
      (λ e e' l m.
        let a = apart e e' l (omega arith) in
        let b = apart e (suc n) (omega arith) (omega arith) in
        let c = apart e' (suc n) (omega arith) (omega arith) in ground arith)

-- A table whose nonzero values are at most m, and each in one slot, has a gap within m probes.
pub has-IsGap :
    (f : ℕ → ℕ) (m k : ℕ)
    → m < 8192
    → ((i : ℕ) → i < 8192 → f i ≤ m)
    → ((i j : ℕ) → i < 8192 → j < 8192 → f i ≡ f j → f i ≢ 0 → i ≡ j)
    → (d : ℕ) × (d ≤ m) × IsGap f k d
has-IsGap f m k small bound once = elim (first_zero (λ d. f (at k d)) m) [
  | inl (d, l, z, t) ↦ (d, l, record { free = z; taken = t })
  | inr t ↦ absurd (
      pigeonhole m (λ d. f (at k d)) (λ e l. (t e l, bound (at k e) (omega arith)))
        (λ e e' l n same.
          let p = t e (omega arith) in
          let q = once (at k e) (at k e') (omega arith) (omega arith) same (omega arith) in
          omega arith))
]

pub at-zero : (k : ℕ) → k < 8192 → at k 0 ≡ k
at-zero k h = omega arith

pub at-step : (k e : ℕ) → at (at k 1) e ≡ at k (suc e)
at-step k e = omega arith

pub at-back : (k e : ℕ) → 0 < e → at (at k 1) (e - 1) ≡ at k e
at-back k e h = omega arith

pub IsGap-step : (f : ℕ → ℕ) (k d : ℕ) → IsGap f k (suc d) → IsGap f (at k 1) d
IsGap-step f k d g = record {
  free = rw (at-step k d) g.free;
  taken = λ e l. rw (at-step k e) (g.taken (suc e) (omega arith));
}

pub free_slot-gap :
    (n d : ℕ) (f : ℕ → ℕ) (k : ℕ) → k < 8192 → d ≤ n → IsGap f k d → free_slot n f k ≡ some (at k d)
unfolding free_slot wal_next_hash
free_slot-gap zero zero f k h l g = rw (at-zero k h) (ground (arith, at-zero k h, g.free))
free_slot-gap zero (suc d) f k h l g = absurd (omega arith)
free_slot-gap (suc n) zero f k h l g = rw (at-zero k h) (ground (arith, at-zero k h, g.free))
free_slot-gap (suc n) (suc d) f k h l g =
    let first : 0 < f k = rw (← at-zero k h) (g.taken 0 (omega arith)) in
    let rest = free_slot-gap n d f (at k 1) (omega arith) (omega arith) (IsGap-step f k d g) in
    let end : free_slot n f (at k 1) ≡ some (at k (suc d)) = rw (← at-step k d) rest in
    ground (arith, first, end)
