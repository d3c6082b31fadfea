-- ===== src/Base/Ints.antt =====
-- The type int of C, for arguments that a caller may make negative.
use Prim.Native.Nat.{ℕ, suc, ◌-◌, ◌%◌, ◌^◌}

pub data ℤ : Type 0 where
  pos negsuc : ℕ → ℤ

-- (u32)n
abbrev pub to_u32 : ℤ → ℕ
to_u32 (pos n) = n % 2 ^ 32
to_u32 (negsuc n) = (2 ^ 32 - suc n) % 2 ^ 32
