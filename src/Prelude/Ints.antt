-- ===== src/Prelude/Ints.antt =====
-- Go's int64, as an integer, and its conversions from and to uint64.
use Prim.Native.Nat.{ℕ, ◌+◌, ◌-◌, ◌^◌, ◌≤◌, ◌<◌}
use mathlib.Core.Path.{◌≡◌}
use mathlib.Core.Bool.{Bool, true, false}
use native.Mathlib.Omega.{arith}
use bancod.Prelude.Tests.{ltb, if◌then◌else◌}
use bancod.Prelude.Words.{IsU64}

-- `negsuc n` is -(n + 1).
pub data ℤ : Type 0 where
  pos : ℕ → ℤ
  negsuc : ℕ → ℤ

abbrev pub pos_part : ℤ → ℕ
pos_part (pos n) = n
pos_part (negsuc n) = 0

abbrev pub neg_part : ℤ → ℕ
neg_part (pos n) = 0
neg_part (negsuc n) = n + 1

abbrev pub IsI64 : ℤ → Type 0
IsI64 z = (pos_part z < 2 ^ 63) × (neg_part z ≤ 2 ^ 63)

-- `int64(n)` of a uint64: the same 64 bits.
abbrev pub to_i64 : ℕ → ℤ
to_i64 n = if ltb n (2 ^ 63) then pos n else negsuc (2 ^ 64 - 1 - n)

-- `uint64(z)` of an int64: the same 64 bits.
abbrev pub to_u64 : ℤ → ℕ
to_u64 (pos n) = n
to_u64 (negsuc n) = 2 ^ 64 - 1 - n

abbrev pub is_negative : ℤ → Bool
is_negative (pos n) = false
is_negative (negsuc n) = true

pub to_u64-to_i64 : (n : ℕ) → IsU64 n → to_u64 (to_i64 n) ≡ n
to_u64-to_i64 n h = ground arith

pub to_i64-to_u64 : (z : ℤ) → IsI64 z → to_i64 (to_u64 z) ≡ z
to_i64-to_u64 (pos n) h = ground arith
to_i64-to_u64 (negsuc n) h = ground arith

pub to_i64-IsI64 : (n : ℕ) → IsU64 n → IsI64 (to_i64 n)
to_i64-IsI64 n h = ground arith

pub to_i64-injective : (m n : ℕ) → IsU64 m → IsU64 n → to_i64 m ≡ to_i64 n → m ≡ n
to_i64-injective m n hm hn e = ground arith
