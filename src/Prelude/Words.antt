-- ===== src/Prelude/Words.antt =====
-- Unsigned integers of a fixed width, and encoding/binary's big-endian form of them.
use Prim.Native.Nat.{ℕ, ◌+◌, ◌-◌, ◌*◌, ◌/◌, ◌%◌, ◌^◌, ◌<◌}
use mathlib.Core.Path.{◌≡◌, ap}
use mathlib.Core.List.{[], ◌∷◌}
use native.Mathlib.Omega.{arith}
use native.Mathlib.Nat.{pow-suc}
use bancod.Prelude.Lists.{Bytes, length, All}

abbrev pub IsByte : ℕ → Type 0
IsByte b = b < 256

abbrev pub IsU16 : ℕ → Type 0
IsU16 n = n < 2 ^ 16

abbrev pub IsU32 : ℕ → Type 0
IsU32 n = n < 2 ^ 32

abbrev pub IsU64 : ℕ → Type 0
IsU64 n = n < 2 ^ 64

-- `a + b` and `a - b` on uint64, and on the bits of int64.
abbrev pub add_u64 : ℕ → ℕ → ℕ
add_u64 a b = (a + b) % 2 ^ 64

abbrev pub sub_u64 : ℕ → ℕ → ℕ
sub_u64 a b = (a + (2 ^ 64 - b % 2 ^ 64)) % 2 ^ 64

-- `binary.BigEndian.Uint16` of two bytes.
abbrev pub be_u16 : ℕ → ℕ → ℕ
be_u16 hi lo = hi * 256 + lo

-- `binary.BigEndian.PutUint16` into two bytes.
abbrev pub put_u16 : ℕ → Bytes
put_u16 n = (n / 256) ∷ (n % 256) ∷ []

-- `binary.BigEndian.Uint64`, as the Horner sum over the bytes.
abbrev pub be_value : ℕ → Bytes → ℕ
be_value acc [] = acc
be_value acc (b ∷ bs) = be_value (acc * 256 + b) bs

-- `binary.BigEndian.PutUint64` into eight bytes.
abbrev pub put_u64 : ℕ → Bytes
put_u64 n =
    (n / 256 ^ 7 % 256)
    ∷ (n / 256 ^ 6 % 256)
    ∷ (n / 256 ^ 5 % 256)
    ∷ (n / 256 ^ 4 % 256)
    ∷ (n / 256 ^ 3 % 256)
    ∷ (n / 256 ^ 2 % 256)
    ∷ (n / 256 % 256)
    ∷ (n % 256)
    ∷ []

pub be_value-put_u64 : (n : ℕ) → IsU64 n → be_value 0 (put_u64 n) ≡ n
be_value-put_u64 n h = omega arith

pub put_u64-IsByte : (n : ℕ) → All IsByte (put_u64 n)
put_u64-IsByte n = omega arith

be_value-lt :
    (bs : Bytes) (acc m : ℕ) → All IsByte bs → acc < m → be_value acc bs < m * 256 ^ length bs
be_value-lt [] acc m h k = omega arith
be_value-lt (b ∷ bs) acc m (p, h) k = omega (
  arith,
  be_value-lt bs (acc * 256 + b) (m * 256) h (omega arith),
  ap (λ (t : ℕ). m * t) (pow-suc 256 (length bs)),
)

-- Eight bytes hold a 64-bit number.
pub be_value-IsU64 : (bs : Bytes) → All IsByte bs → length bs ≡ 8 → IsU64 (be_value 0 bs)
be_value-IsU64 bs h e = omega (arith, be_value-lt bs 0 1 h (omega arith), ap (λ (t : ℕ). 256 ^ t) e)
