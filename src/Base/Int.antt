-- ===== src/Base/Int.antt =====
-- The integers of a database column, and Rust's casts of an `i64` to a smaller word.
use Prim.Native.Nat.{ℕ, ◌+◌, ◌-◌, ◌%◌, ◌^◌}
use mathlib.Core.Bool.{Bool, true, false, not}
use omnimodem.Base.Tests.{◌==◌, ltb, if◌then◌else◌}

-- `negsuc n` is -(n + 1).
pub data ℤ : Type 0 where
  pos : ℕ → ℤ
  negsuc : ℕ → ℤ

-- `i as u8` and `i as u32`: the lowest bits of two's complement.
abbrev pub as_word : ℕ → ℤ → ℕ
as_word w (pos n) = n % 2 ^ w
as_word w (negsuc n) = 2 ^ w - 1 - n % 2 ^ w

-- `i.max(0)`
abbrev pub max_zero : ℤ → ℤ
max_zero (pos n) = pos n
max_zero (negsuc n) = pos 0

-- `i != 0`
abbrev pub is_nonzero : ℤ → Bool
is_nonzero (pos n) = not (n == 0)
is_nonzero (negsuc n) = true

-- `b as i64`
abbrev pub as_i64 : Bool → ℤ
as_i64 true = pos 1
as_i64 false = pos 0

-- `i + n`
abbrev pub offset : ℤ → ℕ → ℤ
offset (pos a) n = pos (a + n)
offset (negsuc a) n = if ltb a n then pos (n - a - 1) else negsuc (a - n)

-- `n - m`
abbrev pub minus : ℕ → ℕ → ℤ
minus n m = if ltb n m then negsuc (m - n - 1) else pos (n - m)
