-- ===== src/Base/Int.antt =====
-- Signed integers over the native numbers, for the values that the encoders mask and for the
-- displacement of a branch.
use Prim.Native.Nat.{ℕ, zero, suc, ◌+◌, ◌-◌, ◌/◌, ◌%◌, ◌^◌}
use mathlib.Core.Bool.{Bool, false}
use tiny_wasm.Base.Tests.{leb, ltb, if◌then◌else◌}

-- `negsuc n` is -(n + 1).
pub data ℤ : Type 0 where
  pos : ℕ → ℤ
  negsuc : ℕ → ℤ

-- a - b, as an integer.
abbrev pub sub_ℕ : ℕ → ℕ → ℤ
sub_ℕ a b = if leb b a then pos (a - b) else negsuc (b - a - 1)

-- -n.
abbrev pub neg_ℕ : ℕ → ℤ
neg_ℕ zero = pos 0
neg_ℕ (suc n) = negsuc n

-- C++ division, which truncates towards zero.
abbrev pub trunc_div : ℤ → ℕ → ℤ
trunc_div (pos n) k = pos (n / k)
trunc_div (negsuc n) k = neg_ℕ (suc n / k)

-- `>>` of a signed value, which rounds towards minus infinity.
abbrev pub shift_right : ℤ → ℕ → ℤ
shift_right (pos n) k = pos (n / 2 ^ k)
shift_right (negsuc n) k = negsuc (n / 2 ^ k)

-- The low `w` bits of the two's complement pattern.
abbrev pub low_bits : ℤ → ℕ → ℕ
low_bits (pos n) w = n % 2 ^ w
low_bits (negsuc n) w = 2 ^ w - 1 - n % 2 ^ w

-- `a > pos b`.
abbrev pub exceeds : ℤ → ℕ → Bool
exceeds (pos n) b = ltb b n
exceeds (negsuc n) b = false

-- The signed number that a `w`-bit pattern stands for.
abbrev pub signed : ℕ → ℕ → ℤ
signed w n = if ltb (n + n) (2 ^ w) then pos n else negsuc (2 ^ w - n - 1)
