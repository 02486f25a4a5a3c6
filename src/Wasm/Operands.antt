-- ===== src/Wasm/Operands.antt =====
-- The operators of WebAssembly on a stack of integers, as its specification gives them. An i32 or
-- i64 is the number of its bits; `wide` marks an i64.
pub mod Conditions
pub mod Emitted
pub mod Stacked
pub mod Simulation
pub mod Bytes
pub mod Programs
use tiny_wasm.Base.{
  ℕ, ◌+◌, ◌-◌, ◌*◌, ◌%◌, ◌^◌, Bool, true, false, not, ltb, leb, ◌==◌, bit, List, [], ◌∷◌, Option,
  some, none, if◌then◌else◌, bits_of,
}
use tiny_wasm.Base.Int.{ℤ, low_bits}
use tiny_wasm.Base.Text.{Text, text}

pub data Arithmetic : Type 0 where
  add sub mul : Arithmetic

pub data Comparison : Type 0 where
  eq ne lt_s lt_u gt_s gt_u le_s le_u ge_s ge_u : Comparison

pub data Operator : Type 0 where
  const : Bool → ℤ → Operator
  arithmetic : Arithmetic → Bool → Operator
  compare : Comparison → Bool → Operator

abbrev pub Entry : Type 0
Entry = Bool × ℕ

abbrev pub calculate : Arithmetic → ℕ → ℕ → ℕ → ℕ
calculate add w a b = (a + b) % 2 ^ w
calculate sub w a b = (a + 2 ^ w - b) % 2 ^ w
calculate mul w a b = a * b % 2 ^ w

-- The order of signed integers is that of the bits with the sign bit turned over.
abbrev pub signed_lt : ℕ → ℕ → ℕ → Bool
signed_lt w a b = ltb ((a + 2 ^ (w - 1)) % 2 ^ w) ((b + 2 ^ (w - 1)) % 2 ^ w)

abbrev pub relates : Comparison → ℕ → ℕ → ℕ → Bool
relates eq w a b = a == b
relates ne w a b = not (a == b)
relates lt_s w a b = signed_lt w a b
relates lt_u w a b = ltb a b
relates gt_s w a b = signed_lt w b a
relates gt_u w a b = ltb b a
relates le_s w a b = not (signed_lt w b a)
relates le_u w a b = leb a b
relates ge_s w a b = not (signed_lt w a b)
relates ge_u w a b = leb b a

abbrev pub same_type : Bool → Bool → Bool
same_type true b = b
same_type false b = not b

-- Two operands of the operator's type on top, the second one first; otherwise the code is not valid.
abbrev pub binary : Bool → (ℕ → ℕ → Entry) → List Entry → Option (List Entry)
binary wide f [] = none
binary wide f (e ∷ []) = none
binary wide f ((v, b) ∷ (u, a) ∷ es) =
    if same_type wide v then (if same_type wide u then some (f a b ∷ es) else none) else none

abbrev pub evaluate : Operator → List Entry → Option (List Entry)
evaluate (const wide n) es = some ((wide, low_bits n (bits_of wide)) ∷ es)
evaluate (arithmetic op wide) es = binary wide (λ a b. (wide, calculate op (bits_of wide) a b)) es
evaluate (compare op wide) es = binary wide (λ a b. (false, bit (relates op (bits_of wide) a b))) es
