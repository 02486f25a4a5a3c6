-- ===== src/A64.antt =====
-- The instructions of straight-line code, as the Arm manual (DDI 0602) describes them: the word of each,
-- and what it does to the registers, the memory and the flags. The processor itself is a parameter,
-- a function `step` from a word and a state to a state; `IsA64` says that it follows the manual.
pub mod Memory
pub mod Decode
pub mod Code
use tiny_wasm.Base.{
  ℕ, ◌+◌, ◌-◌, ◌*◌, ◌/◌, ◌%◌, ◌^◌, ◌≤◌, ◌<◌, ◌≡◌, ◌≢◌, Bool, true, false, not, ◌&&◌, ◌||◌, ◌==◌,
  ltb, leb, bit, if◌then◌else◌, bits_of, zero, suc, List, [], ◌∷◌,
}
use tiny_wasm.Opcode.Base.{LdStType, str, ldr, is_ldr}

-- N, Z, C and V.
pub record Flags : Type 0 where
  pub negative : Bool
  pub is_zero : Bool
  pub carry : Bool
  pub overflow : Bool

-- X0 to X30, the stack pointer, and the memory by bytes.
pub record Machine : Type 0 where
  pub x : ℕ → ℕ
  pub sp : ℕ
  pub memory : ℕ → ℕ
  pub flags : Flags

-- The bytes of a register.
abbrev pub bytes_of : Bool → ℕ
bytes_of true = 8
bytes_of false = 4

-- A general register, `wide` for X and not for W.
abbrev pub read : Bool → ℕ → Machine → ℕ
read wide n s = s.x n % 2 ^ bits_of wide

-- A write to a W register clears the upper half of the X register.
abbrev pub write_x : ℕ → ℕ → Machine → Machine
write_x n v s = record s { x = λ k. if k == n then v else s.x k }

-- Register 31 is the stack pointer where a base is read.
abbrev pub base_of : ℕ → Machine → ℕ
base_of n s = if n == 31 then s.sp else s.x n

-- Little-endian loads and stores of `n` bytes.
unfoldable pub load : ℕ → ℕ → (ℕ → ℕ) → ℕ
load zero a m = 0
load (suc n) a m = m a + 256 * load n (a + 1) m

unfoldable pub store : ℕ → ℕ → ℕ → (ℕ → ℕ) → ℕ → ℕ
store zero a v m = m
store (suc n) a v m = store n (a + 1) (v / 256) λ b. if b == a then v % 256 else m b

-- The flags of a subtraction of `w` bits.
abbrev pub subtract_flags : ℕ → ℕ → ℕ → Flags
subtract_flags w a b =
    let d = (a + 2 ^ w - b) % 2 ^ w in
    record {
      negative = leb (2 ^ (w - 1)) d;
      is_zero = d == 0;
      carry = leb b a;
      overflow =
          (leb (2 ^ (w - 1)) a && ltb b (2 ^ (w - 1)) && ltb d (2 ^ (w - 1)))
          || (ltb a (2 ^ (w - 1)) && leb (2 ^ (w - 1)) b && leb (2 ^ (w - 1)) d);
    }

abbrev pub same : Bool → Bool → Bool
same true b = b
same false b = not b

-- The conditions by their codes.
unfoldable pub holds : ℕ → Flags → Bool
holds c f =
    if c == 0
    then f.is_zero
    else if c == 1
    then not f.is_zero
    else if c == 2
    then f.carry
    else if c == 3
    then not f.carry
    else if c == 8
    then f.carry && not f.is_zero
    else if c == 9
    then not (f.carry && not f.is_zero)
    else if c == 10
    then same f.negative f.overflow
    else if c == 11
    then not (same f.negative f.overflow)
    else if c == 12
    then not f.is_zero && same f.negative f.overflow
    else if c == 13
    then not (not f.is_zero && same f.negative f.overflow)
    else true

-- The first argument of an arithmetic instruction is set for a subtraction, the Boolean before the
-- registers for X registers.
pub data Instruction : Type 0 where
  add_sub_shift : Bool → Bool → ℕ → ℕ → ℕ → Instruction
  mul : Bool → ℕ → ℕ → ℕ → Instruction
  add_sub_imm : Bool → ℕ → ℕ → ℕ → Instruction
  movz movk : Bool → ℕ → ℕ → ℕ → Instruction
  load_store_reg load_store_imm : LdStType → Bool → ℕ → ℕ → ℕ → Instruction
  compare_shift : Bool → ℕ → ℕ → Instruction
  csel : ℕ → ℕ → ℕ → ℕ → Instruction
  -- A store of the zero register, and a step of the stack pointer.
  store_zero : Bool → ℕ → ℕ → Instruction
  add_sub_sp : Bool → ℕ → Instruction

abbrev pub sum_or_difference : Bool → ℕ → ℕ → ℕ → ℕ
sum_or_difference true w a b = (a + 2 ^ w - b) % 2 ^ w
sum_or_difference false w a b = (a + b) % 2 ^ w

abbrev pub transfer : LdStType → Bool → ℕ → ℕ → Machine → Machine
transfer ldr wide rt a s = write_x rt (load (bytes_of wide) a s.memory) s
transfer str wide rt a s = record s { memory = store (bytes_of wide) a (read wide rt s) s.memory }

-- `imm` put over the sixteen bits of `old` that start at `p`.
abbrev pub put_half : ℕ → ℕ → ℕ → ℕ
put_half old p imm = old / (p * 2 ^ 16) * (p * 2 ^ 16) + imm * p + old % p

abbrev pub perform : Instruction → Machine → Machine
perform (add_sub_shift sub wide rd rn rm) s =
    write_x rd (sum_or_difference sub (bits_of wide) (read wide rn s) (read wide rm s)) s
perform (mul wide rd rn rm) s = write_x rd (read wide rn s * read wide rm s % 2 ^ bits_of wide) s
perform (add_sub_imm sub rd rn imm) s = write_x rd (sum_or_difference sub 64 (read true rn s) imm) s
perform (movz wide rd hw imm) s = write_x rd (imm * 2 ^ (16 * hw)) s
perform (movk wide rd hw imm) s = write_x rd (put_half (read wide rd s) (2 ^ (16 * hw)) imm) s
perform (load_store_reg t wide rt rn rm) s = transfer t wide rt ((base_of rn s + s.x rm) % 2 ^ 64) s
perform (load_store_imm t wide rt rn units) s =
    transfer t wide rt ((base_of rn s + units * bytes_of wide) % 2 ^ 64) s
perform (compare_shift wide rn rm) s = record s {
  flags = subtract_flags (bits_of wide) (read wide rn s) (read wide rm s);
}
perform (store_zero wide rn units) s = record s {
  memory = store (bytes_of wide) ((base_of rn s + units * bytes_of wide) % 2 ^ 64) 0 s.memory;
}
perform (add_sub_sp sub imm) s = record s { sp = sum_or_difference sub 64 s.sp imm }
perform (csel rd rn rm cond) s = write_x rd (if holds cond s.flags then s.x rn else s.x rm) s

-- The word, field by field.
abbrev pub word_of : Instruction → ℕ
word_of (add_sub_shift sub wide rd rn rm) =
    bit wide * 2 ^ 31 + bit sub * 2 ^ 30 + 0b01011 * 2 ^ 24 + rm * 2 ^ 16 + rn * 2 ^ 5 + rd
word_of (mul wide rd rn rm) =
    bit wide * 2 ^ 31 + 0b0011011 * 2 ^ 24 + rm * 2 ^ 16 + 31 * 2 ^ 10 + rn * 2 ^ 5 + rd
word_of (add_sub_imm sub rd rn imm) =
    2 ^ 31 + bit sub * 2 ^ 30 + 0b10001 * 2 ^ 24 + imm * 2 ^ 10 + rn * 2 ^ 5 + rd
word_of (movz wide rd hw imm) =
    bit wide * 2 ^ 31 + 0b10100101 * 2 ^ 23 + hw * 2 ^ 21 + imm * 2 ^ 5 + rd
word_of (movk wide rd hw imm) =
    bit wide * 2 ^ 31 + 0b11100101 * 2 ^ 23 + hw * 2 ^ 21 + imm * 2 ^ 5 + rd
word_of (load_store_reg t wide rt rn rm) =
    2 ^ 31
    + bit wide * 2 ^ 30
    + 0b111 * 2 ^ 27
    + bit (is_ldr t) * 2 ^ 22
    + 2 ^ 21
    + rm * 2 ^ 16
    + 0b011 * 2 ^ 13
    + 2 ^ 11
    + rn * 2 ^ 5
    + rt
word_of (load_store_imm t wide rt rn units) =
    2 ^ 31
    + bit wide * 2 ^ 30
    + 0b111 * 2 ^ 27
    + 2 ^ 24
    + bit (is_ldr t) * 2 ^ 22
    + units * 2 ^ 10
    + rn * 2 ^ 5
    + rt
word_of (compare_shift wide rn rm) =
    bit wide * 2 ^ 31 + 0b1101011 * 2 ^ 24 + rm * 2 ^ 16 + rn * 2 ^ 5 + 31
word_of (store_zero wide rn units) =
    2 ^ 31 + bit wide * 2 ^ 30 + 0b111 * 2 ^ 27 + 2 ^ 24 + units * 2 ^ 10 + rn * 2 ^ 5 + 31
word_of (add_sub_sp sub imm) =
    2 ^ 31 + bit sub * 2 ^ 30 + 0b10001 * 2 ^ 24 + imm * 2 ^ 10 + 31 * 2 ^ 5 + 31
word_of (csel rd rn rm cond) =
    2 ^ 31 + 0b11010100 * 2 ^ 21 + rm * 2 ^ 16 + cond * 2 ^ 12 + rn * 2 ^ 5 + rd

-- The registers are X0 to X30, or W0 to W30, but for a base, and every field fits; the
-- number 31 is the zero register of a store and the stack pointer of an addition in the two that name them.
abbrev pub IsEncodable : Instruction → Type 0
IsEncodable (add_sub_shift sub wide rd rn rm) = (rd < 31) × (rn < 31) × (rm < 31)
IsEncodable (mul wide rd rn rm) = (rd < 31) × (rn < 31) × (rm < 31)
IsEncodable (add_sub_imm sub rd rn imm) = (rd < 31) × (rn < 31) × (imm < 4096)
IsEncodable (movz wide rd hw imm) = (rd < 31) × (hw < 2 + bit wide * 2) × (imm < 65536)
IsEncodable (movk wide rd hw imm) = (rd < 31) × (hw < 2 + bit wide * 2) × (imm < 65536)
IsEncodable (load_store_reg t wide rt rn rm) = (rt < 31) × (rn < 32) × (rm < 31)
IsEncodable (load_store_imm t wide rt rn units) = (rt < 31) × (rn < 32) × (units < 4096)
IsEncodable (compare_shift wide rn rm) = (rn < 31) × (rm < 31)
IsEncodable (store_zero wide rn units) = (rn < 32) × (units < 4096)
IsEncodable (add_sub_sp sub imm) = imm < 4096
IsEncodable (csel rd rn rm cond) = (rd < 31) × (rn < 31) × (rm < 31) × (cond < 14)

-- A processor that follows the manual on these words.
abbrev pub IsA64 : (ℕ → Machine → Machine) → Type 0
IsA64 step = (i : Instruction) (s : Machine) → IsEncodable i → step (word_of i) s ≡ perform i s

-- Words one after the other.
abbrev pub run : (ℕ → Machine → Machine) → List ℕ → Machine → Machine
run step [] s = s
run step (w ∷ ws) s = run step ws (step w s)
