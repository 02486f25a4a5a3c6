-- ===== src/Opcode/Layout/Branch.antt =====
-- The words of include/Opcode/Branch.hpp, field by field.
use tiny_wasm.Base.{ℕ, ◌+◌, ◌-◌, ◌*◌, ◌^◌, ◌<◌, ◌≡◌, Bool, false, arith, bit, bit-lt}
use native.Mathlib.Nat.{mod-lt}
use tiny_wasm.Base.Int.{ℤ, low_bits, exceeds}
use tiny_wasm.Base.Result.{ok}
use tiny_wasm.Opcode.Fields.{put, put_masked, field_of, finish, word_text}
use tiny_wasm.Opcode.Branch.{
  encode_return, encode_branch, encode_branch_condition, encode_branch_register,
}

-- RET: with the register in range, every field stands at its place.
pub encode_return-word :
    (rn : ℕ) (e : Bool)
    → rn < 32
    → encode_return rn e ≡ ok (word_text e (0b1101011001011111000000 * 2 ^ 10 + rn * 2 ^ 5))
unfolding encode_return
encode_return-word rn e hn =
    put 22 _ _ _ _ _ _ (omega arith) (put 5 _ _ _ _ _ _ (omega arith) (finish _ _ _ (omega arith)))

-- B and BL of a displacement that is not above the encoder's limit: every field stands at its place.
pub encode_branch-word :
    (imm : ℤ) (link e : Bool)
    → exceeds imm (2 ^ 26 - 1) ≡ false
    → encode_branch imm link e
      ≡ ok (word_text e (bit link * 2 ^ 31 + 0b101 * 2 ^ 26 + field_of imm 26))
unfolding encode_branch
encode_branch-word imm link e h =
    let hl = bit-lt link in
    let hf : field_of imm 26 < 2 ^ 26 = mod-lt (low_bits imm 64) (omega arith) in
    put 3 _ _ _ _ _ _ (omega arith) (
      put 1 _ _ _ _ _ _ (omega arith)
        (put_masked 26 _ _ _ _ _ _ h (hf, omega arith, omega arith) (finish _ _ _ (omega arith))))

-- B.cond of a displacement that is not above the encoder's limit, with the condition in range: every
-- field stands at its place.
pub encode_branch_condition-word :
    (imm : ℤ) (cond : ℕ) (e : Bool)
    → exceeds imm (2 ^ 19 - 1) ≡ false
    → cond < 16
    → encode_branch_condition imm cond e
      ≡ ok (word_text e (0b01010100 * 2 ^ 24 + field_of imm 19 * 2 ^ 5 + cond))
unfolding encode_branch_condition
encode_branch_condition-word imm cond e h hc =
    let hf : field_of imm 19 < 2 ^ 19 = mod-lt (low_bits imm 64) (omega arith) in
    put 8 _ _ _ _ _ _ (omega arith) (
      put_masked 19 _ _ _ _ _ _ h (hf, omega arith, omega arith)
        (put 4 _ _ _ _ _ _ (omega arith) (finish _ _ _ (omega arith))))

-- BR and BLR: with the register in range, every field stands at its place.
pub encode_branch_register-word :
    (rn : ℕ) (link e : Bool)
    → rn < 32
    → encode_branch_register rn link e
      ≡ ok (word_text e (0b1101011000011111000000 * 2 ^ 10 + bit link * 2 ^ 21 + rn * 2 ^ 5))
unfolding encode_branch_register
encode_branch_register-word rn link e hn =
    let hl = bit-lt link in
    put 22 _ _ _ _ _ _ (omega arith) (
      put 1 _ _ _ _ _ _ (omega arith)
        (put 5 _ _ _ _ _ _ (omega arith) (finish _ _ _ (omega arith))))
