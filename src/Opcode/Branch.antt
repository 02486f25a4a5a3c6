-- ===== src/Opcode/Branch.antt =====
-- include/Opcode/Branch.hpp. Displacements count instructions.
use tiny_wasm.Base.{ℕ, Bool, bit}
use tiny_wasm.Base.Int.{ℤ, pos, low_bits, shift_right}
use tiny_wasm.Base.Result.{Result, ok, ◌>>=◌}
use tiny_wasm.Base.Text.{Text}
use tiny_wasm.Opcode.Base.{
  arm64_opcode, set_field, set_bits, set_rn, set_rd, set_imm19, get_instruction,
}

unfoldable pub encode_return : ℕ → Bool → Result Text
encode_return rn small_endian = do
  opcode ← ok (arm64_opcode small_endian)
  opcode ← set_bits 0b1101011001011111000000 10 opcode
  opcode ← set_rn rn opcode
  get_instruction opcode

unfoldable pub encode_branch : ℤ → Bool → Bool → Result Text
encode_branch imm with_link small_endian = do
  opcode ← ok (arm64_opcode small_endian)
  opcode ← set_bits 0b101 26 opcode
  opcode ← set_bits (bit with_link) 31 opcode
  opcode ← set_field imm 0 26 opcode
  get_instruction opcode

unfoldable pub encode_branch_condition : ℤ → ℕ → Bool → Result Text
encode_branch_condition imm19 cond small_endian = do
  opcode ← ok (arm64_opcode small_endian)
  opcode ← set_bits 0b01010100 24 opcode
  opcode ← set_imm19 imm19 opcode
  opcode ← set_field (pos cond) 0 4 opcode
  get_instruction opcode

unfoldable pub encode_branch_register : ℕ → Bool → Bool → Result Text
encode_branch_register rn has_return small_endian = do
  opcode ← ok (arm64_opcode small_endian)
  opcode ← set_bits 0b1101011000011111000000 10 opcode
  opcode ← set_bits (bit has_return) 21 opcode
  opcode ← set_field (pos rn) 5 5 opcode
  get_instruction opcode

unfoldable pub encode_adr : ℕ → ℤ → Bool → Result Text
encode_adr rd imm small_endian = do
  opcode ← ok (arm64_opcode small_endian)
  opcode ← set_bits 1 28 opcode
  opcode ← set_field (pos (low_bits imm 2)) 29 2 opcode
  opcode ← set_field (pos (low_bits (shift_right imm 2) 19)) 5 19 opcode
  opcode ← set_rd rd opcode
  get_instruction opcode
