-- ===== src/Opcode/Compare.antt =====
-- include/Opcode/Compare.hpp, and the table of conditions of include/Opcode/Base.hpp.
use tiny_wasm.Base.{ℕ, Bool, true, false, bit}
use tiny_wasm.Base.Result.{Result, ok, ◌>>=◌}
use tiny_wasm.Base.Text.{Text}
use tiny_wasm.Opcode.Base.{
  RegType, arm64_opcode, set_bits, set_sf, set_rm, set_rn, set_rd, set_cond, get_instruction,
}
use tiny_wasm.Opcode.Arithmetic.{encode_add_sub_shift, encode_add_sub_imm}

-- The parameters: regType, rn, rm, imm6, shift, smallEndian.
unfoldable pub encode_compare_negative_shift : RegType → ℕ → ℕ → ℕ → ℕ → Bool → Result Text
encode_compare_negative_shift reg_type rn rm imm6 shift small_endian =
    encode_add_sub_shift false reg_type 31 rn rm imm6 shift true small_endian

unfoldable pub encode_compare_shift : RegType → ℕ → ℕ → ℕ → ℕ → Bool → Result Text
encode_compare_shift reg_type rn rm imm6 shift small_endian =
    encode_add_sub_shift true reg_type 31 rn rm imm6 shift true small_endian

unfoldable pub encode_compare_imm : RegType → ℕ → ℕ → Bool → Bool → Result Text
encode_compare_imm reg_type rn imm12 shift small_endian =
    encode_add_sub_imm reg_type true 31 rn imm12 (bit shift) true true small_endian

unfoldable pub encode_csel : RegType → ℕ → ℕ → ℕ → ℕ → Bool → Result Text
encode_csel reg_type rd rn rm cond small_endian = do
  opcode ← ok (arm64_opcode small_endian)
  opcode ← set_sf reg_type opcode
  opcode ← set_bits 0b110101 23 opcode
  opcode ← set_rd rd opcode
  opcode ← set_rm rm opcode
  opcode ← set_rn rn opcode
  opcode ← set_cond cond opcode
  get_instruction opcode
