-- ===== src/Opcode/Arithmetic.antt =====
-- include/Opcode/Arithmetic.hpp. A `uint8_t` or `uint16_t` parameter is a number of that range.
use tiny_wasm.Base.{ℕ, Bool, bit}
use tiny_wasm.Base.Result.{Result, ok, ◌>>=◌}
use tiny_wasm.Base.Text.{Text}
use tiny_wasm.Opcode.Base.{
  RegType, arm64_opcode, set_bits, set_sf, set_shift, set_sh, set_rm, set_rn, set_rd, set_imm6,
  set_imm12, get_instruction,
}

-- The parameters: isSub, regType, rd, rn, rm, imm, shift, isCmp, smallEndian.
unfoldable pub encode_add_sub_shift : Bool → RegType → ℕ → ℕ → ℕ → ℕ → ℕ → Bool → Bool → Result Text
encode_add_sub_shift is_sub reg_type rd rn rm imm shift is_cmp small_endian = do
  opcode ← ok (arm64_opcode small_endian)
  opcode ← set_sf reg_type opcode
  opcode ← set_bits 0b1011 24 opcode
  opcode ← set_bits (bit is_sub) 30 opcode
  opcode ← set_bits (bit is_cmp) 29 opcode
  opcode ← set_shift shift opcode
  opcode ← set_rm rm opcode
  opcode ← set_rn rn opcode
  opcode ← set_rd rd opcode
  opcode ← set_imm6 imm opcode
  get_instruction opcode

unfoldable pub encode_mul : RegType → ℕ → ℕ → ℕ → Bool → Result Text
encode_mul reg_type rd rn rm small_endian = do
  opcode ← ok (arm64_opcode small_endian)
  opcode ← set_sf reg_type opcode
  opcode ← set_bits 0b00011011000000000111110000000000 0 opcode
  opcode ← set_rm rm opcode
  opcode ← set_rn rn opcode
  opcode ← set_rd rd opcode
  get_instruction opcode

unfoldable pub encode_div : RegType → Bool → ℕ → ℕ → ℕ → Bool → Result Text
encode_div reg_type is_signed rd rn rm small_endian = do
  opcode ← ok (arm64_opcode small_endian)
  opcode ← set_sf reg_type opcode
  opcode ← set_bits 0b1101011 22 opcode
  opcode ← set_bits 1 11 opcode
  opcode ← set_bits (bit is_signed) 10 opcode
  opcode ← set_rm rm opcode
  opcode ← set_rn rn opcode
  opcode ← set_rd rd opcode
  get_instruction opcode

-- The parameters: regType, isSub, rd, rn, imm, shift, isCmp, setFlag, smallEndian. The source
-- does not read isCmp.
unfoldable pub encode_add_sub_imm :
    RegType → Bool → ℕ → ℕ → ℕ → ℕ → Bool → Bool → Bool → Result Text
encode_add_sub_imm reg_type is_sub rd rn imm shift is_cmp set_flag small_endian = do
  opcode ← ok (arm64_opcode small_endian)
  opcode ← set_sf reg_type opcode
  opcode ← set_bits (bit is_sub) 30 opcode
  opcode ← set_bits (bit set_flag) 29 opcode
  opcode ← set_bits 0b10001 24 opcode
  opcode ← set_sh shift opcode
  opcode ← set_imm12 imm opcode
  opcode ← set_rn rn opcode
  opcode ← set_rd rd opcode
  get_instruction opcode
