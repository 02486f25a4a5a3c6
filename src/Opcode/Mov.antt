-- ===== src/Opcode/Mov.antt =====
-- include/Opcode/Mov.hpp.
use tiny_wasm.Base.{ℕ, ◌/◌, ◌^◌, ◌++◌, Bool, true, false}
use tiny_wasm.Base.Int.{ℤ, low_bits, shift_right}
use tiny_wasm.Base.Result.{Result, ok, ◌>>=◌}
use tiny_wasm.Base.Text.{Text}
use tiny_wasm.Opcode.Base.{
  RegType, w_reg, x_reg, arm64_opcode, set_bits, set_sf, set_rm, set_rn, set_rd, set_hw, set_imm16,
  get_instruction,
}
use tiny_wasm.Opcode.Arithmetic.{encode_add_sub_imm}

-- The source does not pass smallEndian on.
unfoldable pub encode_mov_sp : RegType → ℕ → ℕ → Bool → Result Text
encode_mov_sp reg_type rd rn small_endian =
    encode_add_sub_imm reg_type false rd rn 0 0 false false true

unfoldable pub encode_mov_register : RegType → ℕ → ℕ → Bool → Result Text
encode_mov_register reg_type rd rm small_endian = do
  opcode ← ok (arm64_opcode small_endian)
  opcode ← set_sf reg_type opcode
  opcode ← set_rm rm opcode
  opcode ← set_rd rd opcode
  opcode ← set_bits 0b10101 25 opcode
  opcode ← set_rn 0b11111 opcode
  get_instruction opcode

unfoldable pub encode_movz : ℕ → ℕ → RegType → ℕ → Bool → Result Text
encode_movz rd imm16 reg_type shift small_endian = do
  opcode ← ok (arm64_opcode small_endian)
  opcode ← set_sf reg_type opcode
  opcode ← set_bits 0b10100101 23 opcode
  opcode ← set_hw (shift / 2 ^ 4) opcode
  opcode ← set_imm16 imm16 opcode
  opcode ← set_rd rd opcode
  get_instruction opcode

unfoldable pub encode_movk : ℕ → ℕ → RegType → ℕ → Bool → Result Text
encode_movk rd imm16 reg_type shift small_endian = do
  opcode ← ok (arm64_opcode small_endian)
  opcode ← set_sf reg_type opcode
  opcode ← set_bits 0b11100101 23 opcode
  opcode ← set_hw (shift / 2 ^ 4) opcode
  opcode ← set_imm16 imm16 opcode
  opcode ← set_rd rd opcode
  get_instruction opcode

unfoldable pub encode_movn : ℕ → ℕ → RegType → ℕ → Bool → Result Text
encode_movn rd imm16 reg_type shift small_endian = do
  opcode ← ok (arm64_opcode small_endian)
  opcode ← set_sf reg_type opcode
  opcode ← set_bits 0b100101 23 opcode
  opcode ← set_hw (shift / 2 ^ 4) opcode
  opcode ← set_imm16 imm16 opcode
  opcode ← set_rd rd opcode
  get_instruction opcode

-- `(value >> k) & 0xFFFF`.
abbrev pub half_word : ℤ → ℕ → ℕ
half_word value k = low_bits (shift_right value k) 16

unfoldable pub wrapper_encode_mov_int32 : ℕ → ℤ → Bool → Result Text
wrapper_encode_mov_int32 rd value small_endian = do
  let imm0 = half_word value 0
  let imm1 = half_word value 16
  instr_0 ← encode_movz rd imm0 w_reg 0 small_endian
  instr_1 ← encode_movk rd imm1 w_reg 16 small_endian
  ok (instr_0 ++ instr_1)

unfoldable pub wrapper_encode_mov_int64 : ℕ → ℤ → Bool → Result Text
wrapper_encode_mov_int64 rd value small_endian = do
  let imm0 = half_word value 0
  let imm1 = half_word value 16
  let imm2 = half_word value 32
  let imm3 = half_word value 48
  instr_0 ← encode_movz rd imm0 x_reg 0 small_endian
  instr_1 ← encode_movk rd imm1 x_reg 16 small_endian
  instr_2 ← encode_movk rd imm2 x_reg 32 small_endian
  instr_3 ← encode_movk rd imm3 x_reg 48 small_endian
  ok (instr_0 ++ (instr_1 ++ (instr_2 ++ instr_3)))
