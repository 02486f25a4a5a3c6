-- ===== src/Opcode/LoadStore.antt =====
-- include/Opcode/LoadStore.hpp.
use tiny_wasm.Base.{ℕ, Bool, true, false, bit, if◌then◌else◌}
use tiny_wasm.Base.Int.{ℤ, low_bits, signed, shift_right}
use tiny_wasm.Base.Result.{Result, ok, err, thrown, ◌>>=◌}
use tiny_wasm.Base.Text.{Text}
use tiny_wasm.Opcode.Base.{
  EncodingMode, post_index, pre_index, signed_offset, unsigned_offset, LdStType, RegType, is_x,
  is_ldr, Arm64Opcode, arm64_opcode, set_bits, set_sf, set_option, set_rm, set_rn, set_rt, set_rt2,
  set_imm7, set_imm9, set_imm12, get_instruction,
}

-- `imm >> ((regType == X_REG) ? 3 : 2)`.
abbrev pub scaled : RegType → ℤ → ℤ
scaled reg_type imm = shift_right imm (if is_x reg_type then 3 else 2)

-- The `switch` on the mode.
abbrev pub ldp_stp_mode : EncodingMode → Arm64Opcode → Result Arm64Opcode
ldp_stp_mode pre_index op = set_bits 0b1010011 23 op
ldp_stp_mode post_index op = set_bits 0b1010001 23 op
ldp_stp_mode signed_offset op = set_bits 0b1010010 23 op
ldp_stp_mode unsigned_offset op = err (thrown "Unsupported Encode mode for LDP/STP")

-- `imm7` is an `int8_t`.
unfoldable pub encode_ldp_stp :
    RegType → LdStType → ℕ → ℕ → ℕ → ℤ → EncodingMode → Bool → Result Text
encode_ldp_stp reg_type ldst_type rt rt2 rn imm mode small_endian = do
  let imm7 = signed 8 (low_bits (scaled reg_type imm) 8)
  opcode ← ok (arm64_opcode small_endian)
  opcode ← set_sf reg_type opcode
  opcode ← set_bits (bit (is_ldr ldst_type)) 22 opcode
  opcode ← ldp_stp_mode mode opcode
  opcode ← set_imm7 imm7 opcode
  opcode ← set_rt2 rt2 opcode
  opcode ← set_rn rn opcode
  opcode ← set_rt rt opcode
  get_instruction opcode

-- `mode == EncodingMode::UnSignedOffset`.
abbrev pub is_unsigned_offset : EncodingMode → Bool
is_unsigned_offset unsigned_offset = true
is_unsigned_offset _ = false

abbrev pub load_store_mode : RegType → ℤ → EncodingMode → Arm64Opcode → Result Arm64Opcode
load_store_mode reg_type imm post_index op = ok op >>= set_imm9 imm >>= set_bits 1 10
load_store_mode reg_type imm pre_index op = ok op >>= set_imm9 imm >>= set_bits 0b11 10
load_store_mode reg_type imm unsigned_offset op = set_imm12 (low_bits (scaled reg_type imm) 16) op
load_store_mode reg_type imm signed_offset op =
    err (thrown "Unsupported Encode mode for LDR/STR immediate")

-- `imm` is an `int16_t`.
unfoldable pub encode_load_store_imm :
    RegType → LdStType → ℕ → ℕ → ℤ → EncodingMode → Bool → Result Text
encode_load_store_imm reg_type ldst_type rt rn imm mode small_endian = do
  opcode ← ok (arm64_opcode small_endian)
  opcode ← set_bits 1 31 opcode
  opcode ← set_bits (bit (is_x reg_type)) 30 opcode
  opcode ← set_bits 0b111 27 opcode
  opcode ← set_bits (bit (is_ldr ldst_type)) 22 opcode
  opcode ← set_bits (bit (is_unsigned_offset mode)) 24 opcode
  opcode ← load_store_mode reg_type imm mode opcode
  opcode ← set_rt rt opcode
  opcode ← set_rn rn opcode
  get_instruction opcode

-- The parameters: regType, ldstType, rt, rn, rm, option, smallEndian.
unfoldable pub encode_load_store_reg : RegType → LdStType → ℕ → ℕ → ℕ → ℕ → Bool → Result Text
encode_load_store_reg reg_type ldst_type rt rn rm option small_endian = do
  opcode ← ok (arm64_opcode small_endian)
  opcode ← set_bits 1 31 opcode
  opcode ← set_bits (bit (is_x reg_type)) 30 opcode
  opcode ← set_bits 0b111 27 opcode
  opcode ← set_bits (bit (is_ldr ldst_type)) 22 opcode
  opcode ← set_bits 1 21 opcode
  opcode ← set_option option opcode
  opcode ← set_bits 1 11 opcode
  opcode ← set_rm rm opcode
  opcode ← set_rn rn opcode
  opcode ← set_rt rt opcode
  get_instruction opcode
