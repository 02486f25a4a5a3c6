-- ===== src/Opcode/Base.antt =====
-- include/Opcode/Base.hpp: the class Arm64Opcode, which gathers the fields of one instruction
-- word. `enablePrint` and `assemblyString` only feed the printed listing and are left out.
use tiny_wasm.Base.{ℕ, ◌-◌, ◌*◌, ◌%◌, ◌^◌, bit_or, bit_and, Bool, true, false, bit, if◌then◌else◌}
use tiny_wasm.Base.Int.{ℤ, pos, low_bits, exceeds}
use tiny_wasm.Base.Result.{Result, ok, err, out_of_range, ◌>>=◌}
use tiny_wasm.Base.Text.{Text, substr_from}
use tiny_wasm.Utils.Hex.{to_hex_string, bswap32}

pub data EncodingMode : Type 0 where
  post_index pre_index signed_offset unsigned_offset : EncodingMode

pub data LdStType : Type 0 where
  str ldr : LdStType

pub data RegType : Type 0 where
  w_reg x_reg s_reg d_reg : RegType

-- `regType == X_REG`.
abbrev pub is_x : RegType → Bool
is_x x_reg = true
is_x _ = false

-- `ldstType == LDR`.
abbrev pub is_ldr : LdStType → Bool
is_ldr ldr = true
is_ldr str = false

pub record Arm64Opcode : Type 0 where
  pub inst : ℕ
  pub small_endian : Bool

abbrev pub opcode_at : Bool → ℕ → Arm64Opcode
opcode_at endian w = record { inst = w; small_endian = endian }

-- The constructor.
abbrev pub arm64_opcode : Bool → Arm64Opcode
arm64_opcode endian = opcode_at endian 0

-- `val` is widened to 64 bits, so a negative one is masked in two's complement.
unfoldable pub set_field : ℤ → ℕ → ℕ → Arm64Opcode → Result Arm64Opcode
set_field val offset set_length op =
    let limit = 2 ^ set_length - 1 in
    if exceeds val limit
    then err out_of_range
    else ok (record op {
      inst = bit_or op.inst (bit_and (low_bits val 64) limit * 2 ^ offset) % 2 ^ 32;
    })

-- `setField(val, offset)`, with the default length.
abbrev pub set_bits : ℕ → ℕ → Arm64Opcode → Result Arm64Opcode
set_bits val offset = set_field (pos val) offset 32

abbrev pub set_rm : ℕ → Arm64Opcode → Result Arm64Opcode
set_rm rm = set_field (pos rm) 16 5

abbrev pub set_rn : ℕ → Arm64Opcode → Result Arm64Opcode
set_rn rn = set_field (pos rn) 5 5

abbrev pub set_rd : ℕ → Arm64Opcode → Result Arm64Opcode
set_rd rd = set_field (pos rd) 0 5

abbrev pub set_rt : ℕ → Arm64Opcode → Result Arm64Opcode
set_rt rt = set_field (pos rt) 0 5

abbrev pub set_rt2 : ℕ → Arm64Opcode → Result Arm64Opcode
set_rt2 rt2 = set_field (pos rt2) 10 5

abbrev pub set_imm6 : ℕ → Arm64Opcode → Result Arm64Opcode
set_imm6 imm6 = set_field (pos imm6) 10 6

abbrev pub set_imm7 : ℤ → Arm64Opcode → Result Arm64Opcode
set_imm7 imm7 = set_field imm7 15 7

abbrev pub set_imm9 : ℤ → Arm64Opcode → Result Arm64Opcode
set_imm9 imm9 = set_field imm9 12 9

abbrev pub set_imm12 : ℕ → Arm64Opcode → Result Arm64Opcode
set_imm12 imm12 = set_field (pos imm12) 10 12

abbrev pub set_imm16 : ℕ → Arm64Opcode → Result Arm64Opcode
set_imm16 imm16 = set_field (pos imm16) 5 16

abbrev pub set_imm19 : ℤ → Arm64Opcode → Result Arm64Opcode
set_imm19 imm19 = set_field imm19 5 19

abbrev pub set_option : ℕ → Arm64Opcode → Result Arm64Opcode
set_option option = set_bits option 13

abbrev pub set_sf : RegType → Arm64Opcode → Result Arm64Opcode
set_sf reg_type = set_field (pos (bit (is_x reg_type))) 31 1

abbrev pub set_cond : ℕ → Arm64Opcode → Result Arm64Opcode
set_cond cond = set_field (pos cond) 12 4

abbrev pub set_shift : ℕ → Arm64Opcode → Result Arm64Opcode
set_shift shift = set_field (pos shift) 22 2

abbrev pub set_sh : ℕ → Arm64Opcode → Result Arm64Opcode
set_sh sh = set_field (pos sh) 22 1

abbrev pub set_hw : ℕ → Arm64Opcode → Result Arm64Opcode
set_hw hw = set_field (pos hw) 21 2

-- `commonEncode`: the text of the finished word.
unfoldable pub common_encode : Arm64Opcode → Result Text
common_encode op =
    let word = if op.small_endian then bswap32 op.inst else op.inst in
    substr_from (to_hex_string word) 2

-- `makeAssmeblyString` only asks Capstone for the listing.
abbrev pub get_instruction : Arm64Opcode → Result Text
get_instruction op = common_encode op

unfoldable pub encode_nop : Bool → Result Text
encode_nop small_endian = do
  opcode ← ok (arm64_opcode small_endian)
  opcode ← set_bits 0b11010101000000110010000000011111 0 opcode
  get_instruction opcode
