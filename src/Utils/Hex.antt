-- ===== src/Utils/Hex.antt =====
-- include/Utils.h: `toHexString`, and `__builtin_bswap32` as include/Opcode/Base.hpp calls it.
pub mod Length
use tiny_wasm.Base.{
  ℕ, zero, suc, ◌+◌, ◌-◌, ◌*◌, ◌/◌, ◌%◌, ◌^◌, List, [], ◌∷◌, ◌++◌, ltb, if◌then◌else◌,
}
use tiny_wasm.Base.Text.{Text, text}

-- A hexadecimal digit in upper case.
unfoldable pub hex_char : ℕ → ℕ
hex_char n = if ltb n 10 then b'0' + n else b'A' + n - 10

-- `std::hex << std::setw(n) << std::setfill('0')` of a value of at most `n` digits.
unfoldable pub hex_pad : ℕ → ℕ → Text
hex_pad zero v = []
hex_pad (suc n) v = hex_char (v / 16 ^ n % 16) ∷ hex_pad n v

unfoldable pub to_hex_string : ℕ → Text
to_hex_string value = text "0x" ++ hex_pad 8 value

-- The bytes of a 32-bit word in the other order.
unfoldable pub bswap32 : ℕ → ℕ
bswap32 w =
    w % 256 * 2 ^ 24 + w / 2 ^ 8 % 256 * 2 ^ 16 + w / 2 ^ 16 % 256 * 2 ^ 8 + w / 2 ^ 24 % 256
