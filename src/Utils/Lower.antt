-- ===== src/Utils/Lower.antt =====
-- Digits in lower case: `readBinary` of include/Utils.h, and include/FloatUtils.h, where a float is its
-- bits.
pub mod RoundTrip
use tiny_wasm.Base.{ℕ, zero, suc, ◌+◌, ◌-◌, ◌/◌, ◌%◌, ◌^◌, List, [], ◌∷◌, ◌++◌, ltb, if◌then◌else◌}
use tiny_wasm.Base.Text.{Text}
use tiny_wasm.Utils.Parse.{hex_value}

unfoldable pub lower_char : ℕ → ℕ
lower_char n = if ltb n 10 then b'0' + n else b'a' + n - 10

-- `std::hex << std::setfill('0') << std::setw(n)` of a value of at most `n` digits.
unfoldable pub lower_pad : ℕ → ℕ → Text
lower_pad zero v = []
lower_pad (suc n) v = lower_char (v / 16 ^ n % 16) ∷ lower_pad n v

-- The text of the bytes of a file.
unfoldable pub read_binary : List ℕ → Text
read_binary [] = []
read_binary (byte ∷ bytes) = lower_pad 2 byte ++ read_binary bytes

-- `ss << std::hex << hexStr; ss >> intVal` of hexadecimal digits, into `w` bits: a greater number
-- gives the largest one, and no digits give 0.
unfoldable pub read_hex : ℕ → Text → ℕ
read_hex w hex_str = let v = hex_value 0 hex_str in if ltb v (2 ^ w) then v else 2 ^ w - 1

abbrev pub hex_to_double : Text → ℕ
hex_to_double hex_str = read_hex 64 hex_str

abbrev pub hex_to_float : Text → ℕ
hex_to_float hex_str = read_hex 32 hex_str

abbrev pub float_to_hex : ℕ → Text
float_to_hex float_val = lower_pad 8 float_val

abbrev pub double_to_hex : ℕ → Text
double_to_hex double_val = lower_pad 16 double_val
