-- ===== src/Tests/Texts.antt =====
-- The readers and printers of include/Utils.h and include/FloatUtils.h at concrete inputs.
use tiny_wasm.Base.{◌≡◌, refl, [], ◌∷◌, false, arith}
use tiny_wasm.Base.Result.{ok}
use tiny_wasm.Base.Text.{text}
use tiny_wasm.Utils.Hex.{hex_pad}
use tiny_wasm.Utils.Binary.{
  get_bits, process_hex_code, to_binary_string, format_binary_string, hex_to_binary,
  hex_to_binary_from, nibble_in, erase_space, process_pairs,
}
use tiny_wasm.Utils.Binary.Digits.{binary, get_bits-binary, to_binary_string-format_binary_string}
use tiny_wasm.Utils.Leb.{decode_uleb128, decode_sleb128}
use tiny_wasm.Utils.Leb.RoundTrip.{decode_uleb128-encode_uleb128}
use tiny_wasm.Utils.Leb.Last.{decode_sleb128-last}
use tiny_wasm.Utils.Lower.{read_binary}
use tiny_wasm.Utils.Lower.RoundTrip.{hex_to_ascii-read_binary}
use tiny_wasm.Parser.{hex_to_ascii}

-- The pairs of digits are read from the last one on.
reversed_bytes : process_hex_code (text "01 f0") false ≡ text "1111000000000001"
unfolding process_hex_code process_pairs erase_space hex_to_binary_from nibble_in
reversed_bytes = refl

get_bits-binary_example : get_bits (binary 16 0xf00d) 4 14 ≡ ok 1792
get_bits-binary_example = get_bits-binary 16 0xf00d 4 14 (omega arith) (omega arith) (omega arith)

to_binary_string-format_binary_string_example :
    to_binary_string 0xd65f03c0 ≡ format_binary_string (hex_to_binary (hex_pad 8 0xd65f03c0))
to_binary_string-format_binary_string_example = to_binary_string-format_binary_string 0xd65f03c0

decode_uleb128-encode_uleb128_example : decode_uleb128 (0xe5 ∷ 0x8e ∷ 0x26 ∷ []) 32 ≡ ok 624485
decode_uleb128-encode_uleb128_example =
    decode_uleb128-encode_uleb128 624485 32 (omega arith) (omega arith) (omega arith)

-- 5 and 9.
decode_sleb128-last_example : decode_sleb128 (5 ∷ []) 32 ≡ decode_sleb128 (9 ∷ []) 32
decode_sleb128-last_example = decode_sleb128-last [] 5 9 32 (omega arith) (omega arith) refl

hex_to_ascii-read_binary_example :
    hex_to_ascii (read_binary (0 ∷ 97 ∷ 115 ∷ 109 ∷ [])) ≡ ok (0 ∷ 97 ∷ 115 ∷ 109 ∷ [])
hex_to_ascii-read_binary_example = hex_to_ascii-read_binary (0 ∷ 97 ∷ 115 ∷ 109 ∷ []) (omega arith)
