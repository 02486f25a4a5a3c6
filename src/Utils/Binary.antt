-- ===== src/Utils/Binary.antt =====
-- include/Utils.h: hexadecimal digits as texts of bits, and what reads and prints these.
pub mod Digits
use tiny_wasm.Base.{
  ℕ, zero, suc, ◌+◌, ◌-◌, ◌*◌, ◌/◌, ◌%◌, ◌^◌, Bool, true, false, not, ◌&&◌, ◌||◌, List, [], ◌∷◌,
  ◌++◌, length, take, drop, ltb, leb, ◌==◌, if◌then◌else◌, Option, none, some,
}
use tiny_wasm.Base.Result.{Result, ok, err, invalid_argument, exited}
use tiny_wasm.Base.Text.{Text, text}

-- `std::isspace`: a tab, a line feed, a vertical tab, a form feed, a carriage return or a space.
abbrev is_space : ℕ → Bool
is_space c = c == 32 || (leb 9 c && leb c 13)

unfoldable pub erase_space : Text → Text
erase_space [] = []
erase_space (c ∷ s) = let rest = erase_space s in if is_space c then rest else c ∷ rest

-- The cases of `HexToBinary`.
abbrev pub nibbles : List (ℕ × Text)
nibbles =
    (b'0', text "0000")
    ∷ (b'1', text "0001")
    ∷ (b'2', text "0010")
    ∷ (b'3', text "0011")
    ∷ (b'4', text "0100")
    ∷ (b'5', text "0101")
    ∷ (b'6', text "0110")
    ∷ (b'7', text "0111")
    ∷ (b'8', text "1000")
    ∷ (b'9', text "1001")
    ∷ (b'a', text "1010")
    ∷ (b'b', text "1011")
    ∷ (b'c', text "1100")
    ∷ (b'd', text "1101")
    ∷ (b'e', text "1110")
    ∷ (b'f', text "1111")
    ∷ (b'A', text "1010")
    ∷ (b'B', text "1011")
    ∷ (b'C', text "1100")
    ∷ (b'D', text "1101")
    ∷ (b'E', text "1110")
    ∷ (b'F', text "1111")
    ∷ []

unfoldable pub nibble_in : List (ℕ × Text) → ℕ → Option Text
nibble_in [] c = none
nibble_in ((k, bits) ∷ m) c = let rest = nibble_in m c in if c == k then some bits else rest

abbrev pub or_bad_input : Option Text → (Text → Text) → Text
or_bad_input none rest = text "bad input"
or_bad_input (some bits) rest = rest bits

-- The loop, with the bits so far; another character gives up what has been read.
unfoldable pub hex_to_binary_from : Text → Text → Text
hex_to_binary_from result [] = result
hex_to_binary_from result (c ∷ s) =
    or_bad_input (nibble_in nibbles c) λ bits. hex_to_binary_from (result ++ bits) s

abbrev pub hex_to_binary : Text → Text
hex_to_binary s = hex_to_binary_from [] s

-- Pairs of digits, inserted at the front of the result.
unfoldable pub insert_pairs : Text → Text → Text
insert_pairs result [] = result
insert_pairs result (c ∷ []) = c ∷ result
insert_pairs result (c ∷ d ∷ s) = insert_pairs (c ∷ d ∷ result) s

unfoldable pub convert_endian : Text → Result Text
convert_endian hex_str =
    if length hex_str % 2 == 0 then ok (insert_pairs [] hex_str) else err invalid_argument

-- The loop of `processHexCode` on the text without spaces: `left` of `array_size` pairs are left.
unfoldable pub process_pairs : Bool → Text → ℕ → ℕ → Text → Text
process_pairs endian s array_size zero result = result
process_pairs endian s array_size (suc left) result =
    let i = array_size - suc left in
    let start = if endian then i * 2 else array_size * 2 - i * 2 - 2 in
    process_pairs endian s array_size left (result ++ hex_to_binary (take 2 (drop start s)))

unfoldable pub process_hex_code : Text → Bool → Text
process_hex_code s endian =
    let digits = erase_space s in
    process_pairs endian digits (length digits / 2) (length digits / 2) []

-- `bitset<32>` of at most 32 characters, read as a number.
unfoldable pub bitset_from : ℕ → Text → Result ℕ
bitset_from v [] = ok v
bitset_from v (c ∷ s) =
    let zero_bit = bitset_from (v * 2) s in
    let one_bit = bitset_from (v * 2 + 1) s in
    if c == b'0' then zero_bit else if c == b'1' then one_bit else err invalid_argument

-- `start` and `end` are not negative; a failed `assert` ends the program.
unfoldable pub get_bits : Text → ℕ → ℕ → Result ℕ
get_bits bits start end =
    if ltb end (length bits) && leb start end
    then bitset_from 0 (take 32 (take (end - start + 1) (drop (length bits - end - 1) bits)))
    else err exited

-- The loop of `toBinaryString` for the bits below `i`.
unfoldable pub bits_below : ℕ → ℕ → Text
bits_below zero value = []
bits_below (suc i) value =
    let space = if i % 4 == 0 && not (i == 0) then b' ' ∷ [] else [] in
    (b'0' + value / 2 ^ i % 2) ∷ (space ++ bits_below i value)

abbrev pub to_binary_string : ℕ → Text
to_binary_string value = bits_below 32 value

-- The loop of `formatBinaryString` from index `i` on, in a text of `size` characters.
unfoldable pub format_from : ℕ → ℕ → Text → Text
format_from size i [] = []
format_from size i (c ∷ s) =
    let space = if (i + 1) % 4 == 0 && not (i + 1 == size) then b' ' ∷ [] else [] in
    c ∷ (space ++ format_from size (i + 1) s)

abbrev pub format_binary_string : Text → Text
format_binary_string binary_string = format_from (length binary_string) 0 binary_string
