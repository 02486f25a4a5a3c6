-- ===== src/Utils/Lower/RoundTrip.antt =====
-- What is written in lower case is read back.
use native.Mathlib.Nat.{pow-succ', one-le-pow}
use tiny_wasm.Base.{
  ℕ, zero, suc, ◌+◌, ◌*◌, ◌/◌, ◌%◌, ◌^◌, ◌<◌, ◌≡◌, refl, sym, ap, ◌∙◌, List, [], ◌∷◌, length, arith,
}
use tiny_wasm.Base.Powers.{mod_split}
use tiny_wasm.Base.Result.{ok}
use tiny_wasm.Utils.Parse.{take_digit, hex_char_to_int, hex_value}
use tiny_wasm.Utils.Lower.{
  lower_char, lower_pad, read_binary, read_hex, hex_to_double, hex_to_float, float_to_hex,
  double_to_hex,
}
use tiny_wasm.Parser.{hex_pairs, hex_to_ascii}

pub hex_char_to_int-lower_char : (n : ℕ) → n < 16 → hex_char_to_int (lower_char n) ≡ ok n
unfolding hex_char_to_int lower_char
hex_char_to_int-lower_char n h = ground arith

hex_value-lower_pad : (n acc v : ℕ) → hex_value acc (lower_pad n v) ≡ acc * 16 ^ n + v % 16 ^ n
unfolding hex_value lower_pad
hex_value-lower_pad zero acc v = omega arith
hex_value-lower_pad (suc n) acc v =
    ap (λ r. take_digit acc r (λ a. hex_value a (lower_pad n v)))
      (hex_char_to_int-lower_char (v / 16 ^ n % 16) (omega arith))
    ∙ (hex_value-lower_pad n (acc * 16 + v / 16 ^ n % 16) v
        ∙ (joined (16 ^ n) (v / 16 ^ n % 16) (v % 16 ^ n) refl refl (one-le-pow n 16 (omega arith))
            ∙ ap (λ m. acc * m + v % m) (sym (pow-succ' 16 n))))
  where
    joined :
        (p d r : ℕ)
        → d ≡ v / p % 16
        → r ≡ v % p
        → 0 < p
        → (acc * 16 + d) * p + r ≡ acc * (16 * p) + v % (16 * p)
    joined p d r e f h = rw (mod_split 16 p v (omega arith) h, e, f) (grind arith)

-- The bits of a float or a double that are written by `floatToHex` or `doubleToHex` are read back by
-- `hexToFloat` or `hexToDouble`.
pub hex_to_float-float_to_hex :
    ((v : ℕ) → v < 2 ^ 32 → hex_to_float (float_to_hex v) ≡ v)
    × ((v : ℕ) → v < 2 ^ 64 → hex_to_double (double_to_hex v) ≡ v)
unfolding read_hex
hex_to_float-float_to_hex = (
  (λ v h. rw (hex_value-lower_pad 8 0 v) (ground arith)),
  (λ v h. rw (hex_value-lower_pad 16 0 v) (ground arith)),
)

abbrev pub AreBytes : List ℕ → Type 0
AreBytes [] = Unit
AreBytes (b ∷ bytes) = (b < 256) × AreBytes bytes

hex_pairs-read_binary : (bytes : List ℕ) → AreBytes bytes → hex_pairs (read_binary bytes) ≡ ok bytes
unfolding hex_pairs read_binary lower_pad
hex_pairs-read_binary [] h = refl
hex_pairs-read_binary (b ∷ bytes) (small, more) =
    rw
      (
        hex_char_to_int-lower_char (b / 16 ^ 1 % 16) (omega arith),
        hex_char_to_int-lower_char (b / 16 ^ 0 % 16) (omega arith),
        hex_pairs-read_binary bytes more,
      )
      (ap (λ c. ok (c ∷ bytes)) (omega arith))

pub length-read_binary : (bytes : List ℕ) → length (read_binary bytes) ≡ 2 * length bytes
unfolding read_binary lower_pad
length-read_binary [] = refl
length-read_binary (b ∷ bytes) = omega (arith, length-read_binary bytes)

-- `hexToAscii` of the text that `readBinary` makes of a file is the file, for every list of bytes.
pub hex_to_ascii-read_binary :
    (bytes : List ℕ) → AreBytes bytes → hex_to_ascii (read_binary bytes) ≡ ok bytes
unfolding hex_to_ascii
hex_to_ascii-read_binary bytes h =
    let even : length (read_binary bytes) % 2 ≡ 0 = omega (arith, length-read_binary bytes) in
    rw even (hex_pairs-read_binary bytes h)
