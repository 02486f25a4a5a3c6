-- ===== src/Utils/Parse/RoundTrip.antt =====
-- Digits that are written are read back.
use tiny_wasm.Base.{ℕ, ◌/◌, ◌%◌, ◌^◌, ◌<◌, ◌≡◌, ap, ◌∙◌, [], ◌∷◌, arith}
use tiny_wasm.Base.Result.{ok, ◌>>=◌}
use tiny_wasm.Utils.Hex.{hex_char, hex_pad}
use tiny_wasm.Utils.Parse.{take_digit, hex_char_to_int, hex_value, stoul16}

-- `hexCharToInt` reads the digit that `toHexString` writes for a number below 16.
pub hex_char_to_int-hex_char : (n : ℕ) → n < 16 → hex_char_to_int (hex_char n) ≡ ok n
unfolding hex_char_to_int hex_char
hex_char_to_int-hex_char n h = ground arith

-- `stoul` reads the two digits of a byte as that byte.
pub stoul16-hex_pad : (b : ℕ) → b < 256 → stoul16 (hex_pad 2 b) ≡ ok b
unfolding stoul16 hex_value hex_pad
stoul16-hex_pad b h =
    let low = hex_char_to_int-hex_char (b / 16 ^ 0 % 16) (omega arith) in
    ap (λ r. r >>= λ d. ok (hex_value d (hex_char (b / 16 ^ 0 % 16) ∷ [])))
      (hex_char_to_int-hex_char (b / 16 ^ 1 % 16) (omega arith))
    ∙ (ap (λ r. ok (take_digit (b / 16 ^ 1 % 16) r (λ a. a))) low ∙ ap ok (omega arith))
