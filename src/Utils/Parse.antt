-- ===== src/Utils/Parse.antt =====
-- The standard library's reading of numbers, as far as the source uses it: `stoul(s, nullptr, 16)`
-- of a text of hexadecimal digits, which is all that `readBinary` produces.
pub mod RoundTrip
use tiny_wasm.Base.{
  ℕ, ◌+◌, ◌-◌, ◌*◌, Bool, List, [], ◌∷◌, ◌&&◌, leb, if◌then◌else◌, Option, none, some,
}
use tiny_wasm.Base.Result.{Result, ok, err, invalid_argument, ◌>>=◌}
use tiny_wasm.Base.Text.{Text}

-- `hexCharToInt`.
unfoldable pub hex_char_to_int : ℕ → Result ℕ
hex_char_to_int ch =
    if leb b'0' ch && leb ch b'9'
    then ok (ch - b'0')
    else if leb b'a' ch && leb ch b'f'
    then ok (ch - b'a' + 10)
    else if leb b'A' ch && leb ch b'F'
    then ok (ch - b'A' + 10)
    else err invalid_argument

abbrev pub take_digit : ℕ → Result ℕ → (ℕ → ℕ) → ℕ
take_digit acc (ok d) rest = rest (acc * 16 + d)
take_digit acc (err e) rest = acc

-- The digits up to the first other character.
unfoldable pub hex_value : ℕ → Text → ℕ
unfolding hex_char_to_int
hex_value acc [] = acc
hex_value acc (c ∷ s) = take_digit acc (hex_char_to_int c) (λ a. hex_value a s)

unfoldable pub stoul16 : Text → Result ℕ
unfolding hex_char_to_int hex_value
stoul16 [] = err invalid_argument
stoul16 (c ∷ s) = do d ← hex_char_to_int c; ok (hex_value d s)
