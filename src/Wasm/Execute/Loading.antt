-- ===== src/Wasm/Execute/Loading.antt =====
-- The bytes that `getFunctionPointer` loads are the words of the text, in memory order.
use mathlib.Core.List.{append_assoc}
use tiny_wasm.Base.{
  ℕ, ◌+◌, ◌*◌, ◌/◌, ◌%◌, ◌^◌, ◌<◌, ◌≡◌, refl, ap, ◌∙◌, true, List, [], ◌∷◌, ◌++◌, arith, length,
  length-append, take-append, drop-append, ltb-false,
}
use tiny_wasm.Base.Result.{ok}
use tiny_wasm.Base.Text.{Text, substr}
use tiny_wasm.Utils.Hex.{hex_char, hex_pad, bswap32}
use tiny_wasm.Utils.Hex.Length.{length-hex_pad}
use tiny_wasm.Utils.Parse.RoundTrip.{stoul16-hex_pad}
use tiny_wasm.Opcode.Fields.{word_text}
use tiny_wasm.Wasm.Execute.{load_bytes, get_function_pointer}

abbrev pub AreBytes : List ℕ → Type 0
AreBytes [] = Unit
AreBytes (b ∷ bs) = (b < 256) × AreBytes bs

abbrev pub bytes_text : List ℕ → Text
bytes_text [] = []
bytes_text (b ∷ bs) = hex_pad 2 b ++ bytes_text bs

length-bytes_text : (bs : List ℕ) → length (bytes_text bs) ≡ length bs * 2
length-bytes_text [] = refl
length-bytes_text (b ∷ bs) = omega (
  arith,
  length-append {0} (hex_pad 2 b) (bytes_text bs),
  length-hex_pad 2 b,
  length-bytes_text bs,
)

substr_middle :
    (pre mid rest : Text) (p n : ℕ)
    → length pre ≡ p
    → length mid ≡ n
    → substr (pre ++ (mid ++ rest)) p n ≡ ok mid
substr_middle pre mid rest p n e f = rw (
  ltb-false (length (pre ++ (mid ++ rest))) p (omega (arith, length-append {0} pre (mid ++ rest))),
  drop-append p pre (mid ++ rest) e,
  take-append n mid rest f,
)

load_bytes-bytes_text :
    (bs : List ℕ) (i : ℕ) (pre : Text)
    → AreBytes bs
    → length pre ≡ i * 2
    → load_bytes (length bs) i (pre ++ bytes_text bs) ≡ ok bs
unfolding load_bytes
load_bytes-bytes_text [] i pre h e = refl
load_bytes-bytes_text (b ∷ bs) i pre (hb, h) e =
    let two = length-hex_pad 2 b in
    let next : length (pre ++ hex_pad 2 b) ≡ (i + 1) * 2 =
      omega (arith, length-append {0} pre (hex_pad 2 b)) in
    let rest : load_bytes (length bs) (i + 1) (pre ++ (hex_pad 2 b ++ bytes_text bs)) ≡ ok bs =
      rw (append_assoc pre (hex_pad 2 b) (bytes_text bs)) at
        (load_bytes-bytes_text bs (i + 1) (pre ++ hex_pad 2 b) h next) in
    rw (substr_middle pre (hex_pad 2 b) (bytes_text bs) (i * 2) 2 e two, stoul16-hex_pad b hb, rest)
      (ap (λ x. ok (x ∷ bs)) (omega arith))

-- The text of a list of bytes, two digits each, is loaded as these bytes.
pub get_function_pointer-bytes_text :
    (bs : List ℕ) → AreBytes bs → get_function_pointer (bytes_text bs) ≡ ok bs
unfolding get_function_pointer
get_function_pointer-bytes_text bs h =
    let n : length (bytes_text bs) / 2 ≡ length bs = omega (arith, length-bytes_text bs) in
    rw n (load_bytes-bytes_text bs 0 [] h refl)

-- The four bytes of a word, the least significant first.
abbrev pub little_endian : ℕ → List ℕ
little_endian w = w % 256 ∷ w / 2 ^ 8 % 256 ∷ w / 2 ^ 16 % 256 ∷ w / 2 ^ 24 % 256 ∷ []

abbrev pub program_text : List ℕ → Text
program_text [] = []
program_text (w ∷ ws) = word_text true w ++ program_text ws

abbrev pub program_bytes : List ℕ → List ℕ
program_bytes [] = []
program_bytes (w ∷ ws) = little_endian w ++ program_bytes ws

little_endian-text : (w : ℕ) → word_text true w ≡ bytes_text (little_endian w)
unfolding hex_pad bswap32
little_endian-text w =
    let d0 : bswap32 w / 16 ^ 7 % 16 ≡ w % 256 / 16 ^ 1 % 16 = omega arith in
    let d1 : bswap32 w / 16 ^ 6 % 16 ≡ w % 256 / 16 ^ 0 % 16 = omega arith in
    let d2 : bswap32 w / 16 ^ 5 % 16 ≡ w / 2 ^ 8 % 256 / 16 ^ 1 % 16 = omega arith in
    let d3 : bswap32 w / 16 ^ 4 % 16 ≡ w / 2 ^ 8 % 256 / 16 ^ 0 % 16 = omega arith in
    let d4 : bswap32 w / 16 ^ 3 % 16 ≡ w / 2 ^ 16 % 256 / 16 ^ 1 % 16 = omega arith in
    let d5 : bswap32 w / 16 ^ 2 % 16 ≡ w / 2 ^ 16 % 256 / 16 ^ 0 % 16 = omega arith in
    let d6 : bswap32 w / 16 ^ 1 % 16 ≡ w / 2 ^ 24 % 256 / 16 ^ 1 % 16 = omega arith in
    let d7 : bswap32 w / 16 ^ 0 % 16 ≡ w / 2 ^ 24 % 256 / 16 ^ 0 % 16 = omega arith in
    λ i.
      hex_char (d0 i)
      ∷ hex_char (d1 i)
      ∷ hex_char (d2 i)
      ∷ hex_char (d3 i)
      ∷ hex_char (d4 i)
      ∷ hex_char (d5 i)
      ∷ hex_char (d6 i)
      ∷ hex_char (d7 i)
      ∷ []

little_endian-AreBytes : (w : ℕ) → AreBytes (little_endian w)
little_endian-AreBytes w = omega arith

program_bytes-AreBytes : (ws : List ℕ) → AreBytes (program_bytes ws)
program_bytes-AreBytes [] = tt
program_bytes-AreBytes (w ∷ ws) =
    let (a, (b, (c, (d, _)))) = little_endian-AreBytes w in
    (a, (b, (c, (d, program_bytes-AreBytes ws))))

program_text-bytes : (ws : List ℕ) → program_text ws ≡ bytes_text (program_bytes ws)
unfolding hex_pad
program_text-bytes [] = refl
program_text-bytes (w ∷ ws) =
    ap (λ t. t ++ program_text ws) (little_endian-text w)
    ∙ ap (λ t. bytes_text (little_endian w) ++ t) (program_text-bytes ws)

-- What the encoders emit for the words `ws` is loaded as the words in little-endian order, which
-- is how the processor fetches them.
pub get_function_pointer-program_text :
    (ws : List ℕ) → get_function_pointer (program_text ws) ≡ ok (program_bytes ws)
get_function_pointer-program_text ws =
    rw (program_text-bytes ws)
      (get_function_pointer-bytes_text (program_bytes ws) (program_bytes-AreBytes ws))
