-- ===== src/Parser/Binary/RoundTrip.antt =====
-- A module in the binary format, through the whole of `Parser::parse`.
use tiny_wasm.Base.{
  ℕ, zero, suc, ◌*◌, ◌≤◌, ◌<◌, ◌≡◌, refl, ap, ◌∙◌, true, List, [], ◌∷◌, ◌++◌, length, length-append,
  arith, ltb, drop-append, lt→ltb, some,
}
use tiny_wasm.Base.Result.{ok, ended}
use tiny_wasm.Base.Text.{text, text_eq, substr_from}
use tiny_wasm.Utils.Lower.{lower_char, lower_pad, read_binary}
use tiny_wasm.Utils.Lower.RoundTrip.{AreBytes, length-read_binary}
use tiny_wasm.Parser.{Parser, parser, parse_step, parse_loop, initial_check, parse}
use tiny_wasm.Parser.Binary.Cursor.{substr-At, substr-At_byte, byte_at-At, substr_from-At}
use tiny_wasm.Parser.Binary.Numbers.{HaveSmallNumbers, sections-AreBytes}
use tiny_wasm.Parser.Binary.Sections.{
  Section, number_of, content, encode_sections, encode_module, IsOther, AreOther, add_section,
  add_sections, parse_section-content,
}

AreBytes-behind : (xs ys : List ℕ) → AreBytes (xs ++ ys) → AreBytes ys
AreBytes-behind [] ys h = h
AreBytes-behind (x ∷ xs) ys (_, h) = AreBytes-behind xs ys h

parse_step-section :
    (x : Section) (rest : List ℕ) (q : Parser)
    → AreBytes (number_of x ∷ length (content x) ∷ (content x ++ rest))
    → IsOther x
    → parse_step
        (record q { s = read_binary (number_of x ∷ length (content x) ∷ (content x ++ rest)) })
      ≡ ok (record (add_section x q) { s = read_binary rest; section_length = length (content x) })
unfolding parse_step
parse_step-section x rest q (low, (small, more)) other =
    let n = length (content x) in
    let whole = number_of x ∷ n ∷ (content x ++ rest) in
    let behind = n ∷ (content x ++ rest) in
    let body = content x ++ rest in
    let fits : n ≤ length body = omega (arith, length-append (content x) rest) in
    let double : n * 2 ≡ 2 * n = omega arith in
    let last : substr_from (read_binary body) (n * 2) ≡ ok (read_binary rest) =
      ap (substr_from (read_binary body)) double
      ∙ substr_from-At body n rest fits (drop-append n (content x) rest refl) in
    rw
      (
        substr-At_byte whole 0 (number_of x) behind refl,
        substr_from-At whole 1 behind (omega arith) refl,
        byte_at-At behind 0 n body (small, more) refl,
        substr_from-At behind 1 body (omega arith) refl,
        parse_section-content x rest n q more low other,
        last,
      )
      refl

sections_loop :
    (xs : List Section) (fuel : ℕ) (q : Parser)
    → length xs < fuel
    → AreBytes (encode_sections xs)
    → AreOther xs
    → parse_loop fuel (record q { s = read_binary (encode_sections xs) })
      ≡ some (ok (record (add_sections xs q) { s = [] }))
unfolding parse_loop read_binary
sections_loop xs zero q enough small others = absurd (omega arith)
sections_loop [] (suc fuel) q enough small others = refl
sections_loop (x ∷ xs) (suc fuel) q enough (low, (few, more)) (other, others) =
    let rest = encode_sections xs in
    let q' = record (add_section x q) { section_length = length (content x) } in
    let whole = encode_sections (x ∷ xs) in
    let left : ltb 0 (length (read_binary whole)) ≡ true =
      lt→ltb 0 (length (read_binary whole)) (omega (arith, length-read_binary whole)) in
    rw (left, parse_step-section x rest q (low, (few, more)) other)
      (sections_loop xs fuel q' (omega arith) (AreBytes-behind (content x) rest more) others)

length-encode_sections : (xs : List Section) → length xs ≤ length (encode_sections xs)
length-encode_sections [] = omega arith
length-encode_sections (x ∷ xs) =
    omega (arith, length-append (content x) (encode_sections xs), length-encode_sections xs)

magic_number : text_eq (read_binary (0 ∷ 0x61 ∷ 0x73 ∷ 0x6d ∷ [])) (text "0061736d") ≡ true
unfolding read_binary lower_pad lower_char
magic_number = refl

initial_check-module :
    (bytes : List ℕ) (q : Parser)
    → initial_check (record q { s = read_binary (0 ∷ 0x61 ∷ 0x73 ∷ 0x6d ∷ 1 ∷ 0 ∷ 0 ∷ 0 ∷ bytes) })
      ≡ ok (record q { s = read_binary bytes })
unfolding initial_check
initial_check-module bytes q =
    let version = 1 ∷ 0 ∷ 0 ∷ 0 ∷ bytes in
    let whole = 0 ∷ 0x61 ∷ 0x73 ∷ 0x6d ∷ version in
    rw
      (
        substr-At whole 0 (0 ∷ 0x61 ∷ 0x73 ∷ 0x6d ∷ []) version (omega arith) refl,
        magic_number,
        substr_from-At whole 4 version (omega arith) refl,
        substr_from-At version 4 bytes (omega arith) refl,
      )
      refl

-- A module in the binary format is a list of sections in any order, behind the magic number and the version:
-- of types, of functions, of exports, of code, and of other kinds. When every number of it, the
-- lengths and counts included, is below 128, and so one byte of LEB128, the parser of the text of its
-- bytes returns: it has kept the types, the types of the functions, the two tables of the exports, and
-- the functions with their bytes and the number of their declarations of locals, each in the order of the
-- module; other sections leave no trace; and no text is left.
pub parse-encode_module :
    (xs : List Section)
    → HaveSmallNumbers xs
    → AreOther xs
    → parse (parser (read_binary (encode_module xs)))
      ≡ ok (record (add_sections xs (parser [])) { s = [] })
unfolding parse
parse-encode_module xs low others =
    let small = sections-AreBytes xs low in
    let bytes = encode_sections xs in
    let fuel : length xs < suc (length (read_binary bytes)) =
      omega (arith, length-read_binary bytes, length-encode_sections xs) in
    rw (initial_check-module bytes (parser []))
      (ap ended (sections_loop xs (suc (length (read_binary bytes))) (parser []) fuel small others))
