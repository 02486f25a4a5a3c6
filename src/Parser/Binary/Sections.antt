-- ===== src/Parser/Binary/Sections.antt =====
-- The sections of a module, in any order, through the loop of the parser.
use tiny_wasm.Base.{ℕ, ◌<◌, ◌≡◌, ◌≢◌, refl, ap, ◌∙◌, false, List, [], ◌∷◌, ◌++◌, length, arith}
use tiny_wasm.Base.Result.{ok}
use tiny_wasm.Base.Text.{Text, text, text_eq}
use tiny_wasm.Utils.Lower.{lower_char, lower_pad, read_binary}
use tiny_wasm.Utils.Lower.RoundTrip.{AreBytes}
use tiny_wasm.Parser.{Parser, parse_type, parse_function, parse_export, parse_code, parse_section}
use tiny_wasm.Parser.Binary.{
  Signature, Export, Body, encode_signatures, encode_exports, encode_bodies, types_of, functions_of,
  add_exports,
}
use tiny_wasm.Parser.Binary.Cursor.{byte_at-At}
use tiny_wasm.Parser.Binary.Types.{parse_types-At}
use tiny_wasm.Parser.Binary.Entries.{parse_functions-At, parse_exports-At}
use tiny_wasm.Parser.Binary.Bodies.{parse_codes-At}

-- A section of another kind has a number and bytes.
pub data Section : Type 0 where
  type_section : List Signature → Section
  function_section : List ℕ → Section
  export_section : List Export → Section
  code_section : List Body → Section
  other_section : ℕ → List ℕ → Section

abbrev pub number_of : Section → ℕ
number_of (type_section σs) = 1
number_of (function_section ts) = 3
number_of (export_section es) = 7
number_of (code_section bs) = 10
number_of (other_section n bytes) = n

abbrev pub content : Section → List ℕ
content (type_section σs) = length σs ∷ encode_signatures σs
content (function_section ts) = length ts ∷ ts
content (export_section es) = length es ∷ encode_exports es
content (code_section bs) = length bs ∷ encode_bodies bs
content (other_section n bytes) = bytes

abbrev pub encode_sections : List Section → List ℕ
encode_sections [] = []
encode_sections (x ∷ xs) = number_of x ∷ length (content x) ∷ (content x ++ encode_sections xs)

-- The magic number and the version.
abbrev pub encode_module : List Section → List ℕ
encode_module xs = 0 ∷ 0x61 ∷ 0x73 ∷ 0x6d ∷ 1 ∷ 0 ∷ 0 ∷ 0 ∷ encode_sections xs

-- The number of a section of another kind is none of the four.
abbrev pub IsOther : Section → Type 0
IsOther (type_section σs) = Unit
IsOther (function_section ts) = Unit
IsOther (export_section es) = Unit
IsOther (code_section bs) = Unit
IsOther (other_section n bytes) = (n ≢ 1) × (n ≢ 3) × (n ≢ 7) × (n ≢ 10)

abbrev pub AreOther : List Section → Type 0
AreOther [] = Unit
AreOther (x ∷ xs) = IsOther x × AreOther xs

-- What a section adds to what the parser keeps.
abbrev pub add_section : Section → Parser → Parser
add_section (type_section σs) q = record q { wasm_type_vec = q.wasm_type_vec ++ types_of σs }
add_section (function_section ts) q = record q { func_type_vec = q.func_type_vec ++ ts }
add_section (export_section es) q = add_exports es q
add_section (code_section bs) q = record q {
  wasm_function_vec = q.wasm_function_vec ++ functions_of bs;
}
add_section (other_section n bytes) q = q

abbrev pub add_sections : List Section → Parser → Parser
add_sections [] q = q
add_sections (x ∷ xs) q =
    add_sections xs (record (add_section x q) { section_length = length (content x) })

add_exports-keeps :
    (es : List Export) (t : Text) (n : ℕ) (q : Parser)
    → add_exports es (record q { s = t; section_length = n })
      ≡ record (add_exports es q) { s = t; section_length = n }
add_exports-keeps [] t n q = refl
add_exports-keeps (e ∷ es) t n q = add_exports-keeps es t n (record q {
  func_name_index_mapper = (e.name, e.index) ∷ q.func_name_index_mapper;
  func_index_name_mapper = (e.index, e.name) ∷ q.func_index_name_mapper;
})

other_type :
    (n : ℕ)
    → n < 256
    → (n ≢ 1) × (n ≢ 3) × (n ≢ 7) × (n ≢ 10)
    → (text_eq (lower_pad 2 n) (text "01") ≡ false)
      × (text_eq (lower_pad 2 n) (text "03") ≡ false)
      × (text_eq (lower_pad 2 n) (text "07") ≡ false)
      × (text_eq (lower_pad 2 n) (text "0a") ≡ false)
unfolding lower_pad lower_char
other_type n h g = (ground arith, ground arith, ground arith, ground arith)

pub parse_section-content :
    (x : Section) (rest : List ℕ) (n : ℕ) (q : Parser)
    → AreBytes (content x ++ rest)
    → number_of x < 256
    → IsOther x
    → parse_section
        (lower_pad 2 (number_of x))
        (record q { s = read_binary (content x ++ rest); section_length = n })
      ≡ ok (record (add_section x q) { s = read_binary (content x ++ rest); section_length = n })
unfolding parse_section parse_type parse_function parse_export parse_code lower_pad lower_char
parse_section-content (type_section σs) rest n q small low other =
    let bs = content (type_section σs) ++ rest in
    let q' = record q { section_length = n } in
    rw (byte_at-At bs 0 (length σs) (encode_signatures σs ++ rest) small refl)
      (parse_types-At bs small σs 1 2 rest q' refl refl)
parse_section-content (function_section ts) rest n q small low other =
    let bs = content (function_section ts) ++ rest in
    let q' = record q { section_length = n } in
    rw (byte_at-At bs 0 (length ts) (ts ++ rest) small refl)
      (parse_functions-At bs small ts 0 1 rest q' refl refl)
parse_section-content (export_section es) rest n q small low other =
    let bs = content (export_section es) ++ rest in
    let q' = record q { section_length = n } in
    rw (byte_at-At bs 0 (length es) (encode_exports es ++ rest) small refl) (
      parse_exports-At bs small es 1 0 rest q' refl refl
      ∙ ap ok (add_exports-keeps es (read_binary bs) n q))
parse_section-content (code_section cs) rest n q small low other =
    let bs = content (code_section cs) ++ rest in
    let q' = record q { section_length = n } in
    rw (byte_at-At bs 0 (length cs) (encode_bodies cs ++ rest) small refl)
      (parse_codes-At bs small cs 1 0 rest q' refl refl)
parse_section-content (other_section m bytes) rest n q small low other =
    let (a, b, c, d) = other_type m low other in rw (a, b, c, d) refl
