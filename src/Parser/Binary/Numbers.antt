-- ===== src/Parser/Binary/Numbers.antt =====
-- Modules whose numbers are below 128, so that each is one byte of LEB128.
use tiny_wasm.Base.{ℕ, ◌+◌, ◌<◌, List, [], ◌∷◌, ◌++◌, length, arith}
use tiny_wasm.Utils.Lower.RoundTrip.{AreBytes}
use tiny_wasm.Parser.Binary.{
  ValueType, i32, i64, f32, f64, byte_of, bytes_of_values, Signature, Export, Body,
  encode_signatures, encode_exports, encode_bodies,
}
use tiny_wasm.Parser.Binary.Sections.{
  Section, type_section, function_section, export_section, code_section, other_section, number_of,
  content, encode_sections,
}

abbrev pub AreSmall : List ℕ → Type 0
AreSmall [] = Unit
AreSmall (n ∷ ns) = (n < 128) × AreSmall ns

abbrev pub AreSmallSignatures : List Signature → Type 0
AreSmallSignatures [] = Unit
AreSmallSignatures (σ ∷ σs) =
    (length σ.parameters < 128) × (length σ.results < 128) × AreSmallSignatures σs

abbrev pub AreSmallExports : List Export → Type 0
AreSmallExports [] = Unit
AreSmallExports (e ∷ es) =
    (length e.name < 128) × AreBytes e.name × (e.kind < 128) × (e.index < 128) × AreSmallExports es

-- The bytes of the code are what they are.
abbrev pub AreSmallBodies : List Body → Type 0
AreSmallBodies [] = Unit
AreSmallBodies (b ∷ bs) =
    (1 + length b.code < 128) × (b.declarations < 128) × AreBytes b.code × AreSmallBodies bs

abbrev pub HasSmallNumbers : Section → Type 0
HasSmallNumbers (type_section σs) = (length σs < 128) × AreSmallSignatures σs
HasSmallNumbers (function_section ts) = (length ts < 128) × AreSmall ts
HasSmallNumbers (export_section es) = (length es < 128) × AreSmallExports es
HasSmallNumbers (code_section bs) = (length bs < 128) × AreSmallBodies bs
HasSmallNumbers (other_section n bytes) = (n < 128) × AreBytes bytes

-- The length of each section, and every number in it.
abbrev pub HaveSmallNumbers : List Section → Type 0
HaveSmallNumbers [] = Unit
HaveSmallNumbers (x ∷ xs) = (length (content x) < 128) × HasSmallNumbers x × HaveSmallNumbers xs

AreBytes-append : (xs ys : List ℕ) → AreBytes xs → AreBytes ys → AreBytes (xs ++ ys)
AreBytes-append [] ys a b = b
AreBytes-append (x ∷ xs) ys (h, a) b = (h, AreBytes-append xs ys a b)

small-AreBytes : (ns : List ℕ) → AreSmall ns → AreBytes ns
small-AreBytes [] h = tt
small-AreBytes (n ∷ ns) (h, hs) = (omega arith, small-AreBytes ns hs)

byte_of-lt : (v : ValueType) → byte_of v < 256
byte_of-lt i32 = omega arith
byte_of-lt i64 = omega arith
byte_of-lt f32 = omega arith
byte_of-lt f64 = omega arith

values-AreBytes : (vs : List ValueType) → AreBytes (bytes_of_values vs)
values-AreBytes [] = tt
values-AreBytes (v ∷ vs) = (byte_of-lt v, values-AreBytes vs)

signatures-AreBytes :
    (σs : List Signature) → AreSmallSignatures σs → AreBytes (encode_signatures σs)
signatures-AreBytes [] h = tt
signatures-AreBytes (σ ∷ σs) (n, m, h) =
    let results =
      AreBytes-append (bytes_of_values σ.results) _ (values-AreBytes σ.results)
        (signatures-AreBytes σs h) in
    let values =
      AreBytes-append (bytes_of_values σ.parameters)
        (length σ.results ∷ (bytes_of_values σ.results ++ encode_signatures σs))
        (values-AreBytes σ.parameters) (omega arith, results) in
    (omega arith, (omega arith, values))

exports-AreBytes : (es : List Export) → AreSmallExports es → AreBytes (encode_exports es)
exports-AreBytes [] h = tt
exports-AreBytes (e ∷ es) (n, name, k, i, h) = (
  omega arith,
  AreBytes-append e.name (e.kind ∷ e.index ∷ encode_exports es) name
      (omega arith, (omega arith, exports-AreBytes es h)),
)

bodies-AreBytes : (bs : List Body) → AreSmallBodies bs → AreBytes (encode_bodies bs)
bodies-AreBytes [] h = tt
bodies-AreBytes (b ∷ bs) (n, d, code, h) = (
  omega arith,
  (omega arith, AreBytes-append b.code (encode_bodies bs) code (bodies-AreBytes bs h)),
)

content-AreBytes : (x : Section) → HasSmallNumbers x → AreBytes (content x)
content-AreBytes (type_section σs) (n, h) = (omega arith, signatures-AreBytes σs h)
content-AreBytes (function_section ts) (n, h) = (omega arith, small-AreBytes ts h)
content-AreBytes (export_section es) (n, h) = (omega arith, exports-AreBytes es h)
content-AreBytes (code_section bs) (n, h) = (omega arith, bodies-AreBytes bs h)
content-AreBytes (other_section n bytes) (m, h) = h

number_of-lt : (x : Section) → HasSmallNumbers x → number_of x < 256
number_of-lt (type_section σs) h = omega arith
number_of-lt (function_section ts) h = omega arith
number_of-lt (export_section es) h = omega arith
number_of-lt (code_section bs) h = omega arith
number_of-lt (other_section n bytes) (m, h) = omega arith

pub sections-AreBytes : (xs : List Section) → HaveSmallNumbers xs → AreBytes (encode_sections xs)
sections-AreBytes [] h = tt
sections-AreBytes (x ∷ xs) (n, h, hs) =
    let rest =
      AreBytes-append (content x) (encode_sections xs) (content-AreBytes x h)
        (sections-AreBytes xs hs) in
    (number_of-lt x h, (omega arith, rest))
