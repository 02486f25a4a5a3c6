-- ===== src/Parser/Binary.antt =====
-- Modules of WebAssembly in the binary format, as far as include/Parser.hpp reads it: every number is below 128,
-- which is one byte of LEB128.
pub mod Cursor
pub mod Types
pub mod Entries
pub mod Bodies
pub mod Sections
pub mod Numbers
pub mod RoundTrip
use tiny_wasm.Base.{ℕ, ◌+◌, List, [], ◌∷◌, ◌++◌, length}
use tiny_wasm.Base.Int.{pos}
use tiny_wasm.Base.Text.{Text}
use tiny_wasm.Utils.Lower.{lower_pad}
use tiny_wasm.Wasm.Types.{WasmValue, int32, int64, float32, float64}
use tiny_wasm.Wasm.Function.{WasmFunction, wasm_function, set_code_vec}
use tiny_wasm.Parser.{WasmType, Parser}

pub data ValueType : Type 0 where
  i32 i64 f32 f64 : ValueType

abbrev pub byte_of : ValueType → ℕ
byte_of i32 = 0x7f
byte_of i64 = 0x7e
byte_of f32 = 0x7d
byte_of f64 = 0x7c

-- The value that the program keeps for a type.
abbrev pub value_of : ValueType → WasmValue
value_of i32 = int32 (pos 0)
value_of i64 = int64 (pos 0)
value_of f32 = float32 0
value_of f64 = float64 0

abbrev pub bytes_of_values : List ValueType → List ℕ
bytes_of_values [] = []
bytes_of_values (v ∷ vs) = byte_of v ∷ bytes_of_values vs

abbrev pub values : List ValueType → List WasmValue
values [] = []
values (v ∷ vs) = value_of v ∷ values vs

pub record Signature : Type 0 where
  pub parameters : List ValueType
  pub results : List ValueType

pub record Export : Type 0 where
  pub name : List ℕ
  pub kind : ℕ
  pub index : ℕ

-- The number of declarations of locals, and the bytes behind it.
pub record Body : Type 0 where
  pub declarations : ℕ
  pub code : List ℕ

abbrev pub encode_signatures : List Signature → List ℕ
encode_signatures [] = []
encode_signatures (σ ∷ σs) =
    0x60
    ∷ length σ.parameters
    ∷ (bytes_of_values σ.parameters
        ++ length σ.results ∷ (bytes_of_values σ.results ++ encode_signatures σs))

abbrev pub encode_exports : List Export → List ℕ
encode_exports [] = []
encode_exports (e ∷ es) = length e.name ∷ (e.name ++ e.kind ∷ e.index ∷ encode_exports es)

abbrev pub encode_bodies : List Body → List ℕ
encode_bodies [] = []
encode_bodies (b ∷ bs) = (1 + length b.code) ∷ b.declarations ∷ (b.code ++ encode_bodies bs)

-- What the parser keeps.
abbrev pub types_of : List Signature → List WasmType
types_of [] = []
types_of (σ ∷ σs) =
    record { param_data = values σ.parameters; result_data = values σ.results } ∷ types_of σs

abbrev pub opcodes_of : List ℕ → List Text
opcodes_of [] = []
opcodes_of (b ∷ bs) = lower_pad 2 b ∷ opcodes_of bs

abbrev pub functions_of : List Body → List WasmFunction
functions_of [] = []
functions_of (b ∷ bs) =
    set_code_vec (opcodes_of b.code) b.declarations wasm_function ∷ functions_of bs

-- A later export stands in front.
abbrev pub add_exports : List Export → Parser → Parser
add_exports [] p = p
add_exports (e ∷ es) p = add_exports es (record p {
  func_name_index_mapper = (e.name, e.index) ∷ p.func_name_index_mapper;
  func_index_name_mapper = (e.index, e.name) ∷ p.func_index_name_mapper;
})
