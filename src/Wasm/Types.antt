-- ===== src/Wasm/Types.antt =====
-- The values and tables of include/Opcode/Base.hpp, include/Utils.h and
-- include/Wasm/CommonHeader.hpp that the classes share.
use tiny_wasm.Base.{ℕ, Bool, true, false, List, [], ◌∷◌, if◌then◌else◌, Option, none, some}
use tiny_wasm.Base.Int.{ℤ, pos}
use tiny_wasm.Base.Result.{Result, ok, err, out_of_range}
use tiny_wasm.Base.Text.{Text, text, text_eq}
use tiny_wasm.Opcode.Base.{RegType, w_reg, x_reg, s_reg, d_reg}

-- `wasm_type`. A float is its bit pattern: the source only copies such patterns.
pub data WasmValue : Type 0 where
  int32 int64 : ℤ → WasmValue
  float32 float64 : ℕ → WasmValue

-- `getWasmType`.
abbrev pub get_wasm_type : WasmValue → RegType
get_wasm_type (int32 v) = w_reg
get_wasm_type (int64 v) = x_reg
get_wasm_type (float32 v) = s_reg
get_wasm_type (float64 v) = d_reg

pub data TypeCategory : Type 0 where
  param result local : TypeCategory

abbrev pub category_eq : TypeCategory → TypeCategory → Bool
category_eq param param = true
category_eq result result = true
category_eq local local = true
category_eq _ _ = false

pub record ControlFlowElement : Type 0 where
  pub label : Text
  pub signature : List WasmValue

-- `reverse_cond_str_map`.
abbrev pub cond_table : List (Text × ℕ)
cond_table =
    (text "eq", 0b0000)
    ∷ (text "ne", 0b0001)
    ∷ (text "cs", 0b0010)
    ∷ (text "cc", 0b0011)
    ∷ (text "mi", 0b0100)
    ∷ (text "pl", 0b0101)
    ∷ (text "vs", 0b0110)
    ∷ (text "vc", 0b0111)
    ∷ (text "hi", 0b1000)
    ∷ (text "ls", 0b1001)
    ∷ (text "ge", 0b1010)
    ∷ (text "lt", 0b1011)
    ∷ (text "gt", 0b1100)
    ∷ (text "le", 0b1101)
    ∷ (text "al", 0b1110)
    ∷ (text "nv", 0b1111)
    ∷ []

-- `at` of a table with texts for keys.
unfoldable pub at : List (Text × ℕ) → Text → Result ℕ
at [] k = err out_of_range
at ((j, v) ∷ m) k = if text_eq j k then ok v else at m k

-- `operator[]`, with the value that a missing key gets.
unfoldable pub index_or : List (Text × ℕ) → Text → ℕ → ℕ
index_or [] k d = d
index_or ((j, v) ∷ m) k d = if text_eq j k then v else index_or m k d

-- `add_data`'s choice of a value by the byte of its type; `none` is the refused byte.
unfoldable pub data_of_type : Text → Option WasmValue
data_of_type type =
    if text_eq type (text "7f")
    then some (int32 (pos 0))
    else if text_eq type (text "7e")
    then some (int64 (pos 0))
    else if text_eq type (text "7d")
    then some (float32 0)
    else if text_eq type (text "7c")
    then some (float64 0)
    else none
