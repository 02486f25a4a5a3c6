-- ===== src/Tests/Modules.antt =====
-- A module in the binary format, parsed.
use tiny_wasm.Base.{◌≡◌, List, [], ◌∷◌, arith}
use tiny_wasm.Base.Result.{ok}
use tiny_wasm.Base.Text.{text}
use tiny_wasm.Base.Int.{pos}
use tiny_wasm.Utils.Lower.{read_binary, lower_pad, lower_char}
use tiny_wasm.Wasm.Types.{int32, int64}
use tiny_wasm.Wasm.Function.{wasm_function, set_code_vec}
use tiny_wasm.Parser.{parser, parse}
use tiny_wasm.Parser.Binary.{i32, i64}
use tiny_wasm.Parser.Binary.Sections.{
  Section, type_section, function_section, export_section, code_section, other_section,
  encode_module,
}
use tiny_wasm.Parser.Binary.RoundTrip.{parse-encode_module}

-- f : i32 i64 -> i32, whose body is local.get 0; a custom section; and g : -> i64.
abbrev two_functions : List Section
two_functions =
    type_section (
      record { parameters = i32 ∷ i64 ∷ []; results = i32 ∷ [] }
      ∷ record { parameters = []; results = i64 ∷ [] }
      ∷ [])
    ∷ other_section 0 (1 ∷ 2 ∷ 3 ∷ [])
    ∷ function_section (0 ∷ 1 ∷ [])
    ∷ export_section (
        record { name = text "f"; kind = 0; index = 0 }
        ∷ record { name = text "g"; kind = 0; index = 1 }
        ∷ [])
    ∷ code_section (
        record { declarations = 0; code = 0x20 ∷ 0 ∷ 0x0b ∷ [] }
        ∷ record { declarations = 1; code = 1 ∷ 0x7e ∷ 0x42 ∷ 5 ∷ 0x0b ∷ [] }
        ∷ [])
    ∷ []

parse-encode_module_example :
    parse (parser (read_binary (encode_module two_functions)))
    ≡ ok (record {
      s = [];
      section_length = 13;
      wasm_function_vec =
          set_code_vec (text "20" ∷ text "00" ∷ text "0b" ∷ []) 0 wasm_function
          ∷ set_code_vec
              (text "01" ∷ text "7e" ∷ text "42" ∷ text "05" ∷ text "0b" ∷ [])
              1
              wasm_function
          ∷ [];
      wasm_type_vec =
          record {
            param_data = int32 (pos 0) ∷ int64 (pos 0) ∷ [];
            result_data = int32 (pos 0) ∷ [];
          }
          ∷ record { param_data = []; result_data = int64 (pos 0) ∷ [] }
          ∷ [];
      func_type_vec = 0 ∷ 1 ∷ [];
      func_name_index_mapper = (text "g", 1) ∷ (text "f", 0) ∷ [];
      func_index_name_mapper = (1, text "g") ∷ (0, text "f") ∷ [];
    })
unfolding lower_pad lower_char
parse-encode_module_example = parse-encode_module two_functions (omega arith) (omega arith)
