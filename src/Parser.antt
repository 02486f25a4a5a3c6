-- ===== src/Parser.antt =====
-- include/Parser.hpp and include/WasmType.hpp: the sections of a module, read from the text of
-- its bytes in hexadecimal. `s` is the text that is left. Offsets count digits. What the source
-- only prints is left out.
pub mod Process
pub mod Termination
pub mod Binary
use tiny_wasm.Base.{
  ℕ, zero, suc, ◌+◌, ◌-◌, ◌*◌, ◌%◌, List, [], ◌∷◌, ◌++◌, ltb, ◌==◌, if◌then◌else◌, Option, none,
  some, length, get_elem?, set,
}
use tiny_wasm.Base.Result.{
  Result, ok, err, exited, invalid_argument, undefined, out_of_range, or_undefined, run_on, ended,
  ◌>>=◌,
}
use tiny_wasm.Base.Text.{Text, text, text_eq, substr, substr_from}
use tiny_wasm.Utils.Parse.{stoul16, hex_char_to_int}
use tiny_wasm.Wasm.Types.{WasmValue, TypeCategory, param, result, local, data_of_type}
use tiny_wasm.Wasm.Function.{WasmFunction, wasm_function, set_code_vec}
use tiny_wasm.Wasm.Initialize.{prepare_params}
use tiny_wasm.Wasm.Process.{process_code_vec}

pub record WasmType : Type 0 where
  pub param_data : List WasmValue
  pub result_data : List WasmValue

abbrev pub wasm_type : WasmType
wasm_type = record { param_data = []; result_data = [] }

abbrev pub push_type_data : TypeCategory → Option WasmValue → WasmType → WasmType
push_type_data param none t = t
push_type_data param (some d) t = record t { param_data = t.param_data ++ d ∷ [] }
push_type_data result none t = t
push_type_data result (some d) t = record t { result_data = t.result_data ++ d ∷ [] }
push_type_data local o t = t

-- `WasmType::add_data`.
unfoldable pub add_type_data : TypeCategory → Text → WasmType → WasmType
unfolding data_of_type
add_type_data category type t = push_type_data category (data_of_type type) t

pub record Parser : Type 0 where
  pub s : Text
  pub section_length : ℕ
  pub wasm_function_vec : List WasmFunction
  pub wasm_type_vec : List WasmType
  pub func_type_vec : List ℕ
  pub func_name_index_mapper : List (Text × ℕ)
  pub func_index_name_mapper : List (ℕ × Text)

-- `Parser(wasmpath)`, with the text that `readBinary` returns.
abbrev pub parser : Text → Parser
parser binary = record {
  s = binary;
  section_length = 0;
  wasm_function_vec = [];
  wasm_type_vec = [];
  func_type_vec = [];
  func_name_index_mapper = [];
  func_index_name_mapper = [];
}

-- `stoul(s.substr(p, 2), nullptr, 16)`.
abbrev pub byte_at : Text → ℕ → Result ℕ
byte_at s p = do t ← substr s p 2; stoul16 t

-- The loops over the parameters and over the results of a type: `n` left, the next at `p`.
unfoldable pub add_types : TypeCategory → ℕ → ℕ → Text → WasmType → Result WasmType
add_types category zero p s t = ok t
add_types category (suc n) p s t = do
  type ← substr s p 2
  add_types category n (p + 2) s (add_type_data category type t)

-- One round of `parse_type`: the next base offset, and the type.
unfoldable pub parse_one_type : Text → ℕ → Result (ℕ × WasmType)
parse_one_type s base_offset = do
  param_count ← byte_at s (base_offset + 2)
  let base_offset = base_offset + 2
  cur_type ← add_types param param_count (base_offset + 2) s wasm_type
  let base_offset = base_offset + 2 + 2 * param_count
  result_count ← byte_at s base_offset
  cur_type ← add_types result result_count (base_offset + 2) s cur_type
  ok (base_offset + 2 + 2 * result_count, cur_type)

unfoldable pub parse_types : ℕ → ℕ → Parser → Result Parser
parse_types zero base_offset p = ok p
parse_types (suc n) base_offset p = do
  (base_offset, cur_type) ← parse_one_type p.s base_offset
  parse_types n base_offset (record p { wasm_type_vec = p.wasm_type_vec ++ cur_type ∷ [] })

unfoldable pub parse_type : Parser → Result Parser
parse_type p = do type_count ← byte_at p.s 0; parse_types type_count 2 p

-- `function_type` is stored as an `int`.
unfoldable pub parse_functions : ℕ → ℕ → Parser → Result Parser
parse_functions zero i p = ok p
parse_functions (suc n) i p = do
  function_type ← byte_at p.s (2 * i + 2)
  parse_functions n (i + 1) (record p { func_type_vec = p.func_type_vec ++ function_type ∷ [] })

unfoldable pub parse_function : Parser → Result Parser
parse_function p = do function_count ← byte_at p.s 0; parse_functions function_count 0 p

-- `(high << 4) | low` of two digits.
unfoldable pub hex_pairs : Text → Result Text
hex_pairs [] = ok []
hex_pairs (h ∷ []) = err undefined
hex_pairs (h ∷ l ∷ s) = do
  high ← hex_char_to_int h
  low ← hex_char_to_int l
  rest ← hex_pairs s
  ok ((high * 16 + low) ∷ rest)

unfoldable pub hex_to_ascii : Text → Result Text
hex_to_ascii hex = if length hex % 2 == 0 then hex_pairs hex else err invalid_argument

-- One round of `parse_export`; the export's kind is read and only printed.
unfoldable pub parse_one_export : Text → ℕ → Result (ℕ × (Text × ℕ))
parse_one_export s base_offset = do
  export_size ← byte_at s (base_offset + 2)
  digits ← substr s (base_offset + 4) (export_size * 2)
  export_name ← hex_to_ascii digits
  export_type ← byte_at s (base_offset + 2 * export_size + 4)
  export_index ← byte_at s (base_offset + 2 * export_size + 6)
  ok (base_offset + 2 * export_size + 6, (export_name, export_index))

-- A later entry for a key stands in front of an earlier one.
unfoldable pub parse_exports : ℕ → ℕ → Parser → Result Parser
parse_exports zero base_offset p = ok p
parse_exports (suc n) base_offset p = do
  (base_offset, (name, index)) ← parse_one_export p.s base_offset
  parse_exports n base_offset (record p {
    func_name_index_mapper = (name, index) ∷ p.func_name_index_mapper;
    func_index_name_mapper = (index, name) ∷ p.func_index_name_mapper;
  })

unfoldable pub parse_export : Parser → Result Parser
parse_export p = do export_count ← byte_at p.s 0; parse_exports export_count 0 p

-- The loop over the bytes of a function: `n` left, the next at `p`.
unfoldable pub read_opcodes : ℕ → ℕ → Text → Result (List Text)
read_opcodes zero p s = ok []
read_opcodes (suc n) p s = do
  opcode ← substr s p 2
  opcodes ← read_opcodes n (p + 2) s
  ok (opcode ∷ opcodes)

-- `func_size - 1` is taken in 64 bits, so a size of 0 asks for 2 ^ 64 - 1 bytes; the text ends
-- before that and `substr` throws.
unfoldable pub parse_one_code : Text → ℕ → Result (ℕ × WasmFunction)
parse_one_code s base_offset = do
  func_size ← byte_at s (base_offset + 2)
  local_var_declare_count ← byte_at s (base_offset + 4)
  let opcodes = read_opcodes (func_size - 1) (base_offset + 6) s
  opcodes ← if func_size == 0 then err out_of_range else opcodes
  ok (base_offset + 2 * func_size + 2, set_code_vec opcodes local_var_declare_count wasm_function)

unfoldable pub parse_codes : ℕ → ℕ → Parser → Result Parser
parse_codes zero base_offset p = ok p
parse_codes (suc n) base_offset p = do
  (base_offset, cur_func) ← parse_one_code p.s base_offset
  parse_codes n base_offset (record p { wasm_function_vec = p.wasm_function_vec ++ cur_func ∷ [] })

unfoldable pub parse_code : Parser → Result Parser
parse_code p = do func_count ← byte_at p.s 0; parse_codes func_count 0 p

-- The magic number must be there; the version is skipped unread.
unfoldable pub initial_check : Parser → Result Parser
initial_check p = do
  magic_number ← substr p.s 0 8
  s ← if text_eq magic_number (text "0061736d") then substr_from p.s 8 else err exited
  s ← substr_from s 8
  ok (record p { s = s })

-- A section of another kind is skipped.
unfoldable pub parse_section : Text → Parser → Result Parser
parse_section type p =
    if text_eq type (text "01")
    then parse_type p
    else if text_eq type (text "03")
    then parse_function p
    else if text_eq type (text "07")
    then parse_export p
    else if text_eq type (text "0a")
    then parse_code p
    else ok p

-- The body of the loop of `parse`.
unfoldable pub parse_step : Parser → Result Parser
parse_step p = do
  type ← substr p.s 0 2
  s ← substr_from p.s 2
  n ← byte_at s 0
  s ← substr_from s 2
  p ← parse_section type (record p { s = s; section_length = n })
  s ← substr_from p.s (p.section_length * 2)
  ok (record p { s = s })

unfoldable pub parse_loop : ℕ → Parser → Option (Result Parser)
parse_loop zero p = none
parse_loop (suc fuel) p =
    let rest = run_on (parse_step p) (parse_loop fuel) in
    if ltb 0 (length p.s) then rest else some (ok p)

-- Each round takes four digits at least.
unfoldable pub parse : Parser → Result Parser
parse p = do p ← initial_check p; ended (parse_loop (suc (length p.s)) p)
