-- ===== src/Runner.antt =====
-- main.cpp: the commands of a chapter of tests are collected by their module and run. The text of the
-- chapter is read and parsed by the JSON library; a command is what the code takes from it, each
-- value as the library's `dump` gives it. wasmtest.cc has the same steps.
pub mod Order
pub mod Values
use tiny_wasm.Base.{
  ℕ, zero, suc, ◌+◌, ◌-◌, ◌*◌, ◌%◌, ◌^◌, Bool, true, false, not, ◌&&◌, ◌||◌, List, [], ◌∷◌, ◌++◌,
  length, set, ltb, leb, ◌==◌, if◌then◌else◌, Option, none, some,
}
use tiny_wasm.Base.Int.{ℤ, pos, negsuc, signed}
use tiny_wasm.Base.Result.{
  Result, ok, err, thrown, undefined, invalid_argument, out_of_range, ◌>>=◌,
}
use tiny_wasm.Base.Text.{Text, text, text_eq, substr}
use tiny_wasm.Wasm.Types.{WasmValue, int32, int64}
use tiny_wasm.Wasm.Execute.{CallResult, Outcome, returned, trapped, execute_wasm_instr}
use tiny_wasm.Parser.{Parser, parser, parse}
use tiny_wasm.Parser.Process.{index, init_function_by_type, func_single_process}

-- The types and the values of the arguments, the value that is expected, if there is one, and the type
-- of the command.
pub record Command : Type 0 where
  pub field : Text
  pub args : List (Text × Text)
  pub expected : Option Text
  pub type : Text

pub data Entry : Type 0 where
  with_filename : Text → Entry
  with_action : Command → Entry
  other : Entry

-- The decimal digits up to the first other character.
abbrev is_digit : ℕ → Bool
is_digit c = leb b'0' c && leb c b'9'

unfoldable pub decimal_value : ℕ → Text → ℕ
decimal_value acc [] = acc
decimal_value acc (c ∷ s) =
    let rest = decimal_value (acc * 10 + (c - b'0')) s in if is_digit c then rest else acc

-- `stoul` and `stoull` of a text without spaces and sign.
unfoldable pub stoul10 : Text → Result ℕ
stoul10 [] = err invalid_argument
stoul10 (c ∷ s) =
    let v = decimal_value 0 (c ∷ s) in
    if not (is_digit c)
    then err invalid_argument
    else if ltb v (2 ^ 64)
    then ok v
    else err out_of_range

-- `v_str.substr(1, v_str.size() - 2)`.
abbrev pub unquote : Text → Result Text
unquote v_str = substr v_str 1 (length v_str - 2)

-- A value of another type leaves the parameter as it is.
unfoldable pub set_param : Text → Text → WasmValue → Result WasmValue
set_param type value v = do
  v_str ← unquote value
  if text_eq type (text "i32")
      then (stoul10 v_str >>= λ n. ok (int32 (signed 32 (n % 2 ^ 32))))
      else if text_eq type (text "i64")
      then (stoul10 v_str >>= λ n. ok (int64 (signed 64 n)))
      else ok v

-- An argument that is not there is null, which has no type.
unfoldable pub set_params : List WasmValue → List (Text × Text) → Result (List WasmValue)
set_params [] args = ok []
set_params (v ∷ vs) [] = ok (v ∷ vs)
set_params (v ∷ vs) ((type, value) ∷ args) = do
  v ← set_param type value v
  vs ← set_params vs args
  ok (v ∷ vs)

abbrev pub int_eq : ℤ → ℤ → Bool
int_eq (pos a) (pos b) = a == b
int_eq (pos a) (negsuc b) = false
int_eq (negsuc a) (pos b) = false
int_eq (negsuc a) (negsuc b) = a == b

-- After a trap `ans` has no value.
abbrev pub answer_matches : Outcome → ℕ → Result Bool
answer_matches (returned ans) n = ok (int_eq ans (signed 64 n))
answer_matches trapped n = err undefined

abbrev pub is_trap : Outcome → Bool
is_trap (returned ans) = false
is_trap trapped = true

unfoldable pub verdict : Text → Outcome → List WasmValue → Text → Result Bool
verdict type outcome result_data expect_str =
    if text_eq type (text "assert_trap")
    then ok (is_trap outcome)
    else if ltb 0 (length result_data)
    then (stoul10 expect_str >>= answer_matches outcome)
    else ok (text_eq expect_str (text "ul"))

-- `funcNameIndexMapper[name]`, which adds 0 for a name that is not there.
unfoldable pub name_index : List (Text × ℕ) → Text → Option ℕ
name_index [] name = none
name_index ((k, i) ∷ m) name =
    let rest = name_index m name in if text_eq k name then some i else rest

abbrev pub index_or_zero : Option ℕ → Text → Parser → ℕ × Parser
index_or_zero (some i) name p = (i, p)
index_or_zero none name p =
    (0, record p { func_name_index_mapper = (name, 0) ∷ p.func_name_index_mapper })

unfoldable pub function_index : Text → Parser → ℕ × Parser
function_index name p = index_or_zero (name_index p.func_name_index_mapper name) name p

-- `dump` of a value that is not there.
abbrev pub dumped : Option Text → Text
dumped none = text "null"
dumped (some value) = value

-- The body of the loop over the commands, up to `matched`.
unfoldable pub run_command : (List ℕ → CallResult) → Command → Parser → Result (Bool × Parser)
run_command call c p = do
  let (i, p) = function_index c.field p
  p ← init_function_by_type i p
  fn ← index p.wasm_function_vec i
  params ← set_params fn.param_data c.args
  let p = record p {
    wasm_function_vec = set p.wasm_function_vec i (record fn { param_data = params });
  }
  p ← func_single_process i p
  expect_str ← unquote (dumped c.expected)
  fn ← index p.wasm_function_vec i
  (outcome, fn) ← execute_wasm_instr call fn
  matched ← verdict c.type outcome fn.result_data expect_str
  ok (matched, record p { wasm_function_vec = set p.wasm_function_vec i fn })

-- `<` of `std::string`.
unfoldable pub text_lt : Text → Text → Bool
text_lt s [] = false
text_lt [] (d ∷ t) = true
text_lt (c ∷ s) (d ∷ t) = ltb c d || (c == d && text_lt s t)

-- `command_map.insert`: behind the entries of the same file.
unfoldable pub insert_command : Text → Command → List (Text × Command) → List (Text × Command)
insert_command file c [] = (file, c) ∷ []
insert_command file c ((k, d) ∷ m) =
    let rest = insert_command file c m in
    if text_lt file k then (file, c) ∷ (k, d) ∷ m else (k, d) ∷ rest

unfoldable pub find_parser : List (Text × Parser) → Text → Option Parser
find_parser [] file = none
find_parser ((k, p) ∷ m) file =
    let rest = find_parser m file in if text_eq k file then some p else rest

pub record Chapter : Type 0 where
  pub cur_wasm_file : Text
  pub command_map : List (Text × Command)
  pub parser_map : List (Text × Parser)

abbrev add_parser : Option Parser → Text → Text → Chapter → Result Chapter
add_parser (some p) binary file chapter = ok chapter
add_parser none binary file chapter = do
  p ← parse (parser binary)
  ok (record chapter { parser_map = (file, p) ∷ chapter.parser_map })

-- A round of the first loop. `read` gives the text that `readBinary` makes of a file.
unfoldable pub collect_entry : (Text → Text) → Text → Entry → Chapter → Result Chapter
collect_entry read base_path (with_filename file) chapter =
    add_parser (find_parser chapter.parser_map file) (read (base_path ++ file)) file
      (record chapter { cur_wasm_file = file })
collect_entry read base_path (with_action c) chapter =
    ok (record chapter { command_map = insert_command chapter.cur_wasm_file c chapter.command_map })
collect_entry read base_path other chapter = ok chapter

unfoldable pub collect : (Text → Text) → Text → List Entry → Chapter → Result Chapter
collect read base_path [] chapter = ok chapter
collect read base_path (e ∷ es) chapter =
    collect_entry read base_path e chapter >>= collect read base_path es

-- `parser_map[file]`, with an empty parser for a file that is not there.
abbrev parser_or_empty : Option Parser → Parser
parser_or_empty none = parser []
parser_or_empty (some p) = p

unfoldable pub run_commands :
    (List ℕ → CallResult)
    → List (Text × Command)
    → List (Text × Parser)
    → Result (List (Text × Parser))
run_commands call [] parser_map = ok parser_map
run_commands call ((file, c) ∷ m) parser_map = do
  (matched, p) ← run_command call c (parser_or_empty (find_parser parser_map file))
  if matched then run_commands call m ((file, p) ∷ parser_map) else err (thrown "Unmatched")

unfoldable pub test_chapter :
    (List ℕ → CallResult) → (Text → Text) → Text → List Entry → Result (List (Text × Parser))
test_chapter call read base_path commands = do
  chapter ←
      collect read base_path commands
        (record { cur_wasm_file = []; command_map = []; parser_map = [] })
  run_commands call chapter.command_map chapter.parser_map
