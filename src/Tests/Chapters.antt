-- ===== src/Tests/Chapters.antt =====
-- A chapter of two modules.
use tiny_wasm.Base.{ℕ, ◌^◌, ◌<◌, ◌≡◌, refl, List, [], ◌∷◌, none}
use tiny_wasm.Base.Decimal.{to_string}
use tiny_wasm.Base.Int.{pos, signed}
use tiny_wasm.Base.Result.{ok}
use tiny_wasm.Base.Text.{Text, text}
use tiny_wasm.Wasm.Types.{int32, int64}
use tiny_wasm.Parser.{parser, parse, initial_check, parse_loop}
use tiny_wasm.Runner.{
  Command, Entry, with_filename, with_action, other, Chapter, collect, collect_entry,
  insert_command, text_lt, find_parser, set_param,
}
use tiny_wasm.Runner.Order.{IsSorted, commands_of, file_commands, collect-file_commands}
use tiny_wasm.Runner.Values.{quoted, set_param-to_string}

abbrev call_of : Text → Command
call_of name = record { field = name; args = []; expected = none; type = text "assert_return" }

abbrev chapter_entries : List Entry
chapter_entries =
    with_filename (text "b.wasm")
    ∷ with_action (call_of (text "f"))
    ∷ with_filename (text "a.wasm")
    ∷ with_action (call_of (text "g"))
    ∷ other
    ∷ with_action (call_of (text "h"))
    ∷ []

-- A module without sections.
abbrev empty_module : Text → Text
empty_module file = text "0061736d01000000"

abbrev collected : Chapter
collected = record {
  cur_wasm_file = text "a.wasm";
  command_map =
      (text "a.wasm", call_of (text "g"))
      ∷ (text "a.wasm", call_of (text "h"))
      ∷ (text "b.wasm", call_of (text "f"))
      ∷ [];
  parser_map = (text "a.wasm", parser []) ∷ (text "b.wasm", parser []) ∷ [];
}

collect-file_commands_example :
    IsSorted collected.command_map
    × ((f : Text) → commands_of f collected.command_map ≡ file_commands [] chapter_entries f)
unfolding collect collect_entry insert_command text_lt find_parser parse initial_check parse_loop
collect-file_commands_example =
    collect-file_commands empty_module (text "test/CH02/") chapter_entries collected refl

set_param-to_string_example :
    ((n : ℕ)
      → n < 2 ^ 32
      → set_param (text "i32") (quoted (to_string n)) (int64 (pos 0)) ≡ ok (int32 (signed 32 n)))
    × ((n : ℕ)
        → n < 2 ^ 64
        → set_param (text "i64") (quoted (to_string n)) (int64 (pos 0)) ≡ ok (int64 (signed 64 n)))
set_param-to_string_example = set_param-to_string (int64 (pos 0))
