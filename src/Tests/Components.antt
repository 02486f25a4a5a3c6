-- ===== src/Tests/Components.antt =====
-- Frames, labels, immediates, sections and a run, at concrete inputs.
use tiny_wasm.Base.{
  ℕ, ◌≡◌, refl, ◌+◌, ◌*◌, ◌^◌, ◌%◌, ◌<◌, ◌≤◌, List, [], ◌∷◌, ◌++◌, some, arith, true,
}
use tiny_wasm.Base.Int.{pos, negsuc}
use tiny_wasm.Base.Result.{Result, ok, Returns}
use tiny_wasm.Base.Text.{text}
use tiny_wasm.Opcode.Base.{w_reg}
use tiny_wasm.Opcode.Fields.{word_text}
use tiny_wasm.Opcode.Mov.{wrapper_encode_mov_int32, wrapper_encode_mov_int64}
use tiny_wasm.Opcode.Layout.Immediate.{
  mov_word, wrapper_encode_mov_int32-words, wrapper_encode_mov_int64-words,
}
use tiny_wasm.Wasm.Types.{at, int32, int64}
use tiny_wasm.Wasm.Function.{WasmFunction, wasm_function}
use tiny_wasm.Wasm.Stack.{get_stack_preallocate_size}
use tiny_wasm.Wasm.Stack.Frame.{get_stack_preallocate_size-frame}
use tiny_wasm.Wasm.Branch.Labels.{LabelAt, emit_div-keeps}
use tiny_wasm.Wasm.Emit.{emit_div}
use tiny_wasm.Wasm.Execute.{CallResult, returned, execute_wasm_instr}
use tiny_wasm.Wasm.Execute.Run.{execute_wasm_instr-words}
use tiny_wasm.Wasm.Execute.Loading.{program_text}
use tiny_wasm.Parser.{Parser, parser, parse_loop}
use tiny_wasm.Parser.Termination.{parse_loop_ends}

-- mov w11, #-2
wrapper_encode_mov_int32-words_example :
    (lo hi : ℕ) × (wrapper_encode_mov_int32 11 (negsuc 1) true
      ≡ ok (
          word_text true (mov_word 0 0b10100101 11 0 lo)
          ++ word_text true (mov_word 0 0b11100101 11 1 hi)))
    × (lo < 65536)
    × (hi < 65536)
    × (lo + hi * 2 ^ 16 ≡ 0xfffffffe)
wrapper_encode_mov_int32-words_example =
    wrapper_encode_mov_int32-words 11 (negsuc 1) true (omega arith)

-- mov x5, #-1
wrapper_encode_mov_int64-words_example :
    (a b c d : ℕ) × (wrapper_encode_mov_int64 5 (negsuc 0) true
      ≡ ok (
          word_text true (mov_word 1 0b10100101 5 0 a)
          ++ (word_text true (mov_word 1 0b11100101 5 1 b)
              ++ (word_text true (mov_word 1 0b11100101 5 2 c)
                  ++ word_text true (mov_word 1 0b11100101 5 3 d)))))
    × (a < 65536)
    × (b < 65536)
    × (c < 65536)
    × (d < 65536)
    × (a + b * 2 ^ 16 + c * 2 ^ 32 + d * 2 ^ 48 ≡ 0xffffffffffffffff)
wrapper_encode_mov_int64-words_example =
    wrapper_encode_mov_int64-words 5 (negsuc 0) true (omega arith)

-- Two parameters and a local.
abbrev framed : WasmFunction
framed = record wasm_function {
  param_data = int32 (pos 0) ∷ int64 (pos 0) ∷ [];
  local_data = int32 (pos 0) ∷ [];
}

get_stack_preallocate_size-frame_example :
    let g = get_stack_preallocate_size framed in
    (g.stack_size % 16 ≡ 0)
    × (g.local_stack_end_location ≤ g.stack_size)
    × (g.stack_size < g.local_stack_end_location + 16)
    × (g.local_stack_start_location ≡ g.param_stack_end_location + 8)
    × (g.local_stack_start_location ≤ g.local_stack_end_location)
get_stack_preallocate_size-frame_example = get_stack_preallocate_size-frame framed

-- A division behind another one.
abbrev divided : WasmFunction
divided = record wasm_function { label_map = (text "normal_div", 800) ∷ [] }

first_division : at divided.label_map (text "normal_div") ≡ ok 800
unfolding at
first_division = refl

emit_div-keeps_example : Returns (LabelAt (text "normal_div") 800) (emit_div w_reg true divided)
emit_div-keeps_example = emit_div-keeps (text "normal_div") 800 w_reg true divided first_division

-- A processor that returns 42.
abbrev call42 : List ℕ → CallResult
call42 bytes = record { ans = pos 42; return_code = 0 }

-- mov w0, #42; ret
abbrev answer : WasmFunction
answer = record wasm_function { wasm_instructions = program_text (0x52800540 ∷ 0xd65f03c0 ∷ []) }

execute_wasm_instr-words_example :
    (fn' : WasmFunction) × (execute_wasm_instr call42 answer ≡ ok (returned (pos 42), fn'))
    × (fn' ≡ wasm_function)
execute_wasm_instr-words_example =
    execute_wasm_instr-words call42 answer [] (0x52800540 ∷ 0xd65f03c0 ∷ []) refl refl

-- A function section with one function of type 0.
parse_loop_ends_example : (r : Result Parser) × (parse_loop 9 (parser (text "03020100")) ≡ some r)
parse_loop_ends_example = parse_loop_ends 9 (parser (text "03020100")) (omega arith)
