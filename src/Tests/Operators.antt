-- ===== src/Tests/Operators.antt =====
-- Straight-line code, compiled and run.
use mathlib.Core.Option.{bind}
use tiny_wasm.Base.{ℕ, ◌+◌, ◌≡◌, refl, true, false, List, [], ◌∷◌, ◌++◌, arith, if◌then◌else◌, ◌==◌}
use tiny_wasm.Base.Int.{pos}
use tiny_wasm.Base.Result.{ok}
use tiny_wasm.Base.Text.{text}
use tiny_wasm.Wasm.Function.{WasmFunction, wasm_function, set_code_vec, construct_full_instr}
use tiny_wasm.Wasm.Jit.{jit_loop}
use tiny_wasm.A64.{Machine, load, run}
use tiny_wasm.A64.Decode.{processor, processor-IsA64}
use tiny_wasm.Wasm.Operands.{Operator, const, arithmetic, compare, add, sub, lt_s}
use tiny_wasm.Wasm.Operands.Bytes.{bytes_of_all}
use tiny_wasm.Wasm.Operands.Emitted.{with_code, code_of}
use tiny_wasm.Wasm.Operands.Emitted.Operators.{emit_operator, emit_operator-code_of}
use tiny_wasm.Wasm.Operands.Stacked.{Stacked, Kept}
use tiny_wasm.Wasm.Operands.Programs.{words_text, jit_loop-Leaves}

-- (7 - 9 + an i32 that is there) < 3.
abbrev difference : List Operator
difference =
    const false (pos 7)
    ∷ const false (pos 9)
    ∷ arithmetic sub false
    ∷ arithmetic add false
    ∷ const false (pos 3)
    ∷ compare lt_s false
    ∷ []

abbrev difference_function : WasmFunction
difference_function = set_code_vec (bytes_of_all difference ++ text "0b" ∷ []) 0 wasm_function

-- A stack at 4096 with the entry 1.
abbrev machine : Machine
machine = record {
  x = λ n. if n == 20 then 4096 else if n == 21 then 8 else 0;
  sp = 65536;
  memory = λ a. if a == 4096 then 1 else 0;
  flags = record { negative = false; is_zero = false; carry = false; overflow = false };
}

machine-Stacked : Stacked 4096 machine ((false, 1) ∷ [])
unfolding load
machine-Stacked = (refl, refl, (refl, (omega arith), tt))

jit_loop-Leaves_example :
    (words : List ℕ) × ((fuel : ℕ)
      → jit_loop (6 + fuel) 0 difference_function
        ≡ jit_loop fuel 9 (construct_full_instr (words_text words) difference_function))
    × Stacked 4096 (run processor words machine) ((false, 1) ∷ [])
    × Kept 4096 3 machine (run processor words machine)
unfolding bind
jit_loop-Leaves_example =
    jit_loop-Leaves processor processor-IsA64 4096 3 difference [] (text "0b" ∷ [])
      difference_function (omega arith) (omega arith) refl machine ((false, 1) ∷ [])
      ((false, 1) ∷ []) refl (omega arith) machine-Stacked

emit_operator-code_of_example :
    emit_operator (compare lt_s true) wasm_function
    ≡ ok (with_code (code_of (compare lt_s true)) wasm_function)
emit_operator-code_of_example = emit_operator-code_of (compare lt_s true) wasm_function
