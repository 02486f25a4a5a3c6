-- ===== src/Tests/Frames.antt =====
-- The frame of a function, set up and taken down on a machine.
use tiny_wasm.Base.{ℕ, ◌≡◌, ◌≢◌, refl, false, List, [], ◌∷◌, ◌++◌, arith, if◌then◌else◌, ◌==◌}
use tiny_wasm.Base.Int.{ℤ, pos}
use tiny_wasm.Base.Result.{ok}
use tiny_wasm.Opcode.Base.{w_reg}
use tiny_wasm.A64.{Machine, load, run}
use tiny_wasm.A64.Decode.{processor, processor-IsA64}
use tiny_wasm.Wasm.Types.{local}
use tiny_wasm.Wasm.Function.{WasmFunction, wasm_function}
use tiny_wasm.Wasm.Stack.{restore_sp}
use tiny_wasm.Wasm.Initialize.Slots.{HasSlot}
use tiny_wasm.Wasm.Process.{main_entry_initialize}
use tiny_wasm.Wasm.Operands.Programs.{words_text}
use tiny_wasm.Wasm.Operands.Stacked.{Stacked}
use tiny_wasm.Wasm.Statements.Prologue.{ints}
use tiny_wasm.Wasm.Statements.Prologue.Frames.{main_entry_initialize-outside}
use tiny_wasm.Wasm.Statements.Epilogue.{integer, restore_sp-Stacked}

abbrev one_int : List ℤ
one_int = pos 0 ∷ []

abbrev two_ints : List ℤ
two_ints = pos 0 ∷ pos 0 ∷ []

-- One parameter and two locals.
abbrev three_variables : WasmFunction
three_variables = record wasm_function { param_data = ints one_int; local_data = ints two_ints }

-- One parameter and one local.
abbrev two_variables_function : WasmFunction
two_variables_function = record wasm_function {
  param_data = ints one_int;
  local_data = ints one_int;
}

-- 7 in X0, the wasm stack at 4096, the stack pointer at 65536.
abbrev entered : Machine
entered = record {
  x = λ n. if n == 0 then 7 else if n == 20 then 4096 else 0;
  sp = 65536;
  memory = λ a. 255;
  flags = record { negative = false; is_zero = false; carry = false; overflow = false };
}

main_entry_initialize-outside_example :
    (fn' : WasmFunction) × (words : List ℕ) × (main_entry_initialize two_variables_function
      ≡ ok fn')
    × (fn'.wasm_instructions ≡ [] ++ words_text words)
    × HasSlot fn' (local, 0) fn'.stack_size w_reg
    × (load 4 65536 (run processor words entered).memory ≡ 0)
main_entry_initialize-outside_example =
    main_entry_initialize-outside processor processor-IsA64 two_variables_function one_int one_int
      refl refl (omega arith) (omega arith) refl (omega arith) entered (omega arith) (omega arith)

-- A function with a result and a frame of 32 bytes, and a machine with 12 on the stack.
abbrev one_result : WasmFunction
one_result = record wasm_function { result_data = integer false (pos 0) ∷ []; stack_size = 32 }

abbrev leaving : Machine
leaving = record entered {
  x = λ n. if n == 20 then 4096 else if n == 21 then 8 else 0;
  memory = λ a. if a == 4096 then 12 else 0;
}

leaving-Stacked : Stacked 4096 leaving ((false, 12) ∷ [])
unfolding load
leaving-Stacked = (refl, refl, (refl, (omega arith), tt))

restore_sp-Stacked_example :
    (fn' : WasmFunction) × (words : List ℕ) × (restore_sp one_result ≡ ok fn')
    × (fn'.wasm_instructions ≡ [] ++ words_text words)
    × (let t = run processor words leaving in
        (t.x 0 ≡ 12)
        × Stacked 4096 t []
        × (t.sp ≡ 65568)
        × (t.memory ≡ leaving.memory)
        × ((n : ℕ) → n ≢ 0 → n ≢ 21 → t.x n ≡ leaving.x n))
restore_sp-Stacked_example =
    restore_sp-Stacked processor processor-IsA64 4096 3 one_result false (pos 0) (omega arith) refl
      (omega arith) leaving 12 [] (omega arith) leaving-Stacked (omega arith)
