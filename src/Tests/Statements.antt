-- ===== src/Tests/Statements.antt =====
-- Accesses to variables, compiled and run.
use tiny_wasm.Base.{false, List, [], ◌∷◌, ◌++◌, if◌then◌else◌, ◌==◌}
use tiny_wasm.Base.Int.{pos}
use tiny_wasm.Base.Text.{text}
use tiny_wasm.Opcode.Base.{w_reg}
use tiny_wasm.Wasm.Types.{int32, param, local}
use tiny_wasm.Wasm.Function.{WasmFunction, wasm_function}
use tiny_wasm.A64.{Machine}
use tiny_wasm.Wasm.Operands.{const, arithmetic, add}
use tiny_wasm.Wasm.Statements.{Statement, operator, access, local_get, local_set, local_tee}
use tiny_wasm.Wasm.Statements.Emitted.{Layout}
use tiny_wasm.Wasm.Statements.Simulation.{Place}
use tiny_wasm.Wasm.Statements.Loop.{bytes_of_statements}

-- local 1 := param 0 + 5, kept on the stack; then param 0 := 9.
abbrev increment : List Statement
increment =
    access local_get 0
    ∷ operator (const false (pos 5))
    ∷ operator (arithmetic add false)
    ∷ access local_tee 1
    ∷ operator (const false (pos 9))
    ∷ access local_set 0
    ∷ []

abbrev increment_function : WasmFunction
increment_function = record wasm_function {
  code_vec = bytes_of_statements increment ++ text "0b" ∷ [];
  param_data = int32 (pos 0) ∷ [];
  local_data = int32 (pos 0) ∷ [];
  vec_to_stack = ((param, 0), 12) ∷ ((local, 0), 8) ∷ [];
  reg_type_getter = ((param, 0), w_reg) ∷ ((local, 0), w_reg) ∷ [];
}

abbrev two_variables : Layout
two_variables = (false, 12) ∷ (false, 8) ∷ []

abbrev place : Place
place = record { base = 4096; limit = 3; sp = 65536; size = 16 }

-- The parameter is 7, the local 0, the stack empty.
abbrev machine_with_frame : Machine
machine_with_frame = record {
  x = λ n. if n == 20 then 4096 else 0;
  sp = 65536;
  memory = λ a. if a == 65548 then 7 else 0;
  flags = record { negative = false; is_zero = false; carry = false; overflow = false };
}
