-- ===== src/Parser/Process.antt =====
-- include/Parser.hpp: the functions of a module are given their types, compiled and run.
use tiny_wasm.Base.{ℕ, zero, suc, ◌+◌, Bool, List, if◌then◌else◌, get_elem?, set, length}
use tiny_wasm.Base.Result.{Result, ok, err, thrown, or_undefined, ◌>>=◌}
use tiny_wasm.Wasm.Function.{WasmFunction}
use tiny_wasm.Wasm.Initialize.{prepare_params}
use tiny_wasm.Wasm.Process.{process_code_vec}
use tiny_wasm.Wasm.Execute.{CallResult, Outcome, returned, trapped, execute_wasm_instr}
use tiny_wasm.Parser.{Parser}

-- `v[i]`, which the source does not check.
abbrev pub index {ℓ} : {A : Type ℓ} → List A → ℕ → Result A
index xs i = or_undefined (get_elem? xs i)

unfoldable pub init_function_by_type : ℕ → Parser → Result Parser
init_function_by_type i p = do
  type ← index p.func_type_vec i
  t ← index p.wasm_type_vec type
  fn ← index p.wasm_function_vec i
  let fn = record fn { type = type; param_data = t.param_data; result_data = t.result_data }
  ok (record p { wasm_function_vec = set p.wasm_function_vec i fn })

unfoldable pub func_single_process : ℕ → Parser → Result Parser
func_single_process i p = do
  fn ← index p.wasm_function_vec i
  fn ← prepare_params fn
  fn ← process_code_vec fn
  ok (record p { wasm_function_vec = set p.wasm_function_vec i fn })

-- The string that `executeWasmInstr` throws when the code has trapped.
abbrev pub finish_run : Outcome × WasmFunction → Result WasmFunction
finish_run (returned ans, fn) = ok fn
finish_run (trapped, fn) = err (thrown "Wasm trapped")

-- `wasmFunctionVec[i].executeWasmInstr()`, whose result the caller drops.
unfoldable pub execute_at : (List ℕ → CallResult) → ℕ → Parser → Result Parser
execute_at call i p = do
  fn ← index p.wasm_function_vec i
  run ← execute_wasm_instr call fn
  fn ← finish_run run
  ok (record p { wasm_function_vec = set p.wasm_function_vec i fn })

-- The loop of `funcBatchProcess` with `n` functions left, the next one `i`.
unfoldable pub func_batch : (List ℕ → CallResult) → Bool → ℕ → ℕ → Parser → Result Parser
func_batch call execute zero i p = ok p
func_batch call execute (suc n) i p = do
  p ← init_function_by_type i p
  p ← func_single_process i p
  p ← if execute then execute_at call i p else ok p
  func_batch call execute n (i + 1) p

unfoldable pub func_batch_process : (List ℕ → CallResult) → Bool → Parser → Result Parser
func_batch_process call execute p = func_batch call execute (length p.func_type_vec) 0 p
