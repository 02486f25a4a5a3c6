-- ===== src/Wasm/Execute.antt =====
-- include/Wasm/Execute.hpp: the text becomes bytes, and the bytes are run.
pub mod Loading
pub mod Run
pub mod Compiled
use tiny_wasm.Base.{
  ℕ, zero, suc, ◌+◌, ◌*◌, ◌/◌, ◌%◌, Bool, List, [], ◌∷◌, ◌++◌, ◌==◌, if◌then◌else◌, length,
}
use tiny_wasm.Base.Int.{ℤ, pos, negsuc, signed, low_bits}
use tiny_wasm.Base.Result.{Result, ok, ◌>>=◌}
use tiny_wasm.Base.Text.{Text, substr}
use tiny_wasm.Utils.Parse.{stoul16}
use tiny_wasm.Wasm.Function.{WasmFunction, reset_after_execution}

-- The loop of `getFunctionPointer` with `n` bytes left: two digits to a byte.
unfoldable pub load_bytes : ℕ → ℕ → Text → Result (List ℕ)
load_bytes zero i full = ok []
load_bytes (suc n) i full = do
  byte_str ← substr full (i * 2) 2
  byte ← stoul16 byte_str
  bytes ← load_bytes n (i + 1) full
  ok (byte % 256 ∷ bytes)

unfoldable pub get_function_pointer : Text → Result (List ℕ)
get_function_pointer full = load_bytes (length full / 2) 0 full

-- What the call of the loaded code gives: x0, and the first two bytes of the buffer.
pub record CallResult : Type 0 where
  pub ans : ℤ
  pub return_code : ℕ

pub data Outcome : Type 0 where
  returned : ℤ → Outcome
  trapped : Outcome

-- The processor is a parameter. The state is reset also when the trap is thrown.
unfoldable pub execute_wasm_instr :
    (List ℕ → CallResult) → WasmFunction → Result (Outcome × WasmFunction)
execute_wasm_instr call fn = do
  bytes ← get_function_pointer (fn.pre_instructions_for_param_loading ++ fn.wasm_instructions)
  let r = call bytes
  let fn = reset_after_execution fn
  ok (if r.return_code == 0 then (returned r.ans, fn) else (trapped, fn))
