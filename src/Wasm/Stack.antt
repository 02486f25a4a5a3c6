-- ===== src/Wasm/Stack.antt =====
-- include/Wasm/Stack.hpp: the frame of the emitted function and the wasm stack beside it.
pub mod Frame
use tiny_wasm.Base.{
  ℕ, ◌+◌, ◌*◌, ◌/◌, ◌%◌, ◌^◌, Bool, true, false, List, [], ◌∷◌, ◌++◌, ◌==◌, if◌then◌else◌,
}
use tiny_wasm.Base.Result.{Result, ok, err, invalid_argument, ◌>>=◌}
use tiny_wasm.Base.Text.{Text}
use tiny_wasm.Opcode.Base.{RegType, w_reg, x_reg, str, ldr}
use tiny_wasm.Opcode.Arithmetic.{encode_add_sub_imm}
use tiny_wasm.Opcode.LoadStore.{encode_load_store_reg}
use tiny_wasm.Wasm.Types.{WasmValue, int32, int64, float32, float64}
use tiny_wasm.Wasm.Function.{WasmFunction, construct_full_instr}

-- The registers that hold the buffer, the wasm stack and its pointer.
abbrev pub reg_buffer : ℕ
reg_buffer = 19

abbrev pub reg_wasm_stack : ℕ
reg_wasm_stack = 20

abbrev pub reg_pointer_wasm_stack : ℕ
reg_pointer_wasm_stack = 21

-- The step of `allocateVar`, also taken down again by `initParam` and `initLocal`.
abbrev pub var_size : WasmValue → ℕ
var_size (float32 v) = 4
var_size (float64 v) = 8
var_size (int64 v) = 4
var_size (int32 v) = 4

abbrev pub allocate_var : WasmValue → ℕ → ℕ
allocate_var elem stack_location = stack_location + var_size elem

unfoldable pub allocate_vars : List WasmValue → ℕ → ℕ
allocate_vars [] stack_location = stack_location
allocate_vars (c ∷ cs) stack_location = allocate_vars cs (allocate_var c stack_location)

-- Up to the next multiple of sixteen.
unfoldable pub align : ℕ → ℕ
align n = if n % 16 == 0 then n else 16 * (n / 16 + 1)

unfoldable pub get_stack_preallocate_size : WasmFunction → WasmFunction
get_stack_preallocate_size fn =
    let param_end = allocate_vars fn.param_data 0 in
    let local_start = param_end + 8 in
    let local_end = allocate_vars fn.local_data local_start in
    record fn {
      param_stack_start_location = 0;
      param_stack_end_location = param_end;
      local_stack_start_location = local_start;
      local_stack_end_location = local_end;
      stack_size = align local_end;
    }

-- `stack_size` is passed as a `uint16_t`.
unfoldable pub prepare_sp : WasmFunction → Result WasmFunction
prepare_sp fn = do
  instr ← encode_add_sub_imm x_reg true 31 31 (fn.stack_size % 2 ^ 16) 0 false false true
  ok (construct_full_instr instr fn)

-- `push`: store save_reg on the wasm stack, and step its pointer up.
unfoldable pub push : RegType → ℕ → Result Text
push reg_type save_reg = do
  store ←
      encode_load_store_reg reg_type str save_reg reg_wasm_stack reg_pointer_wasm_stack 0b011 true
  up ←
      encode_add_sub_imm x_reg false reg_pointer_wasm_stack reg_pointer_wasm_stack 8 0 false false
        true
  ok (store ++ up)

-- `pop`: step the pointer down and load save_reg; a tee steps it up again.
unfoldable pub pop : RegType → Bool → ℕ → Result Text
pop reg_type tee save_reg = do
  down ←
      encode_add_sub_imm x_reg true reg_pointer_wasm_stack reg_pointer_wasm_stack 8 0 false false
        true
  load ←
      encode_load_store_reg reg_type ldr save_reg reg_wasm_stack reg_pointer_wasm_stack 0b011 true
  up ←
      if tee
      then encode_add_sub_imm x_reg false reg_pointer_wasm_stack reg_pointer_wasm_stack 8 0 false
          false true
      else ok []
  ok (down ++ (load ++ up))

-- One result: the value on top goes to the register of the result's number, a `uint8_t`.
unfoldable pub pop_result : WasmValue → ℕ → Result Text
pop_result (float32 v) i = err invalid_argument
pop_result (float64 v) i = err invalid_argument
pop_result (int64 v) i = pop x_reg false (i % 256)
pop_result (int32 v) i = pop w_reg false (i % 256)

-- The loop of `restoreSP` over the results.
unfoldable pub pop_results : List WasmValue → ℕ → Result Text
pop_results [] i = ok []
pop_results (v ∷ vs) i = do t ← pop_result v i; ts ← pop_results vs (i + 1); ok (t ++ ts)

unfoldable pub restore_sp : WasmFunction → Result WasmFunction
restore_sp fn = do
  prepare_ans_instr ← pop_results fn.result_data 0
  restore_sp_instr ←
      encode_add_sub_imm x_reg false 31 31 (fn.stack_size % 2 ^ 16) 0 false false true
  ok (construct_full_instr (prepare_ans_instr ++ restore_sp_instr) fn)
