-- ===== src/Wasm/Initialize.antt =====
-- include/Wasm/Initialize.hpp, and the loading of parameters and the declared locals of
-- include/Wasm/WasmFunction.hpp.
pub mod Slots
use tiny_wasm.Base.{ℕ, zero, suc, ◌+◌, ◌-◌, ◌*◌, ◌%◌, ◌^◌, Bool, true, false, List, [], ◌∷◌, ◌++◌}
use tiny_wasm.Base.Int.{ℤ, signed}
use tiny_wasm.Base.Result.{Result, ok, err, invalid_argument, ◌>>=◌}
use tiny_wasm.Base.Text.{Text}
use tiny_wasm.Opcode.Base.{RegType, w_reg, x_reg, s_reg, d_reg, str, ldr, unsigned_offset, LdStType}
use tiny_wasm.Opcode.LoadStore.{encode_load_store_imm}
use tiny_wasm.Opcode.Mov.{
  encode_mov_register, encode_movz, wrapper_encode_mov_int32, wrapper_encode_mov_int64,
}
use tiny_wasm.Utils.Parse.{stoul16}
use tiny_wasm.Wasm.Types.{WasmValue, int32, int64, float32, float64, param, local, get_wasm_type}
use tiny_wasm.Wasm.Function.{WasmFunction, append_instr, append_pre_instr, add_data, code_at}
use tiny_wasm.Wasm.Stack.{reg_buffer, reg_wasm_stack, reg_pointer_wasm_stack, var_size}

-- An `int` passed as the `int16_t` offset of a load or store.
abbrev pub int16 : ℕ → ℤ
int16 n = signed 16 (n % 2 ^ 16)

-- A load or store relative to the stack pointer, in the default mode.
abbrev pub load_store_sp : RegType → LdStType → ℕ → ℕ → Result Text
load_store_sp r t rt offset = encode_load_store_imm r t rt 31 (int16 offset) unsigned_offset true

-- The store of one parameter: a float comes in the next floating-point register.
unfoldable pub store_param : WasmValue → ℕ → ℕ → ℕ → Result Text
store_param (float32 v) general fp offset = load_store_sp s_reg str (fp % 256) offset
store_param (float64 v) general fp offset = load_store_sp d_reg str (fp % 256) offset
store_param (int64 v) general fp offset = load_store_sp x_reg str (general % 256) offset
store_param (int32 v) general fp offset = load_store_sp w_reg str (general % 256) offset

abbrev pub next_general : WasmValue → ℕ → ℕ
next_general (int32 v) n = n + 1
next_general (int64 v) n = n + 1
next_general (float32 v) n = n
next_general (float64 v) n = n

abbrev pub next_fp : WasmValue → ℕ → ℕ
next_fp (int32 v) n = n
next_fp (int64 v) n = n
next_fp (float32 v) n = n + 1
next_fp (float64 v) n = n + 1

-- The three tables get the slot of parameter `i`.
abbrev pub record_param : ℕ → ℕ → WasmValue → WasmFunction → WasmFunction
record_param i offset v fn = record fn {
  vec_to_stack = ((param, i), offset) ∷ fn.vec_to_stack;
  reg_type_getter = ((param, i), get_wasm_type v) ∷ fn.reg_type_getter;
  stack_to_vec = (offset, (param, i)) ∷ fn.stack_to_vec;
}

-- The loop of `initParam`: the values that are left, the index, the offset and the registers used. The
-- offset is an `int` of the source; it starts at the sum of the sizes, which `main_entry_initialize` puts
-- there before, so that it does not come below 0.
unfoldable pub init_params : List WasmValue → ℕ → ℕ → ℕ → ℕ → WasmFunction → Result WasmFunction
init_params [] i offset general fp fn = ok fn
init_params (v ∷ vs) i offset general fp fn = do
  fn ← append_instr (store_param v general fp offset) (record_param i offset v fn)
  init_params vs (i + 1) (offset - var_size v) (next_general v general) (next_fp v fp) fn

unfoldable pub init_param : WasmFunction → Result WasmFunction
init_param fn = init_params fn.param_data 0 fn.param_stack_end_location 0 0 fn

abbrev pub record_local : ℕ → ℕ → WasmValue → WasmFunction → WasmFunction
record_local i offset v fn = record fn {
  vec_to_stack = ((local, i), offset) ∷ fn.vec_to_stack;
  reg_type_getter = ((local, i), get_wasm_type v) ∷ fn.reg_type_getter;
  stack_to_vec = (offset, (local, i)) ∷ fn.stack_to_vec;
}

-- Zeros are stored: register 31 is the zero register there.
unfoldable pub store_local : WasmValue → ℕ → Result Text
store_local (float32 v) offset = load_store_sp w_reg str 31 offset
store_local (float64 v) offset = load_store_sp x_reg str 31 offset
store_local (int64 v) offset = load_store_sp x_reg str 31 offset
store_local (int32 v) offset = load_store_sp w_reg str 31 offset

unfoldable pub init_locals : List WasmValue → ℕ → ℕ → WasmFunction → Result WasmFunction
init_locals [] i offset fn = ok fn
init_locals (v ∷ vs) i offset fn = do
  fn ← append_instr (store_local v offset) (record_local i offset v fn)
  init_locals vs (i + 1) (offset - var_size v) fn

unfoldable pub init_local : WasmFunction → Result WasmFunction
init_local fn = init_locals fn.local_data 0 fn.local_stack_end_location fn

-- The inner loop of `local_var_initialize`.
unfoldable pub add_locals : ℕ → Text → WasmFunction → WasmFunction
add_locals zero type fn = fn
add_locals (suc n) type fn = add_locals n type (add_data local type fn)

-- The outer loop, with the declarations that are left; it returns the offset of the code.
unfoldable pub declare_locals : ℕ → ℕ → WasmFunction → Result (ℕ × WasmFunction)
declare_locals zero offset fn = ok (offset, fn)
declare_locals (suc n) offset fn = do
  digits ← code_at fn offset
  var_count ← stoul16 digits
  type ← code_at fn (offset + 1)
  declare_locals n (offset + 2) (add_locals var_count type fn)

unfoldable pub local_var_initialize : ℕ → WasmFunction → Result (ℕ × WasmFunction)
local_var_initialize offset fn = declare_locals fn.local_var_declare_count offset fn

-- The register of parameter `i` is passed as a `uint8_t`.
unfoldable pub load_param : WasmValue → ℕ → Result Text
load_param (float32 v) i = err invalid_argument
load_param (float64 v) i = err invalid_argument
load_param (int64 v) i = wrapper_encode_mov_int64 (i % 256) v true
load_param (int32 v) i = wrapper_encode_mov_int32 (i % 256) v true

unfoldable pub load_params : List WasmValue → ℕ → WasmFunction → Result WasmFunction
load_params [] i fn = ok fn
load_params (v ∷ vs) i fn = do fn ← append_pre_instr (load_param v i) fn; load_params vs (i + 1) fn

unfoldable pub prepare_params : WasmFunction → Result WasmFunction
prepare_params fn = do
  fn ← append_pre_instr (encode_mov_register x_reg reg_buffer 0 true) fn
  fn ← append_pre_instr (encode_mov_register x_reg reg_wasm_stack 1 true) fn
  fn ← append_pre_instr (encode_movz reg_pointer_wasm_stack 0 x_reg 0 true) fn
  load_params fn.param_data 0 fn
