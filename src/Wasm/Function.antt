-- ===== src/Wasm/Function.antt =====
-- include/Wasm/WasmFunction.hpp: the state of one function under compilation, and the primitive
-- updates of its instruction text. `fake_insert_map` is kept in the order of insertion; the
-- library's table visits it in an order of its own. The fields wasm_stack_start_location,
-- wasm_stack_end_location and operations_map are read by nothing.
use tiny_wasm.Base.{
  ℕ, List, [], ◌∷◌, ◌++◌, ◌&&◌, ◌==◌, if◌then◌else◌, Option, none, some, get_elem?,
}
use tiny_wasm.Base.Result.{Result, ok, or_undefined, ◌>>=◌}
use tiny_wasm.Base.Text.{Text}
use tiny_wasm.Opcode.Base.{RegType}
use tiny_wasm.Wasm.Types.{
  WasmValue, TypeCategory, param, result, local, category_eq, ControlFlowElement, data_of_type,
}

abbrev pub Slot : Type 0
Slot = TypeCategory × ℕ

pub record WasmFunction : Type 0 where
  pub stack_size : ℕ
  pub param_stack_start_location : ℕ
  pub param_stack_end_location : ℕ
  pub local_stack_start_location : ℕ
  pub local_stack_end_location : ℕ
  pub if_label : ℕ
  pub type : ℕ
  pub local_var_declare_count : ℕ
  pub wasm_instructions : Text
  pub pre_instructions_for_param_loading : Text
  pub code_vec : List Text
  pub local_data : List WasmValue
  pub param_data : List WasmValue
  pub result_data : List WasmValue
  pub control_flow_stack : List ControlFlowElement
  pub vec_to_stack : List (Slot × ℕ)
  pub reg_type_getter : List (Slot × RegType)
  pub stack_to_vec : List (ℕ × Slot)
  pub fake_insert_map : List (Text × (ℕ × Text))
  pub label_map : List (Text × ℕ)

-- The default constructor. `type` has no initial value in the source.
abbrev pub wasm_function : WasmFunction
wasm_function = record {
  stack_size = 0;
  param_stack_start_location = 0;
  param_stack_end_location = 0;
  local_stack_start_location = 0;
  local_stack_end_location = 0;
  if_label = 0;
  type = 0;
  local_var_declare_count = 0;
  wasm_instructions = [];
  pre_instructions_for_param_loading = [];
  code_vec = [];
  local_data = [];
  param_data = [];
  result_data = [];
  control_flow_stack = [];
  vec_to_stack = [];
  reg_type_getter = [];
  stack_to_vec = [];
  fake_insert_map = [];
  label_map = [];
}

-- `map[{category, i}]` for a table to which a later write puts its entry in front.
unfoldable pub slot_or {ℓ} : {A : Type ℓ} → List (Slot × A) → Slot → A → A
slot_or [] s d = d
slot_or (((c, i), a) ∷ m) s d = if category_eq c s.0 && i == s.1 then a else slot_or m s d

-- `code_vec[i]`, which the source does not check.
abbrev pub code_at : WasmFunction → ℕ → Result Text
code_at fn i = or_undefined (get_elem? fn.code_vec i)

abbrev pub push_data : TypeCategory → Option WasmValue → WasmFunction → WasmFunction
push_data param none fn = fn
push_data result none fn = fn
push_data local none fn = fn
push_data param (some d) fn = record fn { param_data = fn.param_data ++ d ∷ [] }
push_data result (some d) fn = record fn { result_data = fn.result_data ++ d ∷ [] }
push_data local (some d) fn = record fn { local_data = fn.local_data ++ d ∷ [] }

-- `add_data`.
unfoldable pub add_data : TypeCategory → Text → WasmFunction → WasmFunction
unfolding data_of_type
add_data category type fn = push_data category (data_of_type type) fn

-- `set_code_vec`.
abbrev pub set_code_vec : List Text → ℕ → WasmFunction → WasmFunction
set_code_vec v l fn = record fn { code_vec = v; local_var_declare_count = l }

-- `constructFullinstr`.
abbrev pub construct_full_instr : Text → WasmFunction → WasmFunction
construct_full_instr sub_instr fn = record fn {
  wasm_instructions = fn.wasm_instructions ++ sub_instr;
}

-- `wasm_instructions += e`, where `e` may throw.
unfoldable pub append_instr : Result Text → WasmFunction → Result WasmFunction
append_instr e fn = do t ← e; ok (construct_full_instr t fn)

-- `pre_instructions_for_param_loading += e`.
unfoldable pub append_pre_instr : Result Text → WasmFunction → Result WasmFunction
append_pre_instr e fn = do
  t ← e
  ok (record fn { pre_instructions_for_param_loading = fn.pre_instructions_for_param_loading ++ t })

-- `resetAfterExecution`.
abbrev pub reset_after_execution : WasmFunction → WasmFunction
reset_after_execution fn = record fn {
  pre_instructions_for_param_loading = [];
  wasm_instructions = [];
  fake_insert_map = [];
  label_map = [];
}
