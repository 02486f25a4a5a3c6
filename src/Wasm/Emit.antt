-- ===== src/Wasm/Emit.antt =====
-- include/Wasm/Emit.hpp: the code of each wasm instruction.
use tiny_wasm.Base.{
  ℕ, ◌+◌, ◌^◌, ◌-◌, Bool, true, false, List, [], ◌∷◌, ◌++◌, ◌==◌, ◌||◌, not, if◌then◌else◌,
}
use tiny_wasm.Base.Int.{ℤ, pos, negsuc}
use tiny_wasm.Base.Decimal.{to_string}
use tiny_wasm.Base.Result.{Result, ok, err, thrown, undefined, invalid_argument, ◌>>=◌}
use tiny_wasm.Base.Text.{Text, text, text_eq}
use tiny_wasm.Opcode.Base.{RegType, w_reg, x_reg, s_reg, d_reg, is_x, str, ldr}
use tiny_wasm.Opcode.Arithmetic.{encode_add_sub_shift, encode_mul, encode_div}
use tiny_wasm.Opcode.Branch.{encode_return}
use tiny_wasm.Opcode.Compare.{encode_compare_shift, encode_compare_imm, encode_csel}
use tiny_wasm.Opcode.Mov.{encode_movz, wrapper_encode_mov_int32, wrapper_encode_mov_int64}
use tiny_wasm.Wasm.Types.{
  WasmValue, int32, int64, float32, float64, TypeCategory, ControlFlowElement, cond_table, at,
}
use tiny_wasm.Wasm.Function.{WasmFunction, slot_or, code_at, append_instr, construct_full_instr}
use tiny_wasm.Wasm.Branch.{fake_insert_branch, insert_label}
use tiny_wasm.Wasm.Stack.{push, pop}
use tiny_wasm.Wasm.Initialize.{load_store_sp}

unfoldable pub emit_get : ℕ → TypeCategory → WasmFunction → Result WasmFunction
emit_get var_to_get vec_type fn = do
  let regtype = slot_or fn.reg_type_getter (vec_type, var_to_get) w_reg
  let stack_offset = slot_or fn.vec_to_stack (vec_type, var_to_get) 0
  load_param_instr ← load_store_sp regtype ldr 11 stack_offset
  store_to_stack_instr ← push regtype 11
  ok (construct_full_instr (load_param_instr ++ store_to_stack_instr) fn)

unfoldable pub emit_set : ℕ → TypeCategory → Bool → WasmFunction → Result WasmFunction
emit_set var_to_set vec_type is_tee fn = do
  let regtype = slot_or fn.reg_type_getter (vec_type, var_to_set) w_reg
  let stack_offset = slot_or fn.vec_to_stack (vec_type, var_to_set) 0
  load_to_reg_instr ← pop regtype is_tee 11
  reg_to_mem_instr ← load_store_sp regtype str 11 stack_offset
  ok (construct_full_instr (load_to_reg_instr ++ reg_to_mem_instr) fn)

unfoldable pub emit_const : WasmValue → WasmFunction → Result WasmFunction
emit_const (float32 v) fn = err invalid_argument
emit_const (float64 v) fn = err invalid_argument
emit_const (int32 v) fn = do
  load_to_reg_instr ← wrapper_encode_mov_int32 11 v true
  store_to_stack_instr ← push w_reg 11
  ok (construct_full_instr (load_to_reg_instr ++ store_to_stack_instr) fn)
emit_const (int64 v) fn = do
  load_to_reg_instr ← wrapper_encode_mov_int64 11 v true
  store_to_stack_instr ← push x_reg 11
  ok (construct_full_instr (load_to_reg_instr ++ store_to_stack_instr) fn)

-- The `switch` that refuses floats.
abbrev pub int_reg : RegType → Result RegType
int_reg x_reg = ok x_reg
int_reg w_reg = ok w_reg
int_reg s_reg = err (thrown "Unsupported reg type (float or double)")
int_reg d_reg = err (thrown "Unsupported reg type (float or double)")

unfoldable pub emit_compare_op : RegType → Text → WasmFunction → Result WasmFunction
emit_compare_op reg_type cond_str fn = do
  regtype ← int_reg reg_type
  fn ← append_instr (encode_movz 3 1 x_reg 0 true) fn
  fn ← append_instr (encode_movz 4 0 x_reg 0 true) fn
  load_second_param_instr ← pop regtype false 12
  load_first_param_instr ← pop regtype false 11
  let fn = construct_full_instr (load_second_param_instr ++ load_first_param_instr) fn
  fn ← append_instr (encode_compare_shift regtype 11 12 0 0 true) fn
  cond ← at cond_table cond_str
  fn ← append_instr (encode_csel x_reg 0 3 4 cond true) fn
  append_instr (push x_reg 0) fn

-- INT32_MIN and INT64_MIN.
abbrev pub int32_min : ℤ
int32_min = negsuc (2 ^ 31 - 1)

abbrev pub int64_min : ℤ
int64_min = negsuc (2 ^ 63 - 1)

-- The two tests for overflow, at the width of the register.
abbrev pub mov_int : RegType → ℤ → ℤ → Result Text
mov_int reg_type v32 v64 =
    if is_x reg_type
    then wrapper_encode_mov_int64 5 v64 true
    else wrapper_encode_mov_int32 5 v32 true

-- `case '/'`.
unfoldable pub emit_div : RegType → Bool → WasmFunction → Result WasmFunction
emit_div regtype is_signed fn = do
  fn ← append_instr (encode_compare_imm regtype 11 0 false true) fn
  let fn = fake_insert_branch (text "preparelongjmp") (text "beq") fn
  fn ← append_instr (mov_int regtype (negsuc 0) (negsuc 0)) fn
  fn ← append_instr (encode_compare_shift regtype 11 5 0 0 true) fn
  let fn = fake_insert_branch (text "normal_div") (text "bne") fn
  fn ← append_instr (mov_int regtype int32_min int64_min) fn
  fn ← append_instr (encode_compare_shift regtype 12 5 0 0 true) fn
  let fn = fake_insert_branch (text "normal_div") (text "bne") fn
  let fn = fake_insert_branch (text "preparelongjmp") (text "b") fn
  let fn = insert_label (text "normal_div") fn
  append_instr (encode_div regtype is_signed 11 12 11 true) fn

-- `typeInfo` and `opType` are the characters that the source passes.
abbrev pub arith_reg : ℕ → Result RegType
arith_reg type_info =
    if type_info == b'i' then ok w_reg else if type_info == b'l' then ok x_reg else err undefined

abbrev pub is_arith : ℕ → Bool
is_arith op_type = op_type == b'+' || op_type == b'-' || op_type == b'*' || op_type == b'/'

-- The second `switch`, behind the loading of both operands.
unfoldable pub emit_arith_body : RegType → ℕ → Bool → WasmFunction → Result WasmFunction
emit_arith_body regtype op_type is_signed fn =
    if op_type == b'+'
    then append_instr (encode_add_sub_shift false regtype 11 12 11 0 0 false true) fn
    else if op_type == b'-'
    then append_instr (encode_add_sub_shift true regtype 11 12 11 0 0 false true) fn
    else if op_type == b'*'
    then append_instr (encode_mul regtype 11 12 11 true) fn
    else emit_div regtype is_signed fn

unfoldable pub emit_arith_op : ℕ → ℕ → Bool → WasmFunction → Result WasmFunction
emit_arith_op type_info op_type is_signed fn =
    if not (is_arith op_type) then err (thrown "Unknown arithmetic operator") else do
      regtype ← arith_reg type_info
      load_second_param_instr ← pop regtype false 11
      load_first_param_instr ← pop regtype false 12
      let fn = construct_full_instr (load_second_param_instr ++ load_first_param_instr) fn
      fn ← emit_arith_body regtype op_type is_signed fn
      append_instr (push regtype 11) fn

-- The signature that the byte behind `if` stands for.
unfoldable pub if_signature : Text → Result (List WasmValue)
if_signature c =
    if text_eq c (text "7f")
    then ok (int32 (pos 0) ∷ [])
    else if text_eq c (text "7e")
    then ok (int64 (pos 0) ∷ [])
    else if text_eq c (text "7d")
    then err (thrown "return f32 after if not implemented yet")
    else if text_eq c (text "7c")
    then err (thrown "return f64 after if not implemented yet")
    else if text_eq c (text "70")
    then err (thrown "return funcref after if not implemented yet")
    else if text_eq c (text "60")
    then err (thrown "return func after if not implemented yet")
    else if text_eq c (text "40")
    then ok []
    else err (thrown "invalid byte after if")

abbrev pub push_control : Text → List WasmValue → WasmFunction → WasmFunction
push_control label signature fn = record fn {
  control_flow_stack = record { label = label; signature = signature } ∷ fn.control_flow_stack;
}

abbrev pub next_label : WasmFunction → WasmFunction
next_label fn = record fn { if_label = fn.if_label + 1 }

unfoldable pub emit_if_op : ℕ → WasmFunction → Result WasmFunction
emit_if_op i fn = do
  c ← code_at fn i
  signature ← if_signature c
  let label = text "Else/End_" ++ to_string fn.if_label
  let fn = push_control label signature (next_label fn)
  fn ← append_instr (pop w_reg true 11) fn
  fn ← append_instr (encode_compare_imm w_reg 11 0 false true) fn
  ok (fake_insert_branch label (text "beq") fn)

-- `back()` and `pop_back()`, which the source does not guard: the stack's top is its first.
abbrev pub pop_from :
    List ControlFlowElement → WasmFunction → Result (ControlFlowElement × WasmFunction)
pop_from [] fn = err undefined
pop_from (c ∷ cs) fn = ok (c, record fn { control_flow_stack = cs })

unfoldable pub pop_control : WasmFunction → Result (ControlFlowElement × WasmFunction)
pop_control fn = pop_from fn.control_flow_stack fn

unfoldable pub emit_else_op : WasmFunction → Result WasmFunction
emit_else_op fn = do
  (top, fn) ← pop_control fn
  let else_label = text "End_" ++ to_string fn.if_label
  let fn = push_control else_label top.signature (next_label fn)
  let fn = fake_insert_branch else_label (text "b") fn
  ok (insert_label top.label fn)

unfoldable pub emit_end_op : WasmFunction → Result WasmFunction
emit_end_op fn = do (top, fn) ← pop_control fn; ok (insert_label top.label fn)

unfoldable pub emit_ret : WasmFunction → Result WasmFunction
emit_ret fn = append_instr (encode_return 30 true) fn
