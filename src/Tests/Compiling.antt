-- ===== src/Tests/Compiling.antt =====
-- Runs of the compiler on small functions.
use tiny_wasm.Base.{arith, ℕ, ◌≡◌, refl, [], ◌∷◌}
use tiny_wasm.Base.Int.{pos}
use tiny_wasm.Base.Result.{Result, ok, err, Returns}
use tiny_wasm.Base.Text.{text}
use tiny_wasm.Wasm.Types.{int32, param}
use tiny_wasm.Opcode.Base.{x_reg}
use tiny_wasm.Wasm.Function.{WasmFunction, wasm_function, set_code_vec}
use tiny_wasm.Opcode.Mov.{
  encode_mov_sp, encode_mov_register, encode_movz, encode_movk, encode_movn,
  wrapper_encode_mov_int32,
}
use tiny_wasm.Wasm.Jit.{
  local_op, common_local_op, find_op, bytes_from, jit_operator, jit_const32, jit_byte, jit_step,
  jit_loop, jiting_wasm_code,
}
use tiny_wasm.Wasm.Process.{
  saved_pairs, get_set_jmp_instr, get_long_jmp_instr, main_entry_initialize, main_entry_finalize,
  wrapper_setjmp, store_return_code, runtime_prologue, generate, process_code_vec,
}
use tiny_wasm.Opcode.Base.{set_field, common_encode, encode_nop}
use tiny_wasm.Wasm.Stack.{
  allocate_vars, align, get_stack_preallocate_size, prepare_sp, push, pop, pop_result, pop_results,
  restore_sp,
}
use tiny_wasm.Wasm.Emit.{
  emit_get, emit_set, emit_const, emit_compare_op, emit_div, emit_arith_body, emit_arith_op,
  if_signature, emit_if_op, pop_control, emit_else_op, emit_end_op, emit_ret,
}
use tiny_wasm.Opcode.LoadStore.{encode_ldp_stp, encode_load_store_imm, encode_load_store_reg}
use tiny_wasm.Wasm.Branch.{
  insert_new, fake_insert_branch, insert_label, encode_fixed, fix_up_one, fix_up_all,
  fix_up_fake_branch,
}
use tiny_wasm.Utils.Parse.{hex_char_to_int, hex_value, stoul16}
use tiny_wasm.Wasm.Types.{at, index_or}
use tiny_wasm.Opcode.Arithmetic.{encode_add_sub_shift, encode_mul, encode_div, encode_add_sub_imm}
use tiny_wasm.Opcode.Branch.{
  encode_return, encode_branch, encode_branch_condition, encode_branch_register,
}
use tiny_wasm.Wasm.Function.{slot_or, append_instr}
use tiny_wasm.Opcode.Compare.{encode_compare_shift, encode_compare_imm, encode_csel}
use tiny_wasm.Utils.Hex.{hex_char, hex_pad, to_hex_string, bswap32}
use tiny_wasm.Base.Decimal.{digits, to_string}
use tiny_wasm.Wasm.Initialize.{
  store_param, init_params, init_param, store_local, init_locals, init_local, add_locals,
  declare_locals, local_var_initialize,
}
use tiny_wasm.Wasm.Types.{int64}
use tiny_wasm.Wasm.Initialize.{prepare_params, load_params, load_param}
use tiny_wasm.Wasm.Function.{append_pre_instr}
use tiny_wasm.Wasm.Execute.Run.{without_code}
use tiny_wasm.Base.{List, ◌++◌}
use tiny_wasm.Wasm.Initialize.Slots.{
  HasSlot, longs, address64, init_param-HasSlot, init_param-collision,
}
use tiny_wasm.Wasm.Execute.{CallResult, trapped, execute_wasm_instr}
use tiny_wasm.Wasm.Execute.Loading.{program_text}
use tiny_wasm.Wasm.Execute.Compiled.{execute_wasm_instr-process_code_vec}
use tiny_wasm.Wasm.Assemble.Laid.{source, IsLaid, AreLabels}
use tiny_wasm.Wasm.Assemble.Whole.{generate-IsLaid}
use tiny_wasm.Wasm.Assemble.{Item, entries}
use tiny_wasm.Wasm.Assemble.Present.{HasLabels, all_routines}
use tiny_wasm.Wasm.Assemble.Landing.{Lands}
use tiny_wasm.Base.{length, ltb, ltb→lt, ◌*◌, ◌^◌, true}
use tiny_wasm.Wasm.Assemble.Finished.{process_code_vec-Lands}

-- What a run returns, or an empty function.
abbrev state_of : Result WasmFunction → WasmFunction
state_of (ok fn) = fn
state_of (err e) = wasm_function

-- local.get 0; i32.const 1; i32.add; end.
abbrev increment : WasmFunction
increment =
    set_code_vec (text "20" ∷ text "00" ∷ text "41" ∷ text "01" ∷ text "6a" ∷ text "0b" ∷ []) 0
      (record wasm_function { param_data = int32 (pos 0) ∷ []; result_data = int32 (pos 0) ∷ [] })

increment_runs : process_code_vec increment ≡ ok (state_of (process_code_vec increment))
unfolding hex_char_to_int hex_value stoul16 hex_char hex_pad to_hex_string bswap32 digits to_string
    local_op common_local_op find_op bytes_from jit_operator jit_const32 jit_byte jit_step jit_loop
    jiting_wasm_code saved_pairs get_set_jmp_instr get_long_jmp_instr main_entry_initialize
    main_entry_finalize wrapper_setjmp store_return_code runtime_prologue generate process_code_vec
    emit_get emit_set emit_const emit_compare_op emit_div emit_arith_body emit_arith_op if_signature
    emit_if_op pop_control emit_else_op emit_end_op emit_ret insert_new fake_insert_branch
    insert_label encode_fixed fix_up_one fix_up_all fix_up_fake_branch allocate_vars align
    get_stack_preallocate_size prepare_sp push pop pop_result pop_results restore_sp slot_or
    append_instr at index_or store_param init_params init_param store_local init_locals init_local
    add_locals declare_locals local_var_initialize encode_ldp_stp encode_load_store_imm
    encode_load_store_reg encode_return encode_branch encode_branch_condition encode_branch_register
    encode_compare_shift encode_compare_imm encode_csel set_field common_encode encode_nop
    encode_mov_sp encode_mov_register encode_movz encode_movk encode_movn wrapper_encode_mov_int32
    encode_add_sub_shift encode_mul encode_div encode_add_sub_imm
increment_runs = refl

increment_short :
    ltb (length (state_of (process_code_vec increment)).wasm_instructions) (8 * 2 ^ 18) ≡ true
unfolding hex_char_to_int hex_value stoul16 hex_char hex_pad to_hex_string bswap32 digits to_string
    local_op common_local_op find_op bytes_from jit_operator jit_const32 jit_byte jit_step jit_loop
    jiting_wasm_code saved_pairs get_set_jmp_instr get_long_jmp_instr main_entry_initialize
    main_entry_finalize wrapper_setjmp store_return_code runtime_prologue generate process_code_vec
    emit_get emit_set emit_const emit_compare_op emit_div emit_arith_body emit_arith_op if_signature
    emit_if_op pop_control emit_else_op emit_end_op emit_ret insert_new fake_insert_branch
    insert_label encode_fixed fix_up_one fix_up_all fix_up_fake_branch allocate_vars align
    get_stack_preallocate_size prepare_sp push pop pop_result pop_results restore_sp slot_or
    append_instr at index_or store_param init_params init_param store_local init_locals init_local
    add_locals declare_locals local_var_initialize encode_ldp_stp encode_load_store_imm
    encode_load_store_reg encode_return encode_branch encode_branch_condition encode_branch_register
    encode_compare_shift encode_compare_imm encode_csel set_field common_encode encode_nop
    encode_mov_sp encode_mov_register encode_movz encode_movk encode_movn wrapper_encode_mov_int32
    encode_add_sub_shift encode_mul encode_div encode_add_sub_imm
increment_short = refl

process_code_vec-Lands_example :
    let done = state_of (process_code_vec increment) in
    (is : List Item) × (done.fake_insert_map ≡ entries 0 is)
    × AreLabels (length is) done.label_map
    × HasLabels done.label_map all_routines
    × Lands done.label_map 0 is done.wasm_instructions
    × (source done ≡ (increment.code_vec, []))
process_code_vec-Lands_example =
    process_code_vec-Lands increment (state_of (process_code_vec increment)) (refl, refl, refl)
      increment_runs
      (ltb→lt (length (state_of (process_code_vec increment)).wasm_instructions) (8 * 2 ^ 18)
        increment_short)

increment-IsLaid : IsLaid ((increment.code_vec, []), []) increment
increment-IsLaid = record {
  items = [];
  instrs_eq = refl;
  fakes_eq = refl;
  labels_between = tt;
  code_eq = refl;
  labels_kept = λ l v h. h;
}

generate-IsLaid_example : Returns (IsLaid ((increment.code_vec, []), [])) (generate increment)
generate-IsLaid_example = generate-IsLaid ((increment.code_vec, []), []) increment increment-IsLaid

-- Three parameters of eight bytes, as `getStackPreallocateSize` places them.
abbrev three_longs : WasmFunction
three_longs = record wasm_function {
  param_data = longs (pos 0 ∷ pos 0 ∷ pos 0 ∷ []);
  param_stack_end_location = 12;
}

three_longs_runs : init_param three_longs ≡ ok (state_of (init_param three_longs))
unfolding init_param init_params store_param append_instr encode_load_store_imm set_field
    common_encode to_hex_string hex_pad hex_char bswap32
three_longs_runs = refl

three_longs_end : 12 ≡ allocate_vars (longs (pos 0 ∷ pos 0 ∷ pos 0 ∷ [])) 0
unfolding allocate_vars
three_longs_end = refl

init_param-HasSlot_example : HasSlot (state_of (init_param three_longs)) (param, 1) 8 x_reg
init_param-HasSlot_example =
    init_param-HasSlot three_longs (state_of (init_param three_longs)) 1 (int64 (pos 0))
      three_longs_end three_longs_runs refl

init_param-collision_example :
    (a b : ℕ) × HasSlot (state_of (init_param three_longs)) (param, 0) a x_reg
    × HasSlot (state_of (init_param three_longs)) (param, 1) b x_reg
    × (address64 a ≡ address64 b)
init_param-collision_example =
    init_param-collision (pos 0 ∷ pos 0 ∷ pos 0 ∷ []) three_longs
      (state_of (init_param three_longs)) (omega arith) refl three_longs_end three_longs_runs

-- The same function with its parameters loaded.
abbrev prepared : WasmFunction
prepared = state_of (prepare_params increment)

prepare_runs : prepare_params increment ≡ ok prepared
unfolding prepare_params load_params load_param append_pre_instr wrapper_encode_mov_int32
    encode_movz encode_movk encode_mov_register set_field common_encode to_hex_string hex_pad
    hex_char bswap32
prepare_runs = refl

prepared_runs : process_code_vec prepared ≡ ok (state_of (process_code_vec prepared))
unfolding hex_char_to_int hex_value stoul16 hex_char hex_pad to_hex_string bswap32 digits to_string
    local_op common_local_op find_op bytes_from jit_operator jit_const32 jit_byte jit_step jit_loop
    jiting_wasm_code saved_pairs get_set_jmp_instr get_long_jmp_instr main_entry_initialize
    main_entry_finalize wrapper_setjmp store_return_code runtime_prologue generate process_code_vec
    emit_get emit_set emit_const emit_compare_op emit_div emit_arith_body emit_arith_op if_signature
    emit_if_op pop_control emit_else_op emit_end_op emit_ret insert_new fake_insert_branch
    insert_label encode_fixed fix_up_one fix_up_all fix_up_fake_branch allocate_vars align
    get_stack_preallocate_size prepare_sp push pop pop_result pop_results restore_sp slot_or
    append_instr at index_or store_param init_params init_param store_local init_locals init_local
    add_locals declare_locals local_var_initialize encode_ldp_stp encode_load_store_imm
    encode_load_store_reg encode_return encode_branch encode_branch_condition encode_branch_register
    encode_compare_shift encode_compare_imm encode_csel set_field common_encode encode_nop
    encode_mov_sp encode_mov_register encode_movz encode_movk encode_movn wrapper_encode_mov_int32
    encode_add_sub_shift encode_mul encode_div encode_add_sub_imm prepare_params load_params
    load_param append_pre_instr
prepared_runs = refl

-- A processor that reports a trap.
abbrev trapping : List ℕ → CallResult
trapping bytes = record { ans = pos 0; return_code = 1 }

execute_wasm_instr-process_code_vec_example :
    let done = state_of (process_code_vec prepared) in
    (ws : List ℕ) × (fn' : WasmFunction) × (done.pre_instructions_for_param_loading
        ++ done.wasm_instructions
      ≡ program_text ws)
    × (execute_wasm_instr trapping done ≡ ok (trapped, fn'))
    × (fn' ≡ without_code done)
    × (fn'.code_vec ≡ increment.code_vec)
execute_wasm_instr-process_code_vec_example =
    execute_wasm_instr-process_code_vec trapping increment prepared
      (state_of (process_code_vec prepared)) (refl, refl, refl) refl prepare_runs prepared_runs
