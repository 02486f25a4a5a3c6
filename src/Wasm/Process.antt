-- ===== src/Wasm/Process.antt =====
-- include/Wasm/WasmFunction.hpp: `processCodeVec`, with the routines of
-- include/Wasm/CommonHeader.hpp that it puts in front of the function's own code.
use tiny_wasm.Base.{ℕ, true, false, ◌++◌}
use tiny_wasm.Base.Int.{pos, negsuc}
use tiny_wasm.Base.Result.{Result, ok, ◌>>=◌}
use tiny_wasm.Base.Text.{Text, text}
use tiny_wasm.Opcode.Base.{
  w_reg, x_reg, LdStType, str, ldr, signed_offset, pre_index, post_index, unsigned_offset,
}
use tiny_wasm.Opcode.Branch.{encode_return, encode_branch_register}
use tiny_wasm.Opcode.Compare.{encode_compare_imm, encode_csel}
use tiny_wasm.Opcode.LoadStore.{encode_ldp_stp, encode_load_store_imm}
use tiny_wasm.Opcode.Mov.{encode_mov_sp, encode_mov_register, encode_movz}
use tiny_wasm.Wasm.Types.{cond_table, at}
use tiny_wasm.Wasm.Function.{WasmFunction, append_instr}
use tiny_wasm.Wasm.Branch.{fake_insert_branch, insert_label, fix_up_fake_branch}
use tiny_wasm.Wasm.Stack.{reg_buffer, get_stack_preallocate_size, prepare_sp, restore_sp}
use tiny_wasm.Wasm.Initialize.{init_param, init_local, local_var_initialize}
use tiny_wasm.Wasm.Emit.{emit_ret}
use tiny_wasm.Wasm.Jit.{jiting_wasm_code}

-- A pair of registers at an offset from x0.
abbrev pub pair_at : LdStType → ℕ → ℕ → ℕ → Result Text
pair_at t rt rt2 offset = encode_ldp_stp x_reg t rt rt2 0 (pos offset) signed_offset true

-- The six pairs x19 to x30.
unfoldable pub saved_pairs : LdStType → Result Text
saved_pairs t = do
  a ← pair_at t 19 20 0
  b ← pair_at t 21 22 16
  c ← pair_at t 23 24 32
  d ← pair_at t 25 26 48
  e ← pair_at t 27 28 64
  f ← pair_at t 29 30 80
  ok (a ++ (b ++ (c ++ (d ++ (e ++ f)))))

unfoldable pub get_set_jmp_instr : Result Text
get_set_jmp_instr = do
  pairs ← saved_pairs str
  sp ← encode_mov_sp x_reg 2 31 true
  save ← encode_load_store_imm x_reg str 2 0 (pos 104) unsigned_offset true
  zero ← encode_movz 0 0 w_reg 0 true
  ret ← encode_return 30 true
  ok (pairs ++ (sp ++ (save ++ (zero ++ ret))))

unfoldable pub get_long_jmp_instr : Result Text
get_long_jmp_instr = do
  pairs ← saved_pairs ldr
  load ← encode_load_store_imm x_reg ldr 5 0 (pos 104) unsigned_offset true
  sp ← encode_mov_sp x_reg 31 5 true
  cmp ← encode_compare_imm x_reg 1 0 false true
  one ← encode_movz 0 1 x_reg 0 true
  ne ← at cond_table (text "ne")
  sel ← encode_csel x_reg 0 1 0 ne true
  br ← encode_branch_register 30 false true
  ok (pairs ++ (load ++ (sp ++ (cmp ++ (one ++ (sel ++ br))))))

unfoldable pub main_entry_initialize : WasmFunction → Result WasmFunction
main_entry_initialize fn = do
  let fn = get_stack_preallocate_size fn
  fn ← prepare_sp fn
  fn ← init_param fn
  init_local fn

unfoldable pub main_entry_finalize : WasmFunction → Result WasmFunction
main_entry_finalize fn = do fn ← restore_sp fn; emit_ret fn

unfoldable pub wrapper_setjmp : WasmFunction → Result WasmFunction
wrapper_setjmp fn = do
  fn ← append_instr (encode_ldp_stp x_reg str 29 30 31 (negsuc 31) pre_index true) fn
  fn ← append_instr (encode_mov_register x_reg 0 reg_buffer true) fn
  let fn = fake_insert_branch (text "setjmp") (text "bl") fn
  fn ← append_instr (encode_compare_imm x_reg 0 0 false true) fn
  let fn = fake_insert_branch (text "raiseException") (text "bne") fn
  append_instr (encode_ldp_stp x_reg ldr 29 30 31 (pos 32) post_index true) fn

-- `[x19] = x11 = code`.
unfoldable pub store_return_code : ℕ → WasmFunction → Result WasmFunction
store_return_code code fn = do
  fn ← append_instr (encode_movz 11 code x_reg 0 true) fn
  append_instr (encode_load_store_imm x_reg str 11 reg_buffer (pos 0) unsigned_offset true) fn

-- The part of `processCodeVec` before `insertLabel("entry")`.
unfoldable pub runtime_prologue : WasmFunction → Result WasmFunction
runtime_prologue fn = do
  let fn = fake_insert_branch (text "entry") (text "b") fn
  let fn = insert_label (text "setjmp") fn
  fn ← append_instr get_set_jmp_instr fn
  let fn = insert_label (text "preparelongjmp") fn
  fn ← append_instr (encode_mov_register x_reg 14 30 true) fn
  fn ← append_instr (encode_mov_sp x_reg 15 31 true) fn
  fn ← append_instr (encode_mov_register x_reg 0 reg_buffer true) fn
  let fn = fake_insert_branch (text "longjmp") (text "b") fn
  let fn = insert_label (text "longjmp") fn
  fn ← append_instr get_long_jmp_instr fn
  let fn = insert_label (text "raiseException") fn
  fn ← append_instr (encode_mov_register x_reg 30 14 true) fn
  fn ← append_instr (encode_mov_sp x_reg 31 15 true) fn
  fn ← store_return_code 1 fn
  ok (fake_insert_branch (text "finalize") (text "b") fn)

-- Everything that `processCodeVec` inserts before the branches are fixed up.
unfoldable pub generate : WasmFunction → Result WasmFunction
generate fn = do
  (offset, fn) ← local_var_initialize 0 fn
  fn ← runtime_prologue fn
  let fn = insert_label (text "entry") fn
  fn ← main_entry_initialize fn
  fn ← wrapper_setjmp fn
  fn ← jiting_wasm_code offset fn
  fn ← store_return_code 0 fn
  let fn = insert_label (text "finalize") fn
  main_entry_finalize fn

unfoldable pub process_code_vec : WasmFunction → Result WasmFunction
process_code_vec fn = do fn ← generate fn; fix_up_fake_branch fn
