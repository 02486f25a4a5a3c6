-- ===== src/Wasm/Assemble/Whole.antt =====
-- `processCodeVec` as a whole: what it inserts is laid out, and the branches are then finished.
use tiny_wasm.Base.{ℕ, zero, suc, ◌+◌, ◌-◌, true, false, List, [], ◌∷◌, ◌++◌, Option, none, some}
use tiny_wasm.Base.Int.{pos, negsuc}
use tiny_wasm.Base.Result.{Returns, Returns-bind, Returns-bind_with, Returns-ok}
use tiny_wasm.Base.Text.{Text, text}
use tiny_wasm.Opcode.Base.{x_reg, str, ldr, pre_index, post_index, unsigned_offset}
use tiny_wasm.Opcode.IsWord
use tiny_wasm.Utils.Parse.{stoul16}
use tiny_wasm.Wasm.Types.{WasmValue, local, data_of_type}
use tiny_wasm.Wasm.Function.{WasmFunction, push_data, add_data, code_at}
use tiny_wasm.Wasm.Branch.{insert_label}
use tiny_wasm.Wasm.Stack.{get_stack_preallocate_size, prepare_sp, restore_sp, var_size}
use tiny_wasm.Wasm.Initialize.{
  record_param, record_local, init_params, init_param, init_locals, init_local, add_locals,
  declare_locals, local_var_initialize, next_general, next_fp,
}
use tiny_wasm.Wasm.Jit.{jiting_wasm_code}
use tiny_wasm.Wasm.Process.{
  main_entry_initialize, main_entry_finalize, wrapper_setjmp, store_return_code, runtime_prologue,
  generate,
}
use tiny_wasm.Wasm.Assemble.Laid.{
  Start, IsLaid, IsCode-append, construct_full_instr-IsLaid, insert_label-IsLaid,
}
use tiny_wasm.Wasm.Assemble.Codes.{
  add_imm-IsCode, pop_results-IsCode, store_param-IsCode, store_local-IsCode,
}
use tiny_wasm.Wasm.Assemble.Routines.{set_jmp-IsCode, long_jmp-IsCode}
use tiny_wasm.Wasm.Assemble.Emits.{
  then-IsLaid, then_text, then_word, then_code_of, done, word-IsLaid, fake, emit_ret-IsLaid,
}
use tiny_wasm.Wasm.Assemble.Loop.{jit_loop-IsLaid}

push_data-IsLaid :
    (cv : Start) (fn : WasmFunction) (o : Option WasmValue)
    → IsLaid cv fn
    → IsLaid cv (push_data local o fn)
push_data-IsLaid cv fn none laid = laid
push_data-IsLaid cv fn (some d) laid = laid

add_locals-IsLaid :
    (cv : Start) (n : ℕ) (type : Text) (fn : WasmFunction)
    → IsLaid cv fn
    → IsLaid cv (add_locals n type fn)
unfolding add_locals add_data
add_locals-IsLaid cv zero type fn laid = laid
add_locals-IsLaid cv (suc n) type fn laid =
    add_locals-IsLaid cv n type (add_data local type fn)
      (push_data-IsLaid cv fn (data_of_type type) laid)

module _ (cv : Start) where
  abbrev pub Placed : ℕ × WasmFunction → Type 0
  Placed p = IsLaid cv p.1

  pub declare_locals-IsLaid :
      (n offset : ℕ) (fn : WasmFunction)
      → IsLaid cv fn
      → Returns Placed (declare_locals n offset fn)
  unfolding declare_locals
  declare_locals-IsLaid zero offset fn laid = Returns-ok Placed (offset, fn) laid
  declare_locals-IsLaid (suc n) offset fn laid = Returns-bind Placed (code_at fn offset) _ λ d.
      Returns-bind Placed (stoul16 d) _ λ v. Returns-bind Placed (code_at fn (offset + 1)) _ λ t.
        declare_locals-IsLaid n (offset + 2) (add_locals v t fn) (add_locals-IsLaid cv v t fn laid)

  init_params-IsLaid :
      (vs : List WasmValue) (i o g f : ℕ) (fn : WasmFunction)
      → IsLaid cv fn
      → Returns (IsLaid cv) (init_params vs i o g f fn)
  unfolding init_params
  init_params-IsLaid [] i o g f fn laid = done cv fn laid
  init_params-IsLaid (v ∷ vs) i o g f fn laid =
      then_code_of cv (record_param i o v fn) _ _ laid (store_param-IsCode v g f o) λ f1 l1.
        init_params-IsLaid vs (i + 1) (o - var_size v) (next_general v g) (next_fp v f) f1 l1

  init_locals-IsLaid :
      (vs : List WasmValue) (i o : ℕ) (fn : WasmFunction)
      → IsLaid cv fn
      → Returns (IsLaid cv) (init_locals vs i o fn)
  unfolding init_locals
  init_locals-IsLaid [] i o fn laid = done cv fn laid
  init_locals-IsLaid (v ∷ vs) i o fn laid =
      then_code_of cv (record_local i o v fn) _ _ laid (store_local-IsCode v o)
        λ f1 l1. init_locals-IsLaid vs (i + 1) (o - var_size v) f1 l1

  module _ (fn : WasmFunction) (laid : IsLaid cv fn) where
    prepare_sp-IsLaid : Returns (IsLaid cv) (prepare_sp fn)
    unfolding prepare_sp
    prepare_sp-IsLaid =
        then_text cv _ _ (add_imm-IsCode x_reg true 31 31 _ 0 false false true)
          λ t h. done cv _ (construct_full_instr-IsLaid cv fn laid t h)

    restore_sp-IsLaid : Returns (IsLaid cv) (restore_sp fn)
    unfolding restore_sp
    restore_sp-IsLaid = then_text cv _ _ (pop_results-IsCode fn.result_data 0) λ s hs.
        then_text cv _ _ (add_imm-IsCode x_reg false 31 31 _ 0 false false true) λ t ht.
          done cv _ (construct_full_instr-IsLaid cv fn laid (s ++ t) (IsCode-append s t hs ht))

    pub store_return_code-IsLaid : (c : ℕ) → Returns (IsLaid cv) (store_return_code c fn)
    unfolding store_return_code
    store_return_code-IsLaid c =
        then_word cv fn _ _ laid (IsWord.encode_movz-IsWord 11 c x_reg 0 true) λ f1 l1.
          word-IsLaid cv f1 l1 _
            (IsWord.encode_load_store_imm-IsWord x_reg str 11 19 (pos 0) unsigned_offset true)

    pub wrapper_setjmp-IsLaid : Returns (IsLaid cv) (wrapper_setjmp fn)
    unfolding wrapper_setjmp
    wrapper_setjmp-IsLaid =
        then_word cv fn _ _ laid
          (IsWord.encode_ldp_stp-IsWord x_reg str 29 30 31 (negsuc 31) pre_index true)
          λ f1 l1.
            then_word cv f1 _ _ l1 (IsWord.encode_mov_register-IsWord x_reg 0 19 true) λ f2 l2.
              then_word cv _ _ _ (fake cv _ _ _ l2)
                (IsWord.encode_compare_imm-IsWord x_reg 0 0 false true)
                λ f3 l3.
                  word-IsLaid cv _ (fake cv f3 _ _ l3) _
                    (IsWord.encode_ldp_stp-IsWord x_reg ldr 29 30 31 (pos 32) post_index true)

  pub main_entry_finalize-IsLaid :
      (fn : WasmFunction) → IsLaid cv fn → Returns (IsLaid cv) (main_entry_finalize fn)
  unfolding main_entry_finalize
  main_entry_finalize-IsLaid fn laid =
      then-IsLaid cv _ _ (restore_sp-IsLaid fn laid) λ f1 l1. emit_ret-IsLaid cv f1 l1

  pub main_entry_initialize-IsLaid :
      (fn : WasmFunction) → IsLaid cv fn → Returns (IsLaid cv) (main_entry_initialize fn)
  unfolding main_entry_initialize init_param init_local get_stack_preallocate_size
  main_entry_initialize-IsLaid fn laid =
      then-IsLaid cv _ _ (prepare_sp-IsLaid (get_stack_preallocate_size fn) laid) λ f1 l1.
        then-IsLaid cv _ _
          (init_params-IsLaid f1.param_data 0 f1.param_stack_end_location 0 0 f1 l1)
          λ f2 l2. init_locals-IsLaid f2.local_data 0 f2.local_stack_end_location f2 l2

  label : (fn : WasmFunction) (l : Text) → IsLaid cv fn → IsLaid cv (insert_label l fn)
  label fn l laid = insert_label-IsLaid cv fn laid l

  pub runtime_prologue-IsLaid :
      (fn : WasmFunction) → IsLaid cv fn → Returns (IsLaid cv) (runtime_prologue fn)
  unfolding runtime_prologue
  runtime_prologue-IsLaid fn laid =
      then_code_of cv _ _ _ (label _ _ (fake cv fn _ _ laid)) set_jmp-IsCode λ f1 l1.
        then_word cv _ _ _ (label f1 _ l1) (IsWord.encode_mov_register-IsWord x_reg 14 30 true)
          λ f2 l2. then_word cv f2 _ _ l2 (IsWord.encode_mov_sp-IsWord x_reg 15 31 true) λ f3 l3.
            then_word cv f3 _ _ l3 (IsWord.encode_mov_register-IsWord x_reg 0 19 true) λ f4 l4.
              then_code_of cv _ _ _ (label _ _ (fake cv f4 _ _ l4)) long_jmp-IsCode λ f5 l5.
                then_word cv _ _ _ (label f5 _ l5)
                  (IsWord.encode_mov_register-IsWord x_reg 30 14 true)
                  λ f6 l6.
                    then_word cv f6 _ _ l6 (IsWord.encode_mov_sp-IsWord x_reg 31 15 true) λ f7 l7.
                      then-IsLaid cv _ _ (store_return_code-IsLaid f7 l7 1)
                        λ f8 l8. done cv _ (fake cv f8 _ _ l8)

  -- On a function whose text is laid out, whatever `generate` returns is laid out: the text is a list
  -- of instructions, the recorded branches are exactly its open ones, the labels stand between
  -- instructions, and the wasm code and the loading of the parameters are unchanged.
  pub generate-IsLaid : (fn : WasmFunction) → IsLaid cv fn → Returns (IsLaid cv) (generate fn)
  unfolding generate local_var_initialize jiting_wasm_code
  generate-IsLaid fn laid =
      Returns-bind_with (IsLaid cv) Placed _ _
        (declare_locals-IsLaid fn.local_var_declare_count 0 fn laid)
        λ p l0. then-IsLaid cv _ _ (runtime_prologue-IsLaid p.1 l0) λ f1 l1.
          then-IsLaid cv _ _ (main_entry_initialize-IsLaid _ (label f1 (text "entry") l1)) λ f2 l2.
            then-IsLaid cv _ _ (wrapper_setjmp-IsLaid f2 l2) λ f3 l3.
              then-IsLaid cv _ _ (jit_loop-IsLaid cv _ p.0 _ l3) λ f4 l4.
                then-IsLaid cv _ _ (store_return_code-IsLaid f4 l4 0)
                  λ f5 l5. main_entry_finalize-IsLaid _ (label f5 (text "finalize") l5)
