-- ===== src/Wasm/Statements/Prologue/Entry.antt =====
-- The code and the tables of the whole of `main_entry_initialize`.
use tiny_wasm.Base.{
  ℕ, zero, suc, ◌+◌, ◌-◌, ◌*◌, ◌%◌, ◌^◌, ◌≤◌, ◌<◌, ◌≡◌, refl, ap, ◌∙◌, true, List, [], ◌∷◌, ◌++◌,
  length, arith,
}
use tiny_wasm.Base.Int.{ℤ}
use tiny_wasm.Base.Result.{ok, ◌>>=◌}
use tiny_wasm.A64.{Instruction, add_sub_sp}
use tiny_wasm.A64.Code.{add_sub_sp-Gives}
use tiny_wasm.Wasm.Types.{TypeCategory, param, local}
use tiny_wasm.Wasm.Function.{WasmFunction}
use tiny_wasm.Wasm.Stack.{align, allocate_vars, get_stack_preallocate_size, prepare_sp}
use tiny_wasm.Wasm.Initialize.{init_params, init_param, init_locals, init_local}
use tiny_wasm.Wasm.Process.{main_entry_initialize}
use tiny_wasm.Wasm.Operands.Emitted.{with_code}
use tiny_wasm.Wasm.Statements.Prologue.{ints, end_of, allocate_vars-ints}
use tiny_wasm.Wasm.Statements.Prologue.Code.{
  param_code, local_code, record_slot, record_slots, slots_behind, init_params-code,
  init_locals-code,
}

-- The code of the whole of `main_entry_initialize`, and the tables that it leaves.
abbrev pub entry_code : ℕ → ℕ → List Instruction
entry_code n m =
    add_sub_sp true (align (end_of n m)) ∷ (param_code n 0 (4 * n) ++ local_code m (end_of n m))

abbrev pub entry_tables : ℕ → ℕ → WasmFunction → WasmFunction
entry_tables n m fn =
    record_slots local m 0 (end_of n m)
      (record_slots param n 0 (4 * n) (get_stack_preallocate_size fn))

record_slots-data :
    (c : TypeCategory) (n i o : ℕ) (fn : WasmFunction)
    → let g = record_slots c n i o fn in
      (g.local_data ≡ fn.local_data)
      × (g.param_data ≡ fn.param_data)
      × (g.code_vec ≡ fn.code_vec)
      × (g.local_stack_end_location ≡ fn.local_stack_end_location)
      × (g.wasm_instructions ≡ fn.wasm_instructions)
      × (g.stack_size ≡ fn.stack_size)
record_slots-data c zero i o fn = (refl, refl, refl, refl, refl, refl)
record_slots-data c (suc n) i o fn = record_slots-data c n (i + 1) (o - 4) (record_slot c i o fn)

-- The numbers of the frame.
pub frame_numbers :
    (fn : WasmFunction) (ps ls : List ℤ)
    → fn.param_data ≡ ints ps
    → fn.local_data ≡ ints ls
    → let g = get_stack_preallocate_size fn in
      (g.param_stack_end_location ≡ 4 * length ps)
      × (g.local_stack_end_location ≡ end_of (length ps) (length ls))
      × (g.stack_size ≡ align (end_of (length ps) (length ls)))
unfolding get_stack_preallocate_size
frame_numbers fn ps ls params locals =
    let end : allocate_vars fn.param_data 0 ≡ 4 * length ps =
      ap (λ vs. allocate_vars vs 0) params ∙ (allocate_vars-ints ps 0 ∙ omega arith) in
    let last : allocate_vars fn.local_data (allocate_vars fn.param_data 0 + 8)
        ≡ end_of (length ps) (length ls) =
      (λ i. allocate_vars (locals i) (end i + 8)) ∙ allocate_vars-ints ls (4 * length ps + 8) in
    (end, last, ap align last)

frame_data :
    (fn : WasmFunction)
    → let g = get_stack_preallocate_size fn in
      (g.param_data ≡ fn.param_data)
      × (g.local_data ≡ fn.local_data)
      × (g.code_vec ≡ fn.code_vec)
      × (g.wasm_instructions ≡ fn.wasm_instructions)
unfolding get_stack_preallocate_size
frame_data fn = (refl, refl, refl, refl)

prepare_sp-code :
    (fn : WasmFunction) (size : ℕ)
    → fn.stack_size ≡ size
    → size < 4096
    → prepare_sp fn ≡ ok (with_code (add_sub_sp true size ∷ []) fn)
unfolding prepare_sp
prepare_sp-code fn size e small =
    let same : fn.stack_size % 2 ^ 16 ≡ size = omega arith in
    rw (same, add_sub_sp-Gives true size small) refl

init_param-code :
    (fn : WasmFunction) (ps : List ℤ)
    → fn.param_data ≡ ints ps
    → fn.param_stack_end_location ≡ 4 * length ps
    → length ps ≤ 31
    → init_param fn
      ≡ ok (
          with_code
            (param_code (length ps) 0 (4 * length ps))
            (record_slots param (length ps) 0 (4 * length ps) fn))
unfolding init_param
init_param-code fn ps params end few =
    (λ i. init_params (params i) 0 (end i) 0 0 fn)
    ∙ init_params-code ps 0 (4 * length ps) 0 0 fn (omega arith) (omega arith)

init_local-code :
    (fn : WasmFunction) (ls : List ℤ) (e : ℕ)
    → fn.local_data ≡ ints ls
    → fn.local_stack_end_location ≡ e
    → e < 16384
    → init_local fn
      ≡ ok (with_code (local_code (length ls) e) (record_slots local (length ls) 0 e fn))
unfolding init_local
init_local-code fn ls e locals end near =
    (λ i. init_locals (locals i) 0 (end i) fn) ∙ init_locals-code ls 0 e fn near

pub main_entry_initialize-code :
    (fn : WasmFunction) (ps ls : List ℤ)
    → fn.param_data ≡ ints ps
    → fn.local_data ≡ ints ls
    → length ps ≤ 31
    → align (end_of (length ps) (length ls)) < 4096
    → end_of (length ps) (length ls) < 4096
    → main_entry_initialize fn
      ≡ ok
          (with_code (entry_code (length ps) (length ls)) (entry_tables (length ps) (length ls) fn))
unfolding main_entry_initialize
main_entry_initialize-code fn ps ls params locals few small near =
    let n = length ps in
    let m = length ls in
    let e = end_of n m in
    let fn0 = get_stack_preallocate_size fn in
    let down = add_sub_sp true (align e) ∷ [] in
    let stores = param_code n 0 (4 * n) in
    let (first, last, size) = frame_numbers fn ps ls params locals in
    let (same_params, same_locals, _, _) = frame_data fn in
    let fn1 = record_slots param n 0 (4 * n) fn0 in
    let (kept, _, _, end, _, _) = record_slots-data param n 0 (4 * n) fn0 in
    let behind : with_code stores (record_slots param n 0 (4 * n) (with_code down fn0))
        ≡ with_code (down ++ stores) fn1 =
      slots_behind param n 0 (4 * n) down stores fn0 in
    ap (λ r. r >>= λ f. init_param f >>= init_local) (prepare_sp-code fn0 (align e) size small)
    ∙ (ap (λ r. r >>= init_local)
          (init_param-code (with_code down fn0) ps (same_params ∙ params) first few)
        ∙ (ap init_local behind
            ∙ (init_local-code (with_code (down ++ stores) fn1) ls e (kept ∙ (same_locals ∙ locals))
                  (end ∙ last) (omega arith)
                ∙ ap ok (slots_behind local m 0 e (down ++ stores) (local_code m e) fn1))))

-- What `main_entry_initialize` leaves of the function.
pub entry_tables-data :
    (n m : ℕ) (fn : WasmFunction)
    → let g = entry_tables n m fn in
      (g.param_data ≡ fn.param_data)
      × (g.local_data ≡ fn.local_data)
      × (g.code_vec ≡ fn.code_vec)
      × (g.wasm_instructions ≡ fn.wasm_instructions)
      × (g.stack_size ≡ (get_stack_preallocate_size fn).stack_size)
entry_tables-data n m fn =
    let fn0 = get_stack_preallocate_size fn in
    let fn1 = record_slots param n 0 (4 * n) fn0 in
    let (a, b, c, d) = frame_data fn in
    let (l, p, v, _, t, z) = record_slots-data param n 0 (4 * n) fn0 in
    let (l', p', v', _, t', z') = record_slots-data local m 0 (end_of n m) fn1 in
    (p' ∙ (p ∙ a), l' ∙ (l ∙ b), v' ∙ (v ∙ c), t' ∙ (t ∙ d), z' ∙ z)
