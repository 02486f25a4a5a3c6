-- ===== src/Wasm/Statements/Prologue/Code.antt =====
-- The code and the tables of `main_entry_initialize` for variables of type i32.
use mathlib.Core.List.{append-nil}
use native.Mathlib.Nat.{mod-eq_of_lt}
use tiny_wasm.Base.{
  ℕ, zero, suc, ◌+◌, ◌-◌, ◌/◌, ◌≤◌, ◌<◌, ◌≡◌, refl, sym, ap, ◌∙◌, true, false, List, [], ◌∷◌, ◌++◌,
  length, arith,
}
use tiny_wasm.Base.Int.{ℤ}
use tiny_wasm.Base.Result.{Result, ok, ◌>>=◌}
use tiny_wasm.Base.Text.{Text}
use tiny_wasm.Opcode.Base.{w_reg, str, unsigned_offset}
use tiny_wasm.Opcode.LoadStore.{encode_load_store_imm}
use tiny_wasm.A64.{Instruction, load_store_imm, store_zero}
use tiny_wasm.A64.Code.{Gives, load_store_imm-Gives, store_zero-Gives}
use tiny_wasm.Wasm.Types.{TypeCategory, param, local, int32}
use tiny_wasm.Wasm.Function.{WasmFunction, append_instr}
use tiny_wasm.Wasm.Initialize.{store_param, store_local, init_params, init_locals}
use tiny_wasm.Wasm.Operands.Emitted.{with_code, with_code-append}
use tiny_wasm.Wasm.Statements.Emitted.{int16_small}
use tiny_wasm.Wasm.Statements.Prologue.{ints}

-- The stores of `n` registers from number `g` on, each four bytes below the last.
abbrev pub param_code : ℕ → ℕ → ℕ → List Instruction
param_code zero g o = []
param_code (suc n) g o = load_store_imm str false g 31 (o / 4) ∷ param_code n (g + 1) (o - 4)

-- The stores of `m` zeros.
abbrev pub local_code : ℕ → ℕ → List Instruction
local_code zero o = []
local_code (suc m) o = store_zero false 31 (o / 4) ∷ local_code m (o - 4)

abbrev pub record_slot : TypeCategory → ℕ → ℕ → WasmFunction → WasmFunction
record_slot c i o fn = record fn {
  vec_to_stack = ((c, i), o) ∷ fn.vec_to_stack;
  reg_type_getter = ((c, i), w_reg) ∷ fn.reg_type_getter;
  stack_to_vec = (o, (c, i)) ∷ fn.stack_to_vec;
}

-- The slots of `n` variables from index `i` on.
abbrev pub record_slots : TypeCategory → ℕ → ℕ → ℕ → WasmFunction → WasmFunction
record_slots c zero i o fn = fn
record_slots c (suc n) i o fn = record_slots c n (i + 1) (o - 4) (record_slot c i o fn)

-- Code and slots are in different fields.
record_slots-with_code :
    (c : TypeCategory) (n i o : ℕ) (is : List Instruction) (fn : WasmFunction)
    → record_slots c n i o (with_code is fn) ≡ with_code is (record_slots c n i o fn)
record_slots-with_code c zero i o is fn = refl
record_slots-with_code c (suc n) i o is fn =
    record_slots-with_code c n (i + 1) (o - 4) is (record_slot c i o fn)

store_param-Gives :
    (v : ℤ) (g f o : ℕ)
    → g < 31
    → o < 16384
    → Gives (store_param (int32 v) g f o) (load_store_imm str false g 31 (o / 4) ∷ [])
unfolding store_param
store_param-Gives v g f o small near =
    let below : g < 256 = omega arith in
    (λ i.
      encode_load_store_imm w_reg str (mod-eq_of_lt below i) 31 (int16_small o near i)
        unsigned_offset true)
    ∙ load_store_imm-Gives str w_reg g 31 o (omega arith)

store_local-Gives :
    (v : ℤ) (o : ℕ) → o < 16384 → Gives (store_local (int32 v) o) (store_zero false 31 (o / 4) ∷ [])
unfolding store_local
store_local-Gives v o near =
    ap (λ z. encode_load_store_imm w_reg str 31 31 z unsigned_offset true) (int16_small o near)
    ∙ store_zero-Gives w_reg 31 o (omega arith)

-- One piece of code, and the rest.
one_piece :
    (m : Result Text) (xs : List Instruction) (fn : WasmFunction)
    (k : WasmFunction → Result WasmFunction)
    → Gives m xs
    → (append_instr m fn >>= k) ≡ k (with_code xs fn)
unfolding append_instr
one_piece m xs fn k g = rw g refl

-- The code of the slots of a loop that has appended `xs` before.
pub slots_behind :
    (c : TypeCategory) (n i o : ℕ) (xs ys : List Instruction) (fn : WasmFunction)
    → with_code ys (record_slots c n i o (with_code xs fn))
      ≡ with_code (xs ++ ys) (record_slots c n i o fn)
slots_behind c n i o xs ys fn =
    ap (with_code ys) (record_slots-with_code c n i o xs fn)
    ∙ with_code-append xs ys (record_slots c n i o fn)

without_code : (fn : WasmFunction) → with_code [] fn ≡ fn
without_code fn = ap (λ t. record fn { wasm_instructions = t }) (append-nil fn.wasm_instructions)

pub init_params-code :
    (vs : List ℤ) (i o g f : ℕ) (fn : WasmFunction)
    → g + length vs ≤ 31
    → o < 16384
    → init_params (ints vs) i o g f fn
      ≡ ok (with_code (param_code (length vs) g o) (record_slots param (length vs) i o fn))
unfolding init_params
init_params-code [] i o g f fn few near = ap ok (sym (without_code fn))
init_params-code (v ∷ vs) i o g f fn few near =
    let store = load_store_imm str false g 31 (o / 4) ∷ [] in
    let fn' = record_slot param i o fn in
    one_piece (store_param (int32 v) g f o) store fn' _
      (store_param-Gives v g f o (omega arith) near)
    ∙ (init_params-code vs (i + 1) (o - 4) (g + 1) f (with_code store fn') (omega arith)
          (omega arith)
        ∙ ap ok (
            slots_behind param (length vs) (i + 1) (o - 4) store
              (param_code (length vs) (g + 1) (o - 4)) fn'))

pub init_locals-code :
    (vs : List ℤ) (i o : ℕ) (fn : WasmFunction)
    → o < 16384
    → init_locals (ints vs) i o fn
      ≡ ok (with_code (local_code (length vs) o) (record_slots local (length vs) i o fn))
unfolding init_locals
init_locals-code [] i o fn near = ap ok (sym (without_code fn))
init_locals-code (v ∷ vs) i o fn near =
    let store = store_zero false 31 (o / 4) ∷ [] in
    let fn' = record_slot local i o fn in
    one_piece (store_local (int32 v) o) store fn' _ (store_local-Gives v o near)
    ∙ (init_locals-code vs (i + 1) (o - 4) (with_code store fn') (omega arith)
        ∙ ap ok (
            slots_behind local (length vs) (i + 1) (o - 4) store (local_code (length vs) (o - 4))
              fn'))
