-- ===== src/Wasm/Statements/Epilogue.antt =====
-- `restoreSP` of include/Wasm/Stack.hpp on a machine.
use mathlib.Core.List.{append-nil}
use tiny_wasm.Base.{
  ℕ, ◌+◌, ◌*◌, ◌%◌, ◌^◌, ◌<◌, ◌≡◌, ◌≢◌, refl, sym, ap, subst, ◌∙◌, Bool, true, false, List, [], ◌∷◌,
  ◌++◌, length, arith,
}
use tiny_wasm.Base.Int.{ℤ}
use tiny_wasm.Base.Result.{ok}
use tiny_wasm.A64.{Machine, Instruction, add_sub_sp, IsA64, run}
use tiny_wasm.A64.Code.{
  words_of, perform_all, perform_all-append, run-words_of, AreEncodable, code_text,
  code_text-append, Gives, add_sub_sp-Gives,
}
use tiny_wasm.Wasm.Types.{WasmValue, int32, int64}
use tiny_wasm.Wasm.Function.{WasmFunction}
use tiny_wasm.Wasm.Stack.{pop_result, pop_results, restore_sp}
use tiny_wasm.Wasm.Operands.{Entry}
use tiny_wasm.Wasm.Operands.Emitted.{pop_code, pop-Gives, with_code}
use tiny_wasm.Wasm.Operands.Stacked.{Stacked, pop_code-Stacked}
use tiny_wasm.Wasm.Operands.Programs.{words_text, words_text-words_of}

abbrev pub integer : Bool → ℤ → WasmValue
integer true z = int64 z
integer false z = int32 z

abbrev pub restore_code : Bool → ℕ → List Instruction
restore_code wide size = pop_code wide 0 ++ add_sub_sp false size ∷ []

pop_results-Gives :
    (wide : Bool) (z : ℤ) → Gives (pop_results (integer wide z ∷ []) 0) (pop_code wide 0)
unfolding pop_results pop_result
pop_results-Gives true z =
    rw (pop-Gives true 0 (omega arith)) (ap ok (append-nil (code_text (pop_code true 0))))
pop_results-Gives false z =
    rw (pop-Gives false 0 (omega arith)) (ap ok (append-nil (code_text (pop_code false 0))))

restore_sp-code :
    (fn : WasmFunction) (wide : Bool) (z : ℤ)
    → fn.result_data ≡ integer wide z ∷ []
    → fn.stack_size < 4096
    → restore_sp fn ≡ ok (with_code (restore_code wide fn.stack_size) fn)
unfolding restore_sp
restore_sp-code fn wide z results small =
    let same : fn.stack_size % 2 ^ 16 ≡ fn.stack_size = omega arith in
    let popped = ap (λ vs. pop_results vs 0) results ∙ pop_results-Gives wide z in
    rw (popped, same, add_sub_sp-Gives false fn.stack_size small)
      (ap (λ t. ok (record fn { wasm_instructions = fn.wasm_instructions ++ t }))
        (sym (code_text-append (pop_code wide 0) (add_sub_sp false fn.stack_size ∷ []))))

restore_code-AreEncodable :
    (wide : Bool) (size : ℕ) → size < 4096 → AreEncodable (restore_code wide size)
restore_code-AreEncodable wide size small = omega arith

-- On a function with one result, of type i32 or i64, and a frame below 4096 bytes; on a machine with an entry of
-- that type on top of the wasm stack; and with a processor that follows the manual: `restoreSP` appends the
-- text of some words. When the processor runs them, the value is in X0 and off the stack, the
-- stack pointer is up again by the size of the frame, and the memory and every register but X0 and X21 are as
-- they were.
pub restore_sp-Stacked :
    (step : ℕ → Machine → Machine)
    → IsA64 step
    → (base limit : ℕ) (fn : WasmFunction) (wide : Bool) (z : ℤ) → base + 8 * limit < 2 ^ 64
    → fn.result_data ≡ integer wide z ∷ []
    → fn.stack_size < 4096
    → (s : Machine) (v : ℕ) (es : List Entry) → length es < limit
    → Stacked base s ((wide, v) ∷ es)
    → s.sp + fn.stack_size < 2 ^ 64
    → (fn' : WasmFunction) × (words : List ℕ) × (restore_sp fn ≡ ok fn')
      × (fn'.wasm_instructions ≡ fn.wasm_instructions ++ words_text words)
      × (let t = run step words s in
          (t.x 0 ≡ v)
          × Stacked base t es
          × (t.sp ≡ s.sp + fn.stack_size)
          × (t.memory ≡ s.memory)
          × ((n : ℕ) → n ≢ 0 → n ≢ 21 → t.x n ≡ s.x n))
restore_sp-Stacked step a64 base limit fn wide z room results small s v es few stacked inside =
    let size = fn.stack_size in
    let is = restore_code wide size in
    let t = perform_all (pop_code wide 0) s in
    let (popped, x, _, memory, sp, others) =
      pop_code-Stacked base limit room s es wide v 0 (omega arith) few stacked in
    let up : (t.sp + size) % 2 ^ 64 ≡ s.sp + size = omega arith in
    let ran : run step (words_of is) s ≡ record t { sp = s.sp + size } =
      run-words_of step a64 is s (restore_code-AreEncodable wide size small)
      ∙ (perform_all-append (pop_code wide 0) (add_sub_sp false size ∷ []) s
          ∙ ap (λ p. record t { sp = p }) up) in
    (
      with_code is fn,
      words_of is,
      restore_sp-code fn wide z results small,
      ap (λ u. fn.wasm_instructions ++ u) (sym (words_text-words_of is)),
      subst
          (λ (u : Machine).
            (u.x 0 ≡ v)
            × Stacked base u es
            × (u.sp ≡ s.sp + size)
            × (u.memory ≡ s.memory)
            × ((n : ℕ) → n ≢ 0 → n ≢ 21 → u.x n ≡ s.x n))
          (sym ran) (x, popped, refl, memory, others),
    )
