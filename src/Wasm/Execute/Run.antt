-- ===== src/Wasm/Execute/Run.antt =====
-- A run of a compiled function, and the state after it.
use mathlib.Core.List.{append_assoc}
use tiny_wasm.Base.{
  ℕ, ◌≡◌, refl, sym, ap, ◌∙◌, Bool, true, false, List, [], ◌∷◌, ◌++◌, ◌==◌, if◌then◌else◌,
}
use tiny_wasm.Base.Result.{ok}
use tiny_wasm.Opcode.Fields.{word_text}
use tiny_wasm.Wasm.Function.{WasmFunction, reset_after_execution}
use tiny_wasm.Wasm.Execute.{
  CallResult, Outcome, returned, trapped, get_function_pointer, execute_wasm_instr,
}
use tiny_wasm.Wasm.Execute.Loading.{program_text, program_bytes, get_function_pointer-program_text}

pub program_text-append :
    (xs ys : List ℕ) → program_text (xs ++ ys) ≡ program_text xs ++ program_text ys
program_text-append [] ys = refl
program_text-append (x ∷ xs) ys =
    ap (λ t. word_text true x ++ t) (program_text-append xs ys)
    ∙ sym (append_assoc (word_text true x) (program_text xs) (program_text ys))

if-pair :
    (b : Bool) (x y : Outcome) (fn : WasmFunction)
    → ◌≡◌ {A = Outcome × WasmFunction} (if b then (x, fn) else (y, fn)) (if b then x else y, fn)
if-pair true x y fn = refl
if-pair false x y fn = refl

-- A return code other than 0 is a trap.
abbrev pub outcome : CallResult → Outcome
outcome r = if r.return_code == 0 then returned r.ans else trapped

-- The function with everything that a run takes away.
abbrev pub without_code : WasmFunction → WasmFunction
without_code fn = record fn {
  wasm_instructions = [];
  pre_instructions_for_param_loading = [];
  fake_insert_map = [];
  label_map = [];
}

-- When the loading of the parameters and the function are the text of words, the processor is
-- given the bytes of the former and then of the latter; its return code decides between a value
-- and a trap. In both cases the function has lost its two texts, its open branches and its labels, and
-- nothing else: the variables, with the locals that were declared, their tables and the control
-- stack stay as the compilation left them.
pub execute_wasm_instr-words :
    (call : List ℕ → CallResult) (fn : WasmFunction) (pre main : List ℕ)
    → fn.pre_instructions_for_param_loading ≡ program_text pre
    → fn.wasm_instructions ≡ program_text main
    → (fn' : WasmFunction) × (execute_wasm_instr call fn
        ≡ ok (outcome (call (program_bytes (pre ++ main))), fn'))
      × (fn' ≡ without_code fn)
unfolding execute_wasm_instr
execute_wasm_instr-words call fn pre main hp hm =
    let loaded : get_function_pointer
          (fn.pre_instructions_for_param_loading ++ fn.wasm_instructions)
        ≡ ok (program_bytes (pre ++ main)) =
      rw (hp, hm, ← program_text-append pre main)
        (get_function_pointer-program_text (pre ++ main)) in
    let r = call (program_bytes (pre ++ main)) in
    (
      reset_after_execution fn,
      rw loaded (
          ap ok (if-pair (r.return_code == 0) (returned r.ans) trapped (reset_after_execution fn))),
      refl,
    )
