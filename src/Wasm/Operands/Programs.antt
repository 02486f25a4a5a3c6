-- ===== src/Wasm/Operands/Programs.antt =====
-- Straight-line code: one operator after the other.
use mathlib.Core.Option.{some-injective, none-ne-some, bind, bind-eq-some_iff}
use tiny_wasm.Base.{
  ℕ, ◌+◌, ◌*◌, ◌^◌, ◌≤◌, ◌<◌, ◌≡◌, refl, sym, ap, subst, ◌∙◌, Bool, true, false, List, [], ◌∷◌,
  ◌++◌, length, Option, some, none, arith, leb, if◌then◌else◌,
}
use tiny_wasm.Base.Int.{ℤ}
use tiny_wasm.Base.Text.{Text}
use tiny_wasm.Opcode.Fields.{word_text}
use tiny_wasm.Opcode.Layout.Immediate.{half_word-lt}
use tiny_wasm.Wasm.Function.{WasmFunction, construct_full_instr}
use tiny_wasm.Wasm.Jit.{jit_loop}
use tiny_wasm.A64.{Machine, Instruction, word_of, IsA64, run}
use tiny_wasm.A64.Code.{
  code_text, words_of, perform_all, AreEncodable, AreEncodable-append, run-words_of,
}
use tiny_wasm.Wasm.Operands.{
  Entry, Operator, const, arithmetic, compare, Arithmetic, add, sub, mul, evaluate,
}
use tiny_wasm.Wasm.Operands.Emitted.{push_code, pop_code, load_code, operation, code_of}
use tiny_wasm.Wasm.Operands.Emitted.Operators.{condition_code-lt}
use tiny_wasm.Wasm.Operands.Bytes.{AreShort, bytes_of_all, code_of_all, jit_loop-code_of_all}
use tiny_wasm.Wasm.Operands.Stacked.{Stacked, Kept, Kept-refl}
use tiny_wasm.Wasm.Operands.Simulation.{Leaves, Leaves-append}
use tiny_wasm.Wasm.Operands.Simulation.Operators.{code_of-Leaves}

-- The operators in their order, as long as no more than `limit` entries are on the stack.
abbrev pub bounded : ℕ → List Entry → Option (List Entry)
bounded limit es = if leb (length es) limit then some es else none

abbrev pub evaluate_all : ℕ → List Operator → List Entry → Option (List Entry)
evaluate_all limit [] es = some es
evaluate_all limit (op ∷ ops) es =
    bind (evaluate op es) λ fs. bind (bounded limit fs) (evaluate_all limit ops)

-- The text of words.
abbrev pub words_text : List ℕ → Text
words_text [] = []
words_text (w ∷ ws) = word_text true w ++ words_text ws

pub words_text-words_of : (is : List Instruction) → words_text (words_of is) ≡ code_text is
words_text-words_of [] = refl
words_text-words_of (i ∷ is) = ap (λ t. word_text true (word_of i) ++ t) (words_text-words_of is)

push_code-AreEncodable : (wide : Bool) (reg : ℕ) → reg < 31 → AreEncodable (push_code wide reg)
push_code-AreEncodable wide reg h = omega arith

pop_code-AreEncodable : (wide : Bool) (reg : ℕ) → reg < 31 → AreEncodable (pop_code wide reg)
pop_code-AreEncodable wide reg h = omega arith

load_code-AreEncodable : (wide : Bool) (v : ℤ) → AreEncodable (load_code wide v)
load_code-AreEncodable true v =
    let l0 = half_word-lt v 0 in
    let l1 = half_word-lt v 16 in
    let l2 = half_word-lt v 32 in let l3 = half_word-lt v 48 in omega arith
load_code-AreEncodable false v =
    let l0 = half_word-lt v 0 in let l1 = half_word-lt v 16 in omega arith

operation-AreEncodable : (op : Arithmetic) (wide : Bool) → AreEncodable (operation op wide ∷ [])
operation-AreEncodable add wide = omega arith
operation-AreEncodable sub wide = omega arith
operation-AreEncodable mul wide = omega arith

pub code_of-AreEncodable : (op : Operator) → AreEncodable (code_of op)
code_of-AreEncodable (const wide v) =
    AreEncodable-append (load_code wide v) _ (load_code-AreEncodable wide v)
      (push_code-AreEncodable wide 11 (omega arith))
code_of-AreEncodable (arithmetic op wide) =
    AreEncodable-append (pop_code wide 11 ++ pop_code wide 12)
      (operation op wide ∷ push_code wide 11) (omega arith)
      (AreEncodable-append (operation op wide ∷ []) (push_code wide 11)
        (operation-AreEncodable op wide) (push_code-AreEncodable wide 11 (omega arith)))
code_of-AreEncodable (compare op wide) = let c = condition_code-lt op in omega arith

code_of_all-AreEncodable : (ops : List Operator) → AreEncodable (code_of_all ops)
code_of_all-AreEncodable [] = tt
code_of_all-AreEncodable (op ∷ ops) =
    AreEncodable-append (code_of op) (code_of_all ops) (code_of-AreEncodable op)
      (code_of_all-AreEncodable ops)

bounded-some :
    (limit : ℕ) (es fs : List Entry) → bounded limit es ≡ some fs → (es ≡ fs) × (length es ≤ limit)
bounded-some limit es fs h = within (leb (length es) limit) refl h
  where
    within :
        (t : Bool)
        → leb (length es) limit ≡ t
        → (if t then some es else none) ≡ some fs
        → (es ≡ fs) × (length es ≤ limit)
    within true le h = (some-injective _ _ h, ground arith)
    within false le h = absurd (none-ne-some fs h)

code_of_all-Leaves :
    (base limit : ℕ) (ops : List Operator) (s : Machine) (es fs : List Entry)
    → base + 8 * limit < 2 ^ 64
    → evaluate_all limit ops es ≡ some fs
    → length es ≤ limit
    → Stacked base s es
    → Leaves base limit (code_of_all ops) s fs
code_of_all-Leaves base limit [] s es fs room e le h =
    (subst (Stacked base s) (some-injective _ _ e) h, Kept-refl base limit s)
code_of_all-Leaves base limit (op ∷ ops) s es fs room e le h =
    let (gs, one, rest) =
      (bind-eq-some_iff (evaluate op es) (λ gs. bind (bounded limit gs) (evaluate_all limit ops))).0
        e in
    let (hs, fit, more) = (bind-eq-some_iff (bounded limit gs) (evaluate_all limit ops)).0 rest in
    let (same, lg) = bounded-some limit gs hs fit in
    let (stacked, kept) = code_of-Leaves base limit op s es gs room one le lg h in
    Leaves-append base limit (code_of op) (code_of_all ops) s fs kept (
      code_of_all-Leaves base limit ops (perform_all (code_of op) s) gs fs room
        (subst (λ l. evaluate_all limit ops l ≡ some fs) (sym same) more) lg stacked)

-- Operators of WebAssembly one after the other (constants from 0 to 63, addition, subtraction,
-- multiplication and comparisons), which give `fs` from `es` with at most `limit` entries on the stack at any time; code
-- that has their bytes at the index of the compiler's loop; and a processor that follows the manual.
-- One round of the loop for each operator takes it past these bytes, and it has appended the text of
-- some words and changed nothing else. When the processor runs these words on a machine with `es` on
-- the stack, `fs` is on it in the end, and the memory outside the stack, the stack pointer and the
-- registers from 13 on but X21 are as they were.
pub jit_loop-Leaves :
    (step : ℕ → Machine → Machine)
    → IsA64 step
    → (base limit : ℕ) (ops : List Operator) (before after : List Text) (fn : WasmFunction)
    → base + 8 * limit < 2 ^ 64
    → AreShort ops
    → fn.code_vec ≡ before ++ (bytes_of_all ops ++ after)
    → (s : Machine) (es fs : List Entry) → evaluate_all limit ops es ≡ some fs
    → length es ≤ limit
    → Stacked base s es
    → (words : List ℕ) × ((fuel : ℕ)
        → jit_loop (length ops + fuel) (length before) fn
          ≡ jit_loop fuel
              (length before + length (bytes_of_all ops))
              (construct_full_instr (words_text words) fn))
      × Stacked base (run step words s) fs
      × Kept base limit s (run step words s)
jit_loop-Leaves step a64 base limit ops before after fn room short code s es fs e le h =
    let is = code_of_all ops in
    let (stacked, kept) =
      subst (λ t. Stacked base t fs × Kept base limit s t)
        (sym (run-words_of step a64 is s (code_of_all-AreEncodable ops)))
        (code_of_all-Leaves base limit ops s es fs room e le h) in
    (
      words_of is,
      (λ fuel.
          jit_loop-code_of_all ops before after fuel fn short code
          ∙ ap
              (λ t.
                jit_loop fuel (length before + length (bytes_of_all ops))
                  (construct_full_instr t fn))
              (sym (words_text-words_of is))),
      stacked,
      kept,
    )
