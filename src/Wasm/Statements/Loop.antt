-- ===== src/Wasm/Statements/Loop.antt =====
-- The rounds of the compiler's loop on the bytes of statements.
use mathlib.Core.List.{append_assoc, append-nil}
use tiny_wasm.Base.{
  ℕ, suc, ◌+◌, ◌<◌, ◌≡◌, refl, sym, ap, subst, ◌∙◌, List, [], ◌∷◌, ◌++◌, length, length-append,
  arith, lt→ltb,
}
use tiny_wasm.Base.Text.{Text}
use tiny_wasm.Wasm.Function.{WasmFunction}
use tiny_wasm.Wasm.Jit.{jit_loop}
use tiny_wasm.A64.{Instruction}
use tiny_wasm.Wasm.Operands.Emitted.{with_code, with_code-append}
use tiny_wasm.Wasm.Operands.Bytes.{HasBytes, HasBytes-append, bytes_of-inside}
use tiny_wasm.Wasm.Statements.{Statement, operator, access}
use tiny_wasm.Wasm.Statements.Emitted.{Layout, HasLayout}
use tiny_wasm.Wasm.Statements.Emitted.Bytes.{
  IsShortStatement, IsIn, IsNear, bytes_of_statement, code_of_statement, statement_step,
}

abbrev pub AreShortStatements : List Statement → Type 0
AreShortStatements [] = Unit
AreShortStatements (st ∷ sts) = IsShortStatement st × AreShortStatements sts

-- Every variable is there.
abbrev pub AreIn : Layout → List Statement → Type 0
AreIn layout [] = Unit
AreIn layout (st ∷ sts) = IsIn layout st × AreIn layout sts

abbrev pub bytes_of_statements : List Statement → List Text
bytes_of_statements [] = []
bytes_of_statements (st ∷ sts) = bytes_of_statement st ++ bytes_of_statements sts

abbrev pub code_of_statements : Layout → List Statement → List Instruction
code_of_statements layout [] = []
code_of_statements layout (st ∷ sts) = code_of_statement layout st ++ code_of_statements layout sts

bytes_of_statement-inside :
    (st : Statement) → IsShortStatement st → 0 < length (bytes_of_statement st)
bytes_of_statement-inside (operator op) h = bytes_of-inside op h
bytes_of_statement-inside (access a n) h = omega arith

-- A round of the loop at a statement.
statement_round :
    (layout : Layout) (st : Statement) (i fuel : ℕ) (fn : WasmFunction)
    → HasLayout fn layout
    → IsNear layout
    → i < length fn.code_vec
    → IsIn layout st
    → IsShortStatement st
    → HasBytes fn.code_vec i (bytes_of_statement st)
    → jit_loop (suc fuel) i fn
      ≡ jit_loop fuel
          (i + length (bytes_of_statement st))
          (with_code (code_of_statement layout st) fn)
unfolding jit_loop
statement_round layout st i fuel fn has near inside here short b =
    rw (lt→ltb i (length fn.code_vec) inside, statement_step layout st i fn has near here short b)
      refl

pub jit_loop-code_of_statements :
    (layout : Layout) (sts : List Statement) (before after : List Text) (fuel : ℕ)
    (fn : WasmFunction)
    → HasLayout fn layout
    → IsNear layout
    → AreIn layout sts
    → AreShortStatements sts
    → fn.code_vec ≡ before ++ (bytes_of_statements sts ++ after)
    → jit_loop (length sts + fuel) (length before) fn
      ≡ jit_loop fuel
          (length before + length (bytes_of_statements sts))
          (with_code (code_of_statements layout sts) fn)
jit_loop-code_of_statements layout [] before after fuel fn has near here h code =
    ap (λ f. jit_loop f (length before) fn) (omega arith)
    ∙ (ap (λ i. jit_loop fuel i fn) (omega arith)
        ∙ ap (λ t. jit_loop fuel (length before + 0) (record fn { wasm_instructions = t }))
            (sym (append-nil fn.wasm_instructions)))
jit_loop-code_of_statements layout (st ∷ sts) before after fuel fn has near (here, others)
      (short, rest) code =
    let bs = bytes_of_statement st in
    let more = bytes_of_statements sts ++ after in
    let apart : fn.code_vec ≡ before ++ (bs ++ more) =
      code ∙ ap (λ t. before ++ t) (append_assoc bs (bytes_of_statements sts) after) in
    let joined : fn.code_vec ≡ (before ++ bs) ++ more = apart ∙ sym (append_assoc before bs more) in
    let there = length-append before bs in
    let inside : length before < length fn.code_vec = omega (
      arith,
      ap length joined,
      there,
      length-append (before ++ bs) more,
      bytes_of_statement-inside st short,
    ) in
    let bytes : HasBytes fn.code_vec (length before) bs =
      subst (λ c. HasBytes c (length before) bs) (sym apart) (HasBytes-append before bs more) in
    let fn' = with_code (code_of_statement layout st) fn in
    ap (λ f. jit_loop f (length before) fn) (omega arith)
    ∙ (statement_round layout st (length before) (length sts + fuel) fn has near inside here short
          bytes
        ∙ (ap (λ i. jit_loop (length sts + fuel) i fn') (sym there)
            ∙ (jit_loop-code_of_statements layout sts (before ++ bs) after fuel fn' has near others
                  rest joined
                ∙ (ap (λ i. jit_loop fuel i (with_code (code_of_statements layout sts) fn'))
                      (omega (arith, there, length-append bs (bytes_of_statements sts)))
                    ∙ ap (jit_loop fuel (length before + length (bytes_of_statements (st ∷ sts)))) (
                        with_code-append (code_of_statement layout st)
                          (code_of_statements layout sts) fn)))))
