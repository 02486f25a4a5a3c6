-- ===== src/Wasm/Operands/Emitted.antt =====
-- The instructions that the emitters of include/Wasm/Emit.hpp append for an operator.
pub mod Operators
use mathlib.Core.List.{append_assoc, append-nil}
use tiny_wasm.Base.{ℕ, ◌<◌, ◌≡◌, refl, sym, ap, ◌∙◌, Bool, true, false, List, [], ◌∷◌, ◌++◌, arith}
use tiny_wasm.Base.Int.{ℤ}
use tiny_wasm.Base.Result.{Result, ok, ◌>>=◌}
use tiny_wasm.Base.Text.{Text}
use tiny_wasm.Opcode.Base.{RegType, w_reg, x_reg, str, ldr}
use tiny_wasm.Opcode.Compare.{encode_compare_shift, encode_csel}
use tiny_wasm.Opcode.LoadStore.{encode_load_store_reg}
use tiny_wasm.Opcode.Mov.{
  half_word, encode_movz, wrapper_encode_mov_int32, wrapper_encode_mov_int64,
}
use tiny_wasm.Opcode.Layout.Immediate.{half_word-lt}
use tiny_wasm.A64.{
  Instruction, add_sub_shift, add_sub_imm, movz, movk, load_store_reg, compare_shift, csel,
}
use tiny_wasm.A64.Code.{
  code_text, code_text-append, Gives, Gives-pair, add_sub_shift-Gives, mul-Gives, add_sub_imm-Gives,
  movz-Gives, movk-Gives, load_store_reg-Gives, compare_shift-Gives, csel-Gives,
}
use tiny_wasm.Wasm.Types.{int32, int64, at, cond_table}
use tiny_wasm.Wasm.Function.{WasmFunction, append_instr, construct_full_instr}
use tiny_wasm.Wasm.Stack.{push, pop}
use tiny_wasm.Wasm.Emit.{emit_const, emit_compare_op, emit_arith_body, emit_arith_op}
use tiny_wasm.Wasm.Operands.{
  Arithmetic, add, sub, mul, Comparison, eq, Operator, const, arithmetic, compare,
}
use tiny_wasm.Wasm.Operands.Conditions.{condition, condition_code}

abbrev pub register : Bool → RegType
register true = x_reg
register false = w_reg

abbrev pub push_code : Bool → ℕ → List Instruction
push_code wide reg = load_store_reg str wide reg 20 21 ∷ add_sub_imm false 21 21 8 ∷ []

abbrev pub pop_code : Bool → ℕ → List Instruction
pop_code wide reg = add_sub_imm true 21 21 8 ∷ load_store_reg ldr wide reg 20 21 ∷ []

pub push-Gives :
    (wide : Bool) (reg : ℕ) → reg < 31 → Gives (push (register wide) reg) (push_code wide reg)
unfolding push
push-Gives true reg h =
    Gives-pair _ _ (load_store_reg str true reg 20 21) (add_sub_imm false 21 21 8)
      (load_store_reg-Gives str x_reg reg 20 21 (omega arith))
      (add_sub_imm-Gives false 21 21 8 (omega arith))
push-Gives false reg h =
    Gives-pair _ _ (load_store_reg str false reg 20 21) (add_sub_imm false 21 21 8)
      (load_store_reg-Gives str w_reg reg 20 21 (omega arith))
      (add_sub_imm-Gives false 21 21 8 (omega arith))

pop_one :
    (wide : Bool) (r : RegType) (reg : ℕ)
    → Gives (encode_load_store_reg r ldr reg 20 21 3 true) (load_store_reg ldr wide reg 20 21 ∷ [])
    → Gives (pop r false reg) (pop_code wide reg)
unfolding pop
pop_one wide r reg g =
    rw (add_sub_imm-Gives true 21 21 8 (omega arith), g)
      (ap (λ t. ok (code_text (add_sub_imm true 21 21 8 ∷ []) ++ t))
          (append-nil (code_text (load_store_reg ldr wide reg 20 21 ∷ [])))
        ∙ ap ok (
            sym (
              code_text-append (add_sub_imm true 21 21 8 ∷ [])
                (load_store_reg ldr wide reg 20 21 ∷ []))))

pub pop-Gives :
    (wide : Bool) (reg : ℕ) → reg < 31 → Gives (pop (register wide) false reg) (pop_code wide reg)
pop-Gives true reg h =
    pop_one true x_reg reg (load_store_reg-Gives ldr x_reg reg 20 21 (omega arith))
pop-Gives false reg h =
    pop_one false w_reg reg (load_store_reg-Gives ldr w_reg reg 20 21 (omega arith))

-- Code appended to what a function has.
abbrev pub with_code : List Instruction → WasmFunction → WasmFunction
with_code is fn = construct_full_instr (code_text is) fn

pub with_code-append :
    (xs ys : List Instruction) (fn : WasmFunction)
    → with_code ys (with_code xs fn) ≡ with_code (xs ++ ys) fn
with_code-append xs ys fn =
    ap (λ t. record fn { wasm_instructions = t })
      (append_assoc fn.wasm_instructions (code_text xs) (code_text ys)
        ∙ ap (λ t. fn.wasm_instructions ++ t) (sym (code_text-append xs ys)))

-- One statement that appends, and the rest.
pub then_code :
    (m : Result Text) (xs ys : List Instruction) (fn : WasmFunction)
    (k : WasmFunction → Result WasmFunction)
    → Gives m xs
    → k (with_code xs fn) ≡ ok (with_code ys (with_code xs fn))
    → (append_instr m fn >>= k) ≡ ok (with_code (xs ++ ys) fn)
unfolding append_instr
then_code m xs ys fn k g h = rw g (h ∙ ap ok (with_code-append xs ys fn))

pub last_code :
    (m : Result Text) (xs : List Instruction) (fn : WasmFunction)
    → Gives m xs
    → append_instr m fn ≡ ok (with_code xs fn)
unfolding append_instr
last_code m xs fn g = rw g

abbrev pub load_code : Bool → ℤ → List Instruction
load_code false v = movz false 11 0 (half_word v 0) ∷ movk false 11 1 (half_word v 16) ∷ []
load_code true v =
    movz true 11 0 (half_word v 0)
    ∷ movk true 11 1 (half_word v 16)
    ∷ movk true 11 2 (half_word v 32)
    ∷ movk true 11 3 (half_word v 48)
    ∷ []

load32-Gives : (v : ℤ) → Gives (wrapper_encode_mov_int32 11 v true) (load_code false v)
unfolding wrapper_encode_mov_int32
load32-Gives v =
    let l0 = half_word-lt v 0 in
    let l1 = half_word-lt v 16 in
    Gives-pair _ _ (movz false 11 0 (half_word v 0)) (movk false 11 1 (half_word v 16))
      (movz-Gives w_reg 11 0 (half_word v 0) (omega arith))
      (movk-Gives w_reg 11 1 (half_word v 16) (omega arith))

load64-Gives : (v : ℤ) → Gives (wrapper_encode_mov_int64 11 v true) (load_code true v)
unfolding wrapper_encode_mov_int64
load64-Gives v =
    let l0 = half_word-lt v 0 in
    let l1 = half_word-lt v 16 in
    let l2 = half_word-lt v 32 in
    let l3 = half_word-lt v 48 in
    let a = movz true 11 0 (half_word v 0) in
    let b = movk true 11 1 (half_word v 16) in
    let c = movk true 11 2 (half_word v 32) in
    let d = movk true 11 3 (half_word v 48) in
    rw
      (
        movz-Gives x_reg 11 0 (half_word v 0) (omega arith),
        movk-Gives x_reg 11 1 (half_word v 16) (omega arith),
        movk-Gives x_reg 11 2 (half_word v 32) (omega arith),
        movk-Gives x_reg 11 3 (half_word v 48) (omega arith),
      )
      (ap ok (
        sym (
          code_text-append (a ∷ []) (b ∷ c ∷ d ∷ [])
          ∙ ap (λ t. code_text (a ∷ []) ++ t)
              (code_text-append (b ∷ []) (c ∷ d ∷ [])
                ∙ ap (λ t. code_text (b ∷ []) ++ t) (code_text-append (c ∷ []) (d ∷ []))))))

abbrev pub operation : Arithmetic → Bool → Instruction
operation add wide = add_sub_shift false wide 11 12 11
operation sub wide = add_sub_shift true wide 11 12 11
operation mul wide = Instruction.mul wide 11 12 11

abbrev pub symbol : Arithmetic → ℕ
symbol add = b'+'
symbol sub = b'-'
symbol mul = b'*'

abbrev pub type_symbol : Bool → ℕ
type_symbol true = b'l'
type_symbol false = b'i'

-- The code of an operator.
abbrev pub code_of : Operator → List Instruction
code_of (const wide v) = load_code wide v ++ push_code wide 11
code_of (arithmetic op wide) =
    (pop_code wide 11 ++ pop_code wide 12) ++ (operation op wide ∷ [] ++ push_code wide 11)
code_of (compare op wide) =
    movz true 3 0 1 ∷ []
    ++ (movz true 4 0 0 ∷ []
        ++ ((pop_code wide 12 ++ pop_code wide 11)
            ++ (compare_shift wide 11 12 ∷ []
                ++ (csel 0 3 4 (condition_code op) ∷ [] ++ push_code true 0))))
