-- ===== src/Wasm/Operands/Emitted/Operators.antt =====
-- Each emitter gives the code of its operator.
use tiny_wasm.Base.{ℕ, ◌<◌, ◌≡◌, refl, sym, ap, ◌∙◌, Bool, true, false, List, [], ◌∷◌, ◌++◌, arith}
use tiny_wasm.Base.Int.{ℤ}
use tiny_wasm.Base.Result.{Result, ok, ◌>>=◌}
use tiny_wasm.Base.Text.{Text}
use tiny_wasm.Opcode.Base.{w_reg, x_reg}
use tiny_wasm.Opcode.Compare.{encode_compare_shift, encode_csel}
use tiny_wasm.Opcode.Mov.{encode_movz}
use tiny_wasm.A64.{Instruction, movz, compare_shift, csel}
use tiny_wasm.A64.Code.{
  code_text-append, Gives, add_sub_shift-Gives, mul-Gives, movz-Gives, compare_shift-Gives,
  csel-Gives,
}
use tiny_wasm.Wasm.Types.{int32, int64, at, cond_table}
use tiny_wasm.Wasm.Function.{WasmFunction, append_instr, construct_full_instr}
use tiny_wasm.Wasm.Stack.{push, pop}
use tiny_wasm.Wasm.Emit.{emit_const, emit_compare_op, emit_arith_body, emit_arith_op}
use tiny_wasm.Wasm.Operands.{
  Arithmetic, add, sub, mul, Comparison, eq, Operator, const, arithmetic, compare,
}
use tiny_wasm.Wasm.Operands.Conditions.{condition, condition_code}
use tiny_wasm.Wasm.Operands.Emitted.{
  register, push_code, pop_code, push-Gives, pop-Gives, with_code, with_code-append, then_code,
  last_code, load_code, load32-Gives, load64-Gives, operation, symbol, type_symbol, code_of,
}

-- The emitter that the loop over the wasm code calls for an operator.
abbrev pub emit_operator : Operator → WasmFunction → Result WasmFunction
emit_operator (const false v) fn = emit_const (int32 v) fn
emit_operator (const true v) fn = emit_const (int64 v) fn
emit_operator (arithmetic op wide) fn = emit_arith_op (type_symbol wide) (symbol op) true fn
emit_operator (compare op wide) fn = emit_compare_op (register wide) (condition op) fn

-- Two pops, appended together.
pops_code :
    (wide : Bool) (p q : ℕ) (ys : List Instruction) (fn : WasmFunction)
    (k : WasmFunction → Result WasmFunction)
    → p < 31
    → q < 31
    → k (with_code (pop_code wide p ++ pop_code wide q) fn)
      ≡ ok (with_code ys (with_code (pop_code wide p ++ pop_code wide q) fn))
    → (pop (register wide) false p >>= λ a.
        pop (register wide) false q >>= λ b. k (construct_full_instr (a ++ b) fn))
      ≡ ok (with_code ((pop_code wide p ++ pop_code wide q) ++ ys) fn)
pops_code wide p q ys fn k hp hq h =
    rw (pop-Gives wide p hp, pop-Gives wide q hq)
      (ap (λ t. k (construct_full_instr t fn))
          (sym (code_text-append (pop_code wide p) (pop_code wide q)))
        ∙ (h ∙ ap ok (with_code-append (pop_code wide p ++ pop_code wide q) ys fn)))

arithmetic_code :
    (wide : Bool) (m : Result Text) (i : Instruction) (fn : WasmFunction)
    → Gives m (i ∷ [])
    → (pop (register wide) false 11 >>= λ a. pop (register wide) false 12 >>= λ b.
        append_instr m (construct_full_instr (a ++ b) fn) >>= λ f.
        append_instr (push (register wide) 11) f)
      ≡ ok (with_code ((pop_code wide 11 ++ pop_code wide 12) ++ (i ∷ [] ++ push_code wide 11)) fn)
arithmetic_code wide m i fn g =
    pops_code wide 11 12 (i ∷ [] ++ push_code wide 11) fn
      (λ f. append_instr m f >>= λ f'. append_instr (push (register wide) 11) f') (omega arith)
      (omega arith)
      (then_code m (i ∷ []) (push_code wide 11) _ _ g (
        last_code (push (register wide) 11) (push_code wide 11) _
          (push-Gives wide 11 (omega arith))))

emit_arith_op-code :
    (op : Arithmetic) (wide : Bool) (fn : WasmFunction)
    → emit_operator (arithmetic op wide) fn ≡ ok (with_code (code_of (arithmetic op wide)) fn)
unfolding emit_arith_op emit_arith_body
emit_arith_op-code add true fn =
    arithmetic_code true _ (operation add true) fn
      (add_sub_shift-Gives false x_reg 11 12 11 (omega arith))
emit_arith_op-code add false fn =
    arithmetic_code false _ (operation add false) fn
      (add_sub_shift-Gives false w_reg 11 12 11 (omega arith))
emit_arith_op-code sub true fn =
    arithmetic_code true _ (operation sub true) fn
      (add_sub_shift-Gives true x_reg 11 12 11 (omega arith))
emit_arith_op-code sub false fn =
    arithmetic_code false _ (operation sub false) fn
      (add_sub_shift-Gives true w_reg 11 12 11 (omega arith))
emit_arith_op-code mul true fn =
    arithmetic_code true _ (operation mul true) fn (mul-Gives x_reg 11 12 11 (omega arith))
emit_arith_op-code mul false fn =
    arithmetic_code false _ (operation mul false) fn (mul-Gives w_reg 11 12 11 (omega arith))

emit_const-code :
    (wide : Bool) (v : ℤ) (fn : WasmFunction)
    → emit_operator (const wide v) fn ≡ ok (with_code (code_of (const wide v)) fn)
unfolding emit_const
emit_const-code true v fn =
    rw (load64-Gives v, push-Gives true 11 (omega arith))
      (ap (λ t. ok (construct_full_instr t fn))
        (sym (code_text-append (load_code true v) (push_code true 11))))
emit_const-code false v fn =
    rw (load32-Gives v, push-Gives false 11 (omega arith))
      (ap (λ t. ok (construct_full_instr t fn))
        (sym (code_text-append (load_code false v) (push_code false 11))))

at-condition : (op : Comparison) → at cond_table (condition op) ≡ ok (condition_code op)
unfolding at
at-condition eq = refl
at-condition _ = refl

pub condition_code-lt : (op : Comparison) → condition_code op < 14
condition_code-lt eq = omega arith
condition_code-lt _ = omega arith

compare_code :
    (op : Comparison) (wide : Bool) (fn : WasmFunction)
    → Gives (encode_compare_shift (register wide) 11 12 0 0 true) (compare_shift wide 11 12 ∷ [])
    → (append_instr (encode_movz 3 1 x_reg 0 true) fn >>= λ f1.
        append_instr (encode_movz 4 0 x_reg 0 true) f1 >>= λ f2.
        pop (register wide) false 12 >>= λ b. pop (register wide) false 11 >>= λ a.
        append_instr
          (encode_compare_shift (register wide) 11 12 0 0 true)
          (construct_full_instr (b ++ a) f2)
        >>= λ f3. at cond_table (condition op) >>= λ cond.
            append_instr (encode_csel x_reg 0 3 4 cond true) f3 >>= λ f4.
            append_instr (push x_reg 0) f4)
      ≡ ok (with_code (code_of (compare op wide)) fn)
compare_code op wide fn g =
    let hc = condition_code-lt op in
    let select = csel 0 3 4 (condition_code op) ∷ [] in
    let flags = compare_shift wide 11 12 ∷ [] in
    let pops = pop_code wide 12 ++ pop_code wide 11 in
    let end = select ++ push_code true 0 in
    rw (at-condition op) (
      then_code _ (movz true 3 0 1 ∷ []) (movz true 4 0 0 ∷ [] ++ (pops ++ (flags ++ end))) fn _
        (movz-Gives x_reg 3 0 1 (omega arith))
        (then_code _ (movz true 4 0 0 ∷ []) (pops ++ (flags ++ end)) _ _
          (movz-Gives x_reg 4 0 0 (omega arith))
          (pops_code wide 12 11 (flags ++ end) _
            (λ f. append_instr (encode_compare_shift (register wide) 11 12 0 0 true) f >>= λ f3.
              append_instr (encode_csel x_reg 0 3 4 (condition_code op) true) f3 >>= λ f4.
              append_instr (push x_reg 0) f4)
            (omega arith) (omega arith)
            (then_code _ flags end _ _ g (
              then_code _ select (push_code true 0) _ _
                (csel-Gives 0 3 4 (condition_code op) (omega arith))
                (last_code (push x_reg 0) (push_code true 0) _
                  (push-Gives true 0 (omega arith))))))))

emit_compare_op-code :
    (op : Comparison) (wide : Bool) (fn : WasmFunction)
    → emit_operator (compare op wide) fn ≡ ok (with_code (code_of (compare op wide)) fn)
unfolding emit_compare_op
emit_compare_op-code op true fn =
    compare_code op true fn (compare_shift-Gives x_reg 11 12 (omega arith))
emit_compare_op-code op false fn =
    compare_code op false fn (compare_shift-Gives w_reg 11 12 (omega arith))

-- The emitter of an operator returns, and appends the operator's code and nothing else.
pub emit_operator-code_of :
    (op : Operator) (fn : WasmFunction) → emit_operator op fn ≡ ok (with_code (code_of op) fn)
emit_operator-code_of (const wide v) fn = emit_const-code wide v fn
emit_operator-code_of (arithmetic op wide) fn = emit_arith_op-code op wide fn
emit_operator-code_of (compare op wide) fn = emit_compare_op-code op wide fn
