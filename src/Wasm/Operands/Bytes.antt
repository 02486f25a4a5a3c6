-- ===== src/Wasm/Operands/Bytes.antt =====
-- The bytes of the operators, and the rounds of the compiler's loop on them.
use mathlib.Core.List.{append_assoc, append-nil}
use tiny_wasm.Base.{
  ℕ, suc, ◌+◌, ◌<◌, ◌≡◌, refl, sym, ap, subst, ◌∙◌, Bool, true, false, List, [], ◌∷◌, ◌++◌, length,
  some, arith, get_elem?, length-append, lt→ltb,
}
use tiny_wasm.Base.Int.{pos, negsuc}
use tiny_wasm.Base.Result.{ok, or_undefined, ◌>>=◌}
use tiny_wasm.Base.Text.{Text, text}
use tiny_wasm.Utils.Hex.{hex_pad}
use tiny_wasm.Utils.Parse.RoundTrip.{stoul16-hex_pad}
use tiny_wasm.Wasm.Function.{WasmFunction, code_at}
use tiny_wasm.Wasm.Jit.{
  jit_byte, jit_operator, jit_const32, jit_const64, find_op, advance, jit_step, jit_loop,
}
use tiny_wasm.A64.{Instruction}
use tiny_wasm.Wasm.Operands.{
  Operator, const, arithmetic, compare, Arithmetic, add, sub, mul, Comparison, eq, ne, lt_s, lt_u,
  gt_s, gt_u, le_s, le_u, ge_s, ge_u,
}
use tiny_wasm.Wasm.Operands.Emitted.{code_of, with_code, with_code-append}
use tiny_wasm.Wasm.Operands.Emitted.Operators.{emit_operator, emit_operator-code_of}

abbrev pub arithmetic_opcode : Arithmetic → Bool → Text
arithmetic_opcode add false = text "6a"
arithmetic_opcode sub false = text "6b"
arithmetic_opcode mul false = text "6c"
arithmetic_opcode add true = text "7c"
arithmetic_opcode sub true = text "7d"
arithmetic_opcode mul true = text "7e"

abbrev pub comparison_opcode : Comparison → Bool → Text
comparison_opcode eq false = text "46"
comparison_opcode ne false = text "47"
comparison_opcode lt_s false = text "48"
comparison_opcode lt_u false = text "49"
comparison_opcode gt_s false = text "4a"
comparison_opcode gt_u false = text "4b"
comparison_opcode le_s false = text "4c"
comparison_opcode le_u false = text "4d"
comparison_opcode ge_s false = text "4e"
comparison_opcode ge_u false = text "4f"
comparison_opcode eq true = text "51"
comparison_opcode ne true = text "52"
comparison_opcode lt_s true = text "53"
comparison_opcode lt_u true = text "54"
comparison_opcode gt_s true = text "55"
comparison_opcode gt_u true = text "56"
comparison_opcode le_s true = text "57"
comparison_opcode le_u true = text "58"
comparison_opcode ge_s true = text "59"
comparison_opcode ge_u true = text "5a"

abbrev const_opcode : Bool → Text
const_opcode false = text "41"
const_opcode true = text "42"

-- The compiler reads the operand of a constant as one byte without a sign.
abbrev pub IsShort : Operator → Type 0
IsShort (const wide (pos n)) = n < 64
IsShort (const wide (negsuc n)) = ⊥
IsShort (arithmetic op wide) = Unit
IsShort (compare op wide) = Unit

abbrev pub bytes_of : Operator → List Text
bytes_of (const wide (pos n)) = const_opcode wide ∷ hex_pad 2 n ∷ []
bytes_of (const wide (negsuc n)) = []
bytes_of (arithmetic op wide) = arithmetic_opcode op wide ∷ []
bytes_of (compare op wide) = comparison_opcode op wide ∷ []

arithmetic_byte :
    (op : Arithmetic) (wide : Bool) (i : ℕ) (fn : WasmFunction)
    → jit_byte (arithmetic_opcode op wide) i fn
      ≡ advance 1 i (emit_operator (arithmetic op wide) fn)
unfolding jit_byte jit_operator find_op
arithmetic_byte add false i fn = refl
arithmetic_byte add true i fn = refl
arithmetic_byte _ false i fn = refl
arithmetic_byte _ true i fn = refl

comparison_byte :
    (op : Comparison) (wide : Bool) (i : ℕ) (fn : WasmFunction)
    → jit_byte (comparison_opcode op wide) i fn ≡ advance 1 i (emit_operator (compare op wide) fn)
unfolding jit_byte jit_operator find_op
comparison_byte eq false i fn = refl
comparison_byte eq true i fn = refl
comparison_byte _ false i fn = refl
comparison_byte _ true i fn = refl

const_byte :
    (wide : Bool) (n i : ℕ) (fn : WasmFunction)
    → n < 256
    → code_at fn (i + 1) ≡ ok (hex_pad 2 n)
    → jit_byte (const_opcode wide) i fn ≡ advance 2 i (emit_operator (const wide (pos n)) fn)
unfolding jit_byte jit_const32 jit_const64
const_byte true n i fn h e = rw (e, stoul16-hex_pad n h) refl
const_byte false n i fn h e = rw (e, stoul16-hex_pad n h) refl

-- An operator's bytes stand at `i`.
abbrev pub HasBytes : List Text → ℕ → List Text → Type 0
HasBytes code i [] = Unit
HasBytes code i (b ∷ bs) = (get_elem? code i ≡ some b) × HasBytes code (i + 1) bs

pub operator_step :
    (op : Operator) (i : ℕ) (fn : WasmFunction)
    → IsShort op
    → HasBytes fn.code_vec i (bytes_of op)
    → jit_step i fn ≡ ok (i + length (bytes_of op), with_code (code_of op) fn)
unfolding jit_step
operator_step (const wide (pos n)) i fn h (first, (second, _)) =
    ap (λ o. or_undefined o >>= λ b. jit_byte b i fn) first
    ∙ (const_byte wide n i fn (omega arith) (ap or_undefined second)
        ∙ ap (advance 2 i) (emit_operator-code_of (const wide (pos n)) fn))
operator_step (const wide (negsuc n)) i fn h b = absurd h
operator_step (arithmetic op wide) i fn h (first, _) =
    ap (λ o. or_undefined o >>= λ b. jit_byte b i fn) first
    ∙ (arithmetic_byte op wide i fn
        ∙ ap (advance 1 i) (emit_operator-code_of (arithmetic op wide) fn))
operator_step (compare op wide) i fn h (first, _) =
    ap (λ o. or_undefined o >>= λ b. jit_byte b i fn) first
    ∙ (comparison_byte op wide i fn ∙ ap (advance 1 i) (emit_operator-code_of (compare op wide) fn))

abbrev pub AreShort : List Operator → Type 0
AreShort [] = Unit
AreShort (op ∷ ops) = IsShort op × AreShort ops

abbrev pub bytes_of_all : List Operator → List Text
bytes_of_all [] = []
bytes_of_all (op ∷ ops) = bytes_of op ++ bytes_of_all ops

get_elem?-append :
    (before : List Text) (b : Text) (bs : List Text)
    → get_elem? (before ++ b ∷ bs) (length before) ≡ some b
get_elem?-append [] b bs = refl
get_elem?-append (c ∷ before) b bs = get_elem?-append before b bs

pub HasBytes-append :
    (before bs after : List Text) → HasBytes (before ++ (bs ++ after)) (length before) bs
HasBytes-append before [] after = tt
HasBytes-append before (b ∷ bs) after = (
  get_elem?-append before b (bs ++ after),
  subst (λ i. HasBytes (before ++ b ∷ (bs ++ after)) i bs)
      (length-append before (b ∷ []) ∙ omega arith)
      (subst (λ code. HasBytes code (length (before ++ b ∷ [])) bs)
        (append_assoc before (b ∷ []) (bs ++ after)) (HasBytes-append (before ++ b ∷ []) bs after)),
)

abbrev pub code_of_all : List Operator → List Instruction
code_of_all [] = []
code_of_all (op ∷ ops) = code_of op ++ code_of_all ops

-- A round of the loop at an operator.
loop_round :
    (op : Operator) (i fuel : ℕ) (fn : WasmFunction)
    → i < length fn.code_vec
    → IsShort op
    → HasBytes fn.code_vec i (bytes_of op)
    → jit_loop (suc fuel) i fn
      ≡ jit_loop fuel (i + length (bytes_of op)) (with_code (code_of op) fn)
unfolding jit_loop
loop_round op i fuel fn inside h b =
    rw (lt→ltb i (length fn.code_vec) inside, operator_step op i fn h b) refl

pub bytes_of-inside : (op : Operator) → IsShort op → 0 < length (bytes_of op)
bytes_of-inside (const wide (pos n)) h = omega arith
bytes_of-inside (const wide (negsuc n)) h = absurd h
bytes_of-inside (arithmetic op wide) h = omega arith
bytes_of-inside (compare op wide) h = omega arith

pub jit_loop-code_of_all :
    (ops : List Operator) (before after : List Text) (fuel : ℕ) (fn : WasmFunction)
    → AreShort ops
    → fn.code_vec ≡ before ++ (bytes_of_all ops ++ after)
    → jit_loop (length ops + fuel) (length before) fn
      ≡ jit_loop fuel (length before + length (bytes_of_all ops)) (with_code (code_of_all ops) fn)
jit_loop-code_of_all [] before after fuel fn h code =
    ap (λ f. jit_loop f (length before) fn) (omega arith)
    ∙ (ap (λ i. jit_loop fuel i fn) (omega arith)
        ∙ ap (λ t. jit_loop fuel (length before + 0) (record fn { wasm_instructions = t }))
            (sym (append-nil fn.wasm_instructions)))
jit_loop-code_of_all (op ∷ ops) before after fuel fn (short, rest) code =
    let more = bytes_of_all ops ++ after in
    let apart : fn.code_vec ≡ before ++ (bytes_of op ++ more) =
      code ∙ ap (λ t. before ++ t) (append_assoc (bytes_of op) (bytes_of_all ops) after) in
    let joined : fn.code_vec ≡ (before ++ bytes_of op) ++ more =
      apart ∙ sym (append_assoc before (bytes_of op) more) in
    let there = length-append before (bytes_of op) in
    let inside : length before < length fn.code_vec = omega (
      arith,
      ap length joined,
      there,
      length-append (before ++ bytes_of op) more,
      bytes_of-inside op short,
    ) in
    let here : HasBytes fn.code_vec (length before) (bytes_of op) =
      subst (λ c. HasBytes c (length before) (bytes_of op)) (sym apart)
        (HasBytes-append before (bytes_of op) more) in
    let fn' = with_code (code_of op) fn in
    ap (λ f. jit_loop f (length before) fn) (omega arith)
    ∙ (loop_round op (length before) (length ops + fuel) fn inside short here
        ∙ (ap (λ i. jit_loop (length ops + fuel) i fn') (sym there)
            ∙ (jit_loop-code_of_all ops (before ++ bytes_of op) after fuel fn' rest joined
                ∙ (ap (λ i. jit_loop fuel i (with_code (code_of_all ops) fn'))
                      (omega (arith, there, length-append (bytes_of op) (bytes_of_all ops)))
                    ∙ ap (jit_loop fuel (length before + length (bytes_of_all (op ∷ ops))))
                        (with_code-append (code_of op) (code_of_all ops) fn)))))
