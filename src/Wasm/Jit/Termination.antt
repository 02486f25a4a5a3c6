-- ===== src/Wasm/Jit/Termination.antt =====
-- When the loop of `jiting_wasm_code` ends.
use tiny_wasm.Base.{
  ℕ, zero, suc, ◌+◌, ◌-◌, ◌≤◌, ◌<◌, ◌≡◌, refl, sym, ap, ◌∙◌, subst, Bool, true, false, List, [],
  ◌∷◌, arith, length, get_elem?, get_elem?-lt, lt→ltb, ltb-false, if◌then◌else◌, Option, none, some,
}
use tiny_wasm.Base.Result.{
  Result, ok, err, run_on, or_undefined, ◌>>=◌, Returns, Returns-bind, Returns-ok,
}
use tiny_wasm.Base.Text.{Text, text, text_eq}
use tiny_wasm.Opcode.Base.{RegType, encode_nop}
use tiny_wasm.Wasm.Function.{WasmFunction, append_instr}
use tiny_wasm.Wasm.Emit.{emit_if_op, emit_else_op, emit_end_op}
use tiny_wasm.Wasm.Jit.{
  compare_ops, arith_ops, find_op, advance, common_local_op, jit_const32, jit_const64, jit_float32,
  jit_float64, jit_arith, jit_compare, jit_operator, jit_byte, jit_step, jit_loop,
}
use tiny_wasm.Wasm.Assemble.Laid.{Source, IsLaid}
use tiny_wasm.Wasm.Assemble.Loop.{jit_step-IsLaid}

-- The bytes that an instruction takes, by its first byte, and 0 for one without a branch.
abbrev pub immediates : List (Text × ℕ)
immediates =
    (text "01", 1)
    ∷ (text "04", 2)
    ∷ (text "05", 1)
    ∷ (text "0f", 1)
    ∷ (text "0b", 1)
    ∷ (text "20", 2)
    ∷ (text "21", 2)
    ∷ (text "22", 2)
    ∷ (text "41", 2)
    ∷ (text "42", 2)
    ∷ (text "43", 5)
    ∷ (text "44", 9)
    ∷ []

abbrev operator_width : Option (RegType × Text) → Option (ℕ × (ℕ × Bool)) → ℕ
operator_width none none = 0
operator_width none (some b) = 1
operator_width (some a) o = 1

abbrev width_or : Option ℕ → ℕ → ℕ
width_or none d = d
width_or (some w) d = w

-- The bytes by which the loop moves on: 0 where no branch takes the byte, and one byte of operand for a
-- constant, as the compiler reads it.
unfoldable pub opcode_width : Text → ℕ
unfolding find_op
opcode_width c =
    width_or (find_op immediates c) (operator_width (find_op compare_ops c) (find_op arith_ops c))

abbrev At : ℕ → ℕ × WasmFunction → Type 0
At j s = s.0 ≡ j

arrives : (n i j : ℕ) (m : Result WasmFunction) → i + n ≡ j → Returns (At j) (advance n i m)
arrives n i j m e = Returns-bind (At j) m _ λ f. Returns-ok (At j) (i + n, f) e

operator_arrives :
    (c : Text) (i : ℕ) (fn : WasmFunction)
    → Returns
        (At (i + operator_width (find_op compare_ops c) (find_op arith_ops c)))
        (jit_operator c i fn)
unfolding jit_operator
operator_arrives c i fn = compares (find_op compare_ops c)
  where
    ariths :
        (o : Option (ℕ × (ℕ × Bool))) → Returns (At (i + operator_width none o)) (jit_arith o i fn)
    ariths none = Returns-ok (At (i + 0)) (i, fn) (omega arith)
    ariths (some (ty, (op, sg))) = arrives 1 i (i + 1) _ refl

    compares :
        (o : Option (RegType × Text))
        → Returns (At (i + operator_width o (find_op arith_ops c))) (jit_compare o c i fn)
    compares none = ariths (find_op arith_ops c)
    compares (some (r, k)) = arrives 1 i (i + 1) _ refl

choose_width :
    (i : ℕ) (b : Bool) (v : ℕ) (rest : Option ℕ) (d : ℕ) {x y : Result (ℕ × WasmFunction)}
    → Returns (At (i + v)) x
    → Returns (At (i + width_or rest d)) y
    → Returns (At (i + width_or (if b then some v else rest) d)) (if b then x else y)
choose_width i true v rest d hx hy = hx
choose_width i false v rest d hx hy = hy

-- A round that returns moves on by the bytes that the loop takes for the instruction.
jit_byte-width :
    (c : Text) (i : ℕ) (fn : WasmFunction) → Returns (At (i + opcode_width c)) (jit_byte c i fn)
unfolding jit_byte opcode_width
jit_byte-width c i fn =
    let d = operator_width (find_op compare_ops c) (find_op arith_ops c) in
    choose_width i (text_eq c (text "01")) 1 _ d
      (arrives 1 i (i + 1) (append_instr (encode_nop true) fn) refl)
      (choose_width i (text_eq c (text "04")) 2 _ d
        (arrives 2 i (i + 2) (emit_if_op (i + 1) fn) refl)
        (choose_width i (text_eq c (text "05")) 1 _ d (arrives 1 i (i + 1) (emit_else_op fn) refl) (
          choose_width i (text_eq c (text "0f")) 1 _ d (arrives 1 i (i + 1) (ok fn) refl) (
            choose_width i (text_eq c (text "0b")) 1 _ d (arrives 1 i (i + 1) (emit_end_op fn) refl)
              (choose_width i (text_eq c (text "20")) 2 _ d
                (arrives 2 i (i + 2) (common_local_op i (text "get") fn) refl)
                (choose_width i (text_eq c (text "21")) 2 _ d
                  (arrives 2 i (i + 2) (common_local_op i (text "set") fn) refl)
                  (choose_width i (text_eq c (text "22")) 2 _ d
                    (arrives 2 i (i + 2) (common_local_op i (text "tee") fn) refl)
                    (choose_width i (text_eq c (text "41")) 2 _ d
                      (arrives 2 i (i + 2) (jit_const32 i fn) refl)
                      (choose_width i (text_eq c (text "42")) 2 _ d
                        (arrives 2 i (i + 2) (jit_const64 i fn) refl)
                        (choose_width i (text_eq c (text "43")) 5 _ d
                          (arrives 5 i (i + 5) (jit_float32 i fn) refl)
                          (choose_width i (text_eq c (text "44")) 9 _ d
                            (arrives 9 i (i + 9) (jit_float64 i fn) refl)
                            (operator_arrives c i fn))))))))))))

choose_stays {ℓ} :
    {A : Type ℓ} (b : Bool) (v : ℕ) (rest : Option ℕ) (d : ℕ) (x : A) {y r : A}
    → 0 < v
    → (width_or rest d ≡ 0 → y ≡ r)
    → width_or (if b then some v else rest) d ≡ 0
    → (if b then x else y) ≡ r
choose_stays true v rest d x p k h = absurd (omega arith)
choose_stays false v rest d x p k h = k h

operator_stays :
    (c : Text) (i : ℕ) (fn : WasmFunction)
    → operator_width (find_op compare_ops c) (find_op arith_ops c) ≡ 0
    → jit_operator c i fn ≡ ok (i, fn)
unfolding jit_operator
operator_stays c i fn = stays (find_op compare_ops c) (find_op arith_ops c) refl
  where
    stays :
        (o : Option (RegType × Text)) (a : Option (ℕ × (ℕ × Bool)))
        → find_op arith_ops c ≡ a
        → operator_width o a ≡ 0
        → jit_compare o c i fn ≡ ok (i, fn)
    stays none none e h = rw e
    stays none (some b) e h = absurd (omega arith)
    stays (some a) o e h = absurd (omega arith)

-- A byte without a branch, of width 0, leaves index and state as they are.
pub jit_byte-stays :
    (c : Text) (i : ℕ) (fn : WasmFunction) → opcode_width c ≡ 0 → jit_byte c i fn ≡ ok (i, fn)
unfolding jit_byte opcode_width
jit_byte-stays c i fn =
    let d = operator_width (find_op compare_ops c) (find_op arith_ops c) in
    choose_stays (text_eq c (text "01")) 1 _ d _ (omega arith) (
      choose_stays (text_eq c (text "04")) 2 _ d _ (omega arith) (
        choose_stays (text_eq c (text "05")) 1 _ d _ (omega arith) (
          choose_stays (text_eq c (text "0f")) 1 _ d _ (omega arith) (
            choose_stays (text_eq c (text "0b")) 1 _ d _ (omega arith) (
              choose_stays (text_eq c (text "20")) 2 _ d _ (omega arith) (
                choose_stays (text_eq c (text "21")) 2 _ d _ (omega arith) (
                  choose_stays (text_eq c (text "22")) 2 _ d _ (omega arith) (
                    choose_stays (text_eq c (text "41")) 2 _ d _ (omega arith) (
                      choose_stays (text_eq c (text "42")) 2 _ d _ (omega arith) (
                        choose_stays (text_eq c (text "43")) 5 _ d _ (omega arith) (
                          choose_stays (text_eq c (text "44")) 9 _ d _ (omega arith)
                            (operator_stays c i fn))))))))))))

-- The code from `i` on is instructions that have branches, to its end.
pub data Decodes (code : List Text) : ℕ → Type 0 where
  end : {i : ℕ} → length code ≤ i → Decodes code i
  next :
      {i : ℕ} (c : Text)
      → get_elem? code i ≡ some c
      → 0 < opcode_width c
      → Decodes code (i + opcode_width c)
      → Decodes code i

at_code :
    (fn : WasmFunction) (i : ℕ) (c : Text)
    → get_elem? fn.code_vec i ≡ some c
    → jit_step i fn ≡ jit_byte c i fn
unfolding jit_step
at_code fn i c e = ap (λ o. or_undefined o >>= λ b. jit_byte b i fn) e

-- The result of one round, and then the loop.
next_round :
    (m : Result (ℕ × WasmFunction)) (k : ℕ × WasmFunction → Option (Result WasmFunction))
    → ((s : ℕ × WasmFunction) → m ≡ ok s → (r : Result WasmFunction) × (k s ≡ some r))
    → (r : Result WasmFunction) × (run_on m k ≡ some r)
next_round (ok s) k h = h s refl
next_round (err e) k h = (err e, refl)

-- On a laid out function whose code decodes from `i` on, more fuel than bytes are left is enough: the
-- loop ends, with a state or with what an emitter throws.
pub jit_loop_ends :
    (code : List Text) (pre : Text) (i fuel : ℕ) (fn : WasmFunction)
    → Decodes code i
    → IsLaid ((code, pre), []) fn
    → length code - i < fuel
    → (r : Result WasmFunction) × (jit_loop fuel i fn ≡ some r)
unfolding jit_loop
jit_loop_ends code pre i zero fn d laid h = absurd (omega arith)
jit_loop_ends code pre i (suc fuel) fn (end over) laid h =
    let past : length fn.code_vec ≤ i = rw (ap (λ (c : Source). c.0) laid.code_eq) over in
    (ok fn, rw (ltb-false i (length fn.code_vec) past))
jit_loop_ends code pre i (suc fuel) fn (next c at wide rest) laid h =
    let here : get_elem? fn.code_vec i ≡ some c = rw (ap (λ (c : Source). c.0) laid.code_eq) at in
    let inside : i < length code = get_elem?-lt code i c at in
    let inside' : i < length fn.code_vec = get_elem?-lt fn.code_vec i c here in
    rw (lt→ltb i (length fn.code_vec) inside') (
      next_round (jit_step i fn) _ λ s e.
        let there : s.0 ≡ i + opcode_width c =
          jit_byte-width c i fn s (sym (at_code fn i c here) ∙ e) in
        jit_loop_ends code pre s.0 fuel s.1 (subst (Decodes code) (sym there) rest)
          (jit_step-IsLaid ((code, pre), []) fn laid i s e) (omega arith))

-- From a byte of the code without a branch the loop does not end, whatever the fuel.
pub jit_loop_stuck :
    (fuel i : ℕ) (fn : WasmFunction) (c : Text)
    → get_elem? fn.code_vec i ≡ some c
    → opcode_width c ≡ 0
    → jit_loop fuel i fn ≡ none
unfolding jit_loop
jit_loop_stuck zero i fn c at h = refl
jit_loop_stuck (suc fuel) i fn c at h =
    rw
      (
        lt→ltb i (length fn.code_vec) (get_elem?-lt fn.code_vec i c at),
        at_code fn i c at,
        jit_byte-stays c i fn h,
      )
      (jit_loop_stuck fuel i fn c at h)
