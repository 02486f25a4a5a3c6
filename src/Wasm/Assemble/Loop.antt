-- ===== src/Wasm/Assemble/Loop.antt =====
-- The loop over the code keeps the text laid out.
use tiny_wasm.Base.{
  ℕ, zero, suc, ◌+◌, ◌-◌, refl, Bool, true, false, ltb, if◌then◌else◌, Bool-cases, inl, inr, Option,
  none, some, length,
}
use tiny_wasm.Base.Result.{
  Result, ok, err, run_on, ended, Returns, Returns-bind, Returns-bind_with, Returns-ok,
}
use tiny_wasm.Base.Text.{Text, text, text_eq}
use tiny_wasm.Opcode.Base.{RegType}
use tiny_wasm.Opcode.IsWord.{encode_nop-IsWord}
use tiny_wasm.Utils.Parse.{stoul16}
use tiny_wasm.Wasm.Types.{TypeCategory, param, local}
use tiny_wasm.Wasm.Function.{WasmFunction, code_at}
use tiny_wasm.Wasm.Jit.{
  local_op, common_local_op, compare_ops, arith_ops, find_op, bytes_from, advance, jit_arith,
  jit_compare, jit_operator, jit_const32, jit_const64, jit_float32, jit_float64, jit_byte, jit_step,
  jit_loop,
}
use tiny_wasm.Wasm.Assemble.Laid.{Start, IsLaid}
use tiny_wasm.Wasm.Assemble.Emits.{
  then_value, done, thrown-IsLaid, word-IsLaid, emit_get-IsLaid, emit_set-IsLaid, emit_const-IsLaid,
  emit_compare_op-IsLaid, emit_arith_op-IsLaid, emit_if_op-IsLaid, emit_else_op-IsLaid,
  emit_end_op-IsLaid,
}

-- A test that chooses between two results.
choose {ℓ κ} :
    {A : Type ℓ} (P : A → Type κ) (b : Bool) {x y : Result A}
    → Returns P x
    → Returns P y
    → Returns P (if b then x else y)
choose P true hx hy = hx
choose P false hx hy = hy

module _ (cv : Start) (fn : WasmFunction) (laid : IsLaid cv fn) where
  local_op-IsLaid :
      (op : Text) (i : ℕ) (c : TypeCategory) → Returns (IsLaid cv) (local_op op i c fn)
  unfolding local_op
  local_op-IsLaid op i c =
      choose (IsLaid cv) (text_eq op (text "get")) (emit_get-IsLaid cv fn laid i c) (
        choose (IsLaid cv) (text_eq op (text "set")) (emit_set-IsLaid cv fn laid i c false) (
          choose (IsLaid cv) (text_eq op (text "tee")) (emit_set-IsLaid cv fn laid i c true)
            (thrown-IsLaid cv _)))

  common_local_op-IsLaid : (i : ℕ) (op : Text) → Returns (IsLaid cv) (common_local_op i op fn)
  unfolding common_local_op
  common_local_op-IsLaid i op = then_value cv (code_at fn (i + 1)) _ λ d.
      then_value cv (stoul16 d) _ λ v.
        choose (IsLaid cv) (ltb v (length fn.param_data + length fn.local_data))
          (choose (IsLaid cv) (ltb v (length fn.param_data)) (local_op-IsLaid op v param)
            (local_op-IsLaid op (v - length fn.param_data) local))
          (thrown-IsLaid cv _)

  jit_const32-IsLaid : (i : ℕ) → Returns (IsLaid cv) (jit_const32 i fn)
  unfolding jit_const32
  jit_const32-IsLaid i =
      then_value cv (code_at fn (i + 1)) _
        λ d. then_value cv (stoul16 d) _ λ v. emit_const-IsLaid cv fn laid _

  jit_const64-IsLaid : (i : ℕ) → Returns (IsLaid cv) (jit_const64 i fn)
  unfolding jit_const64
  jit_const64-IsLaid i =
      then_value cv (code_at fn (i + 1)) _
        λ d. then_value cv (stoul16 d) _ λ v. emit_const-IsLaid cv fn laid _

  jit_float32-IsLaid : (i : ℕ) → Returns (IsLaid cv) (jit_float32 i fn)
  unfolding jit_float32
  jit_float32-IsLaid i =
      then_value cv (bytes_from 4 (i + 1) fn) _ λ b. emit_const-IsLaid cv fn laid _

  jit_float64-IsLaid : (i : ℕ) → Returns (IsLaid cv) (jit_float64 i fn)
  unfolding jit_float64
  jit_float64-IsLaid i =
      then_value cv (bytes_from 7 (i + 1) fn) _ λ b. emit_const-IsLaid cv fn laid _

  abbrev Next : ℕ × WasmFunction → Type 0
  Next s = IsLaid cv s.1

  advanced :
      (n i : ℕ) (m : Result WasmFunction) → Returns (IsLaid cv) m → Returns Next (advance n i m)
  advanced n i m h = Returns-bind_with Next (IsLaid cv) m _ h λ f l. Returns-ok Next (i + n, f) l

  jit_arith-IsLaid : (o : Option (ℕ × (ℕ × Bool))) (i : ℕ) → Returns Next (jit_arith o i fn)
  jit_arith-IsLaid none i = Returns-ok Next (i, fn) laid
  jit_arith-IsLaid (some (ty, (op, sg))) i =
      advanced 1 i _ (emit_arith_op-IsLaid cv fn laid ty op sg)

  jit_compare-IsLaid :
      (o : Option (RegType × Text)) (c : Text) (i : ℕ) → Returns Next (jit_compare o c i fn)
  jit_compare-IsLaid none c i = jit_arith-IsLaid (find_op arith_ops c) i
  jit_compare-IsLaid (some (r, k)) c i = advanced 1 i _ (emit_compare_op-IsLaid cv fn laid r k)

  jit_operator-IsLaid : (c : Text) (i : ℕ) → Returns Next (jit_operator c i fn)
  unfolding jit_operator
  jit_operator-IsLaid c i = jit_compare-IsLaid (find_op compare_ops c) c i

  jit_byte-IsLaid : (c : Text) (i : ℕ) → Returns Next (jit_byte c i fn)
  unfolding jit_byte
  jit_byte-IsLaid c i =
      choose Next (text_eq c (text "01"))
        (advanced 1 i _ (word-IsLaid cv fn laid _ (encode_nop-IsWord true)))
        (choose Next (text_eq c (text "04")) (advanced 2 i _ (emit_if_op-IsLaid cv fn laid (i + 1)))
          (choose Next (text_eq c (text "05")) (advanced 1 i _ (emit_else_op-IsLaid cv fn laid)) (
            choose Next (text_eq c (text "0f")) (advanced 1 i _ (done cv fn laid)) (
              choose Next (text_eq c (text "0b")) (advanced 1 i _ (emit_end_op-IsLaid cv fn laid)) (
                choose Next (text_eq c (text "20"))
                  (advanced 2 i _ (common_local_op-IsLaid i (text "get")))
                  (choose Next (text_eq c (text "21"))
                    (advanced 2 i _ (common_local_op-IsLaid i (text "set")))
                    (choose Next (text_eq c (text "22"))
                      (advanced 2 i _ (common_local_op-IsLaid i (text "tee")))
                      (choose Next (text_eq c (text "41")) (advanced 2 i _ (jit_const32-IsLaid i)) (
                        choose Next (text_eq c (text "42")) (advanced 2 i _ (jit_const64-IsLaid i))
                          (choose Next (text_eq c (text "43"))
                            (advanced 5 i _ (jit_float32-IsLaid i))
                            (choose Next (text_eq c (text "44"))
                              (advanced 9 i _ (jit_float64-IsLaid i))
                              (jit_operator-IsLaid c i))))))))))))

  pub jit_step-IsLaid : (i : ℕ) → Returns Next (jit_step i fn)
  unfolding jit_step
  jit_step-IsLaid i = Returns-bind Next (code_at fn i) _ λ c. jit_byte-IsLaid c i

run_on-IsLaid :
    (cv : Start) (m : Result (ℕ × WasmFunction))
    (k : ℕ × WasmFunction → Option (Result WasmFunction))
    → Returns (λ (s : ℕ × WasmFunction). IsLaid cv s.1) m
    → ((s : ℕ × WasmFunction) → IsLaid cv s.1 → Returns (IsLaid cv) (ended (k s)))
    → Returns (IsLaid cv) (ended (run_on m k))
run_on-IsLaid cv (ok s) k h f = f s (h s refl)
run_on-IsLaid cv (err e) k h f = thrown-IsLaid cv e

-- With any fuel, the loop over the wasm code keeps the layout: whatever it returns from a laid out
-- function is laid out.
pub jit_loop-IsLaid :
    (cv : Start) (fuel i : ℕ) (fn : WasmFunction)
    → IsLaid cv fn
    → Returns (IsLaid cv) (ended (jit_loop fuel i fn))
unfolding jit_loop
jit_loop-IsLaid cv zero i fn laid = thrown-IsLaid cv _
jit_loop-IsLaid cv (suc fuel) i fn laid = elim (Bool-cases (ltb i (length fn.code_vec))) [
  | inl e ↦ rw e (
      run_on-IsLaid cv (jit_step i fn) _ (jit_step-IsLaid cv fn laid i)
        λ s l. jit_loop-IsLaid cv fuel s.0 s.1 l)
  | inr e ↦ rw e (done cv fn laid)
]
