-- ===== src/Wasm/Assemble/Emits.antt =====
-- Each emitter of include/Wasm/Emit.hpp keeps the text laid out, whatever it emits.
use tiny_wasm.Base.{ℕ, Bool, true, false, List, [], ◌∷◌, ◌++◌, ◌==◌, Bool-cases, inl, inr}
use tiny_wasm.Base.Int.{ℤ, negsuc}
use tiny_wasm.Base.Result.{
  Result, Exception, ok, err, ◌>>=◌, Returns, Returns-bind, Returns-bind_with, Returns-ok,
}
use tiny_wasm.Base.Text.{Text, text}
use tiny_wasm.Opcode.Base.{RegType, w_reg, x_reg, s_reg, d_reg, str, ldr}
use tiny_wasm.Opcode.IsWord
use tiny_wasm.Wasm.Types.{
  WasmValue, int32, int64, float32, float64, TypeCategory, ControlFlowElement, cond_table, at,
}
use tiny_wasm.Wasm.Function.{WasmFunction, code_at, append_instr, construct_full_instr}
use tiny_wasm.Wasm.Branch.{fake_insert_branch}
use tiny_wasm.Wasm.Emit.{
  emit_get, emit_set, emit_const, int_reg, emit_compare_op, mov_int, emit_div, int32_min, int64_min,
  arith_reg, is_arith, emit_arith_body, emit_arith_op, if_signature, emit_if_op, pop_from,
  pop_control, emit_else_op, emit_end_op, emit_ret,
}
use tiny_wasm.Wasm.Assemble.Laid.{
  Start, IsLaid, IsCode, IsCode-append, construct_full_instr-IsLaid, append_instr-IsLaid,
  fake_insert_branch-IsLaid, insert_label-IsLaid,
}
use tiny_wasm.Wasm.Assemble.Codes.{
  IsCode-of_word, load_store_sp-IsCode, push-IsCode, pop-IsCode, mov_int32-IsCode, mov_int64-IsCode,
}

module _ (cv : Start) where
  pub then-IsLaid :
      (m : Result WasmFunction) (f : WasmFunction → Result WasmFunction)
      → Returns (IsLaid cv) m
      → ((fn : WasmFunction) → IsLaid cv fn → Returns (IsLaid cv) (f fn))
      → Returns (IsLaid cv) (m >>= f)
  then-IsLaid m f h k = Returns-bind_with (IsLaid cv) (IsLaid cv) m f h k

  pub then_text :
      (e : Result Text) (f : Text → Result WasmFunction)
      → Returns IsCode e
      → ((t : Text) → IsCode t → Returns (IsLaid cv) (f t))
      → Returns (IsLaid cv) (e >>= f)
  then_text e f h k = Returns-bind_with (IsLaid cv) IsCode e f h k

  pub then_value {ℓ} :
      {A : Type ℓ} (m : Result A) (f : A → Result WasmFunction)
      → ((a : A) → Returns (IsLaid cv) (f a))
      → Returns (IsLaid cv) (m >>= f)
  then_value m f h = Returns-bind (IsLaid cv) m f h

  pub done : (fn : WasmFunction) → IsLaid cv fn → Returns (IsLaid cv) (ok fn)
  done fn h = Returns-ok (IsLaid cv) fn h

  pub thrown-IsLaid : (e : Exception) → Returns (IsLaid cv) (err e)
  thrown-IsLaid e fn p = absurd (cc)

  -- Two pieces, appended together.
  pub both :
      (fn : WasmFunction) (a b : Result Text)
      → IsLaid cv fn
      → Returns IsCode a
      → Returns IsCode b
      → Returns (IsLaid cv) (a >>= λ s. b >>= λ t. ok (construct_full_instr (s ++ t) fn))
  both fn a b laid ha hb = then_text a _ ha λ s hs.
      then_text b _ hb
        λ t ht. done _ (construct_full_instr-IsLaid cv fn laid (s ++ t) (IsCode-append s t hs ht))

  module _ (fn : WasmFunction) (laid : IsLaid cv fn) where
    pub emit_get-IsLaid : (i : ℕ) (c : TypeCategory) → Returns (IsLaid cv) (emit_get i c fn)
    unfolding emit_get
    emit_get-IsLaid i c = both fn _ _ laid (load_store_sp-IsCode _ ldr 11 _) (push-IsCode _ 11)

    pub emit_set-IsLaid :
        (i : ℕ) (c : TypeCategory) (tee : Bool) → Returns (IsLaid cv) (emit_set i c tee fn)
    unfolding emit_set
    emit_set-IsLaid i c tee =
        both fn _ _ laid (pop-IsCode _ tee 11) (load_store_sp-IsCode _ str 11 _)

    pub emit_const-IsLaid : (v : WasmValue) → Returns (IsLaid cv) (emit_const v fn)
    unfolding emit_const
    emit_const-IsLaid (float32 v) = thrown-IsLaid _
    emit_const-IsLaid (float64 v) = thrown-IsLaid _
    emit_const-IsLaid (int32 v) =
        both fn _ _ laid (mov_int32-IsCode 11 v true) (push-IsCode w_reg 11)
    emit_const-IsLaid (int64 v) =
        both fn _ _ laid (mov_int64-IsCode 11 v true) (push-IsCode x_reg 11)

    pub word-IsLaid :
        (e : Result Text) → Returns IsWord.IsWord e → Returns (IsLaid cv) (append_instr e fn)
    word-IsLaid e h = append_instr-IsLaid cv fn laid e (IsCode-of_word e h)

    pub code-IsLaid : (e : Result Text) → Returns IsCode e → Returns (IsLaid cv) (append_instr e fn)
    code-IsLaid e h = append_instr-IsLaid cv fn laid e h

  -- One instruction appended, and then the rest.
  pub then_word :
      (fn : WasmFunction) (e : Result Text) (f : WasmFunction → Result WasmFunction)
      → IsLaid cv fn
      → Returns IsWord.IsWord e
      → ((fn' : WasmFunction) → IsLaid cv fn' → Returns (IsLaid cv) (f fn'))
      → Returns (IsLaid cv) (append_instr e fn >>= f)
  then_word fn e f laid h k = then-IsLaid (append_instr e fn) f (word-IsLaid fn laid e h) k

  pub then_code_of :
      (fn : WasmFunction) (e : Result Text) (f : WasmFunction → Result WasmFunction)
      → IsLaid cv fn
      → Returns IsCode e
      → ((fn' : WasmFunction) → IsLaid cv fn' → Returns (IsLaid cv) (f fn'))
      → Returns (IsLaid cv) (append_instr e fn >>= f)
  then_code_of fn e f laid h k = then-IsLaid (append_instr e fn) f (code-IsLaid fn laid e h) k

  pub emit_compare_op-IsLaid :
      (fn : WasmFunction)
      → IsLaid cv fn
      → (r : RegType) (c : Text) → Returns (IsLaid cv) (emit_compare_op r c fn)
  unfolding emit_compare_op
  emit_compare_op-IsLaid fn laid r c = then_value (int_reg r) _ λ r'.
      then_word fn _ _ laid (IsWord.encode_movz-IsWord 3 1 x_reg 0 true) λ f1 l1.
        then_word f1 _ _ l1 (IsWord.encode_movz-IsWord 4 0 x_reg 0 true) λ f2 l2.
          then_text _ _ (pop-IsCode r' false 12) λ s hs.
            then_text _ _ (pop-IsCode r' false 11) λ t ht.
              then_word _ _ _
                (construct_full_instr-IsLaid cv f2 l2 (s ++ t) (IsCode-append s t hs ht))
                (IsWord.encode_compare_shift-IsWord r' 11 12 0 0 true)
                λ f3 l3. then_value (at cond_table c) _ λ v.
                  then_word f3 _ _ l3 (IsWord.encode_csel-IsWord x_reg 0 3 4 v true)
                    λ f4 l4. code-IsLaid f4 l4 _ (push-IsCode x_reg 0)

  mov_int-IsCode : (r : RegType) (a b : ℤ) → Returns IsCode (mov_int r a b)
  mov_int-IsCode w_reg a b = mov_int32-IsCode 5 a true
  mov_int-IsCode x_reg a b = mov_int64-IsCode 5 b true
  mov_int-IsCode s_reg a b = mov_int32-IsCode 5 a true
  mov_int-IsCode d_reg a b = mov_int32-IsCode 5 a true

  -- A branch and a label never fail.
  pub fake : (fn : WasmFunction) (l b : Text) → IsLaid cv fn → IsLaid cv (fake_insert_branch l b fn)
  fake fn l b laid = fake_insert_branch-IsLaid cv fn laid l b

  pub emit_div-IsLaid :
      (fn : WasmFunction)
      → IsLaid cv fn
      → (r : RegType) (sg : Bool) → Returns (IsLaid cv) (emit_div r sg fn)
  unfolding emit_div
  emit_div-IsLaid fn laid r sg =
      then_word fn _ _ laid (IsWord.encode_compare_imm-IsWord r 11 0 false true) λ f1 l1.
        then_code_of _ _ _ (fake _ _ _ l1) (mov_int-IsCode r (negsuc 0) (negsuc 0)) λ f2 l2.
          then_word f2 _ _ l2 (IsWord.encode_compare_shift-IsWord r 11 5 0 0 true) λ f3 l3.
            then_code_of _ _ _ (fake _ _ _ l3) (mov_int-IsCode r int32_min int64_min) λ f4 l4.
              then_word f4 _ _ l4 (IsWord.encode_compare_shift-IsWord r 12 5 0 0 true) λ f5 l5.
                let l6 = fake _ (text "normal_div") (text "bne") l5 in
                let l7 = fake _ (text "preparelongjmp") (text "b") l6 in
                let l8 = insert_label-IsLaid cv _ l7 (text "normal_div") in
                word-IsLaid _ l8 _ (IsWord.encode_div-IsWord r sg 11 12 11 true)

  emit_arith_body-IsLaid :
      (fn : WasmFunction)
      → IsLaid cv fn
      → (r : RegType) (op : ℕ) (sg : Bool) → Returns (IsLaid cv) (emit_arith_body r op sg fn)
  unfolding emit_arith_body
  emit_arith_body-IsLaid fn laid r op sg = elim (Bool-cases (op == b'+')) [
    | inl e ↦
        rw e (
          word-IsLaid fn laid _
            (IsWord.encode_add_sub_shift-IsWord false r 11 12 11 0 0 false true))
    | inr e ↦ rw e (elim (Bool-cases (op == b'-')) [
      | inl f ↦ rw f (
          word-IsLaid fn laid _ (IsWord.encode_add_sub_shift-IsWord true r 11 12 11 0 0 false true))
      | inr f ↦ rw f (elim (Bool-cases (op == b'*')) [
        | inl g ↦ rw g (word-IsLaid fn laid _ (IsWord.encode_mul-IsWord r 11 12 11 true))
        | inr g ↦ rw g (emit_div-IsLaid fn laid r sg)
      ])
    ])
  ]

  pub emit_arith_op-IsLaid :
      (fn : WasmFunction)
      → IsLaid cv fn
      → (ty op : ℕ) (sg : Bool) → Returns (IsLaid cv) (emit_arith_op ty op sg fn)
  unfolding emit_arith_op
  emit_arith_op-IsLaid fn laid ty op sg = elim (Bool-cases (is_arith op)) [
    | inr e ↦ rw e (thrown-IsLaid _)
    | inl e ↦ rw e (
        then_value (arith_reg ty) _ λ r. then_text _ _ (pop-IsCode r false 11) λ s hs.
          then_text _ _ (pop-IsCode r false 12) λ t ht.
            then-IsLaid _ _
              (emit_arith_body-IsLaid _
                (construct_full_instr-IsLaid cv fn laid (s ++ t) (IsCode-append s t hs ht)) r op sg)
              λ f1 l1. code-IsLaid f1 l1 _ (push-IsCode r 11))
  ]

  pub emit_if_op-IsLaid :
      (fn : WasmFunction) → IsLaid cv fn → (i : ℕ) → Returns (IsLaid cv) (emit_if_op i fn)
  unfolding emit_if_op
  emit_if_op-IsLaid fn laid i = then_value (code_at fn i) _ λ c.
      then_value (if_signature c) _ λ sig.
        then_code_of _ _ _ laid (pop-IsCode w_reg true 11) λ f1 l1.
          then_word f1 _ _ l1 (IsWord.encode_compare_imm-IsWord w_reg 11 0 false true)
            λ f2 l2. done _ (fake _ _ _ l2)

  pop_from-IsLaid :
      (fn : WasmFunction) (cs : List ControlFlowElement)
      → IsLaid cv fn
      → Returns (λ (p : ControlFlowElement × WasmFunction). IsLaid cv p.1) (pop_from cs fn)
  pop_from-IsLaid fn [] laid = λ p e. absurd (cc)
  pop_from-IsLaid fn (c ∷ cs) laid = Returns-ok (λ (p : _ × WasmFunction). IsLaid cv p.1) _ laid

  then_control :
      (fn : WasmFunction) (f : ControlFlowElement × WasmFunction → Result WasmFunction)
      → IsLaid cv fn
      → ((p : ControlFlowElement × WasmFunction) → IsLaid cv p.1 → Returns (IsLaid cv) (f p))
      → Returns (IsLaid cv) (pop_control fn >>= f)
  unfolding pop_control
  then_control fn f laid k =
      Returns-bind_with (IsLaid cv) (λ (p : ControlFlowElement × WasmFunction). IsLaid cv p.1) _ f
        (pop_from-IsLaid fn fn.control_flow_stack laid) k

  pub emit_else_op-IsLaid :
      (fn : WasmFunction) → IsLaid cv fn → Returns (IsLaid cv) (emit_else_op fn)
  unfolding emit_else_op
  emit_else_op-IsLaid fn laid =
      then_control fn _ laid λ p l. done _ (insert_label-IsLaid cv _ (fake _ _ _ l) p.0.label)

  pub emit_end_op-IsLaid : (fn : WasmFunction) → IsLaid cv fn → Returns (IsLaid cv) (emit_end_op fn)
  unfolding emit_end_op
  emit_end_op-IsLaid fn laid =
      then_control fn _ laid λ p l. done _ (insert_label-IsLaid cv _ l p.0.label)

  pub emit_ret-IsLaid : (fn : WasmFunction) → IsLaid cv fn → Returns (IsLaid cv) (emit_ret fn)
  unfolding emit_ret
  emit_ret-IsLaid fn laid = word-IsLaid fn laid _ (IsWord.encode_return-IsWord 30 true)
