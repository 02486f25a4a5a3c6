-- ===== src/Parser/Binary/Types.antt =====
-- The type section.
use mathlib.Core.List.{append_assoc, append-nil}
use tiny_wasm.Base.{
  ℕ, ◌+◌, ◌*◌, ◌≡◌, refl, sym, ap, subst, ◌∙◌, List, [], ◌∷◌, ◌++◌, length, arith, some,
}
use tiny_wasm.Base.Result.{ok, ◌>>=◌}
use tiny_wasm.Base.Text.{substr}
use tiny_wasm.Utils.Lower.{lower_char, lower_pad, read_binary}
use tiny_wasm.Utils.Lower.RoundTrip.{AreBytes}
use tiny_wasm.Wasm.Types.{TypeCategory, param, result, data_of_type}
use tiny_wasm.Parser.{
  Parser, WasmType, wasm_type, push_type_data, add_type_data, byte_at, add_types, parse_one_type,
  parse_types,
}
use tiny_wasm.Parser.Binary.{
  ValueType, i32, i64, f32, f64, byte_of, value_of, bytes_of_values, values, Signature,
  encode_signatures, types_of,
}
use tiny_wasm.Parser.Binary.Cursor.{At, At-next, At-behind, substr-At_byte, byte_at-At}

abbrev add_values : TypeCategory → List ValueType → WasmType → WasmType
add_values c [] t = t
add_values c (v ∷ vs) t = add_values c vs (push_type_data c (some (value_of v)) t)

length-bytes_of_values : (vs : List ValueType) → length (bytes_of_values vs) ≡ length vs
length-bytes_of_values [] = refl
length-bytes_of_values (v ∷ vs) = omega (arith, length-bytes_of_values vs)

add_values-param :
    (vs : List ValueType) (t : WasmType)
    → add_values param vs t ≡ record t { param_data = t.param_data ++ values vs }
add_values-param [] t = ap (λ ds. record t { param_data = ds }) (sym (append-nil t.param_data))
add_values-param (v ∷ vs) t =
    add_values-param vs (push_type_data param (some (value_of v)) t)
    ∙ ap (λ ds. record t { param_data = ds })
        (append_assoc t.param_data (value_of v ∷ []) (values vs))

add_values-result :
    (vs : List ValueType) (t : WasmType)
    → add_values result vs t ≡ record t { result_data = t.result_data ++ values vs }
add_values-result [] t = ap (λ ds. record t { result_data = ds }) (sym (append-nil t.result_data))
add_values-result (v ∷ vs) t =
    add_values-result vs (push_type_data result (some (value_of v)) t)
    ∙ ap (λ ds. record t { result_data = ds })
        (append_assoc t.result_data (value_of v ∷ []) (values vs))

add_type_data-byte_of :
    (c : TypeCategory) (v : ValueType) (t : WasmType)
    → add_type_data c (lower_pad 2 (byte_of v)) t ≡ push_type_data c (some (value_of v)) t
unfolding add_type_data lower_pad lower_char data_of_type
add_type_data-byte_of c i32 t = refl
add_type_data-byte_of c i64 t = refl
add_type_data-byte_of c f32 t = refl
add_type_data-byte_of c f64 t = refl

module _ (bs : List ℕ) (small : AreBytes bs) where
  add_types-At :
      (c : TypeCategory) (vs : List ValueType) (k p : ℕ) (ys : List ℕ) (t : WasmType)
      → p ≡ 2 * k
      → At bs k (bytes_of_values vs ++ ys)
      → add_types c (length vs) p (read_binary bs) t ≡ ok (add_values c vs t)
  unfolding add_types
  add_types-At c [] k p ys t e h = refl
  add_types-At c (v ∷ vs) k p ys t e h =
      let byte : substr (read_binary bs) p 2 ≡ ok (lower_pad 2 (byte_of v)) =
        ap (λ q. substr (read_binary bs) q 2) e
        ∙ substr-At_byte bs k (byte_of v) (bytes_of_values vs ++ ys) h in
      ap
        (λ r.
          r >>= λ type. add_types c (length vs) (p + 2) (read_binary bs) (add_type_data c type t))
        byte
      ∙ (ap (add_types c (length vs) (p + 2) (read_binary bs)) (add_type_data-byte_of c v t)
          ∙ add_types-At c vs (k + 1) (p + 2) ys (push_type_data c (some (value_of v)) t)
              (omega arith) (At-next bs k (byte_of v) (bytes_of_values vs ++ ys) h))

  parse_one_type-At :
      (σ : Signature) (k p : ℕ) (ys : List ℕ)
      → p ≡ 2 * k
      → At bs k (
          0x60
          ∷ length σ.parameters
          ∷ (bytes_of_values σ.parameters ++ length σ.results ∷ (bytes_of_values σ.results ++ ys)))
      → let n = length σ.parameters in
        let m = length σ.results in
        (parse_one_type (read_binary bs) p
          ≡ ok (
            p + 2 + 2 + 2 * n + 2 + 2 * m,
            record { param_data = values σ.parameters; result_data = values σ.results },
          ))
        × At bs (k + n + m + 3) ys
  unfolding parse_one_type
  parse_one_type-At σ k p ys e h =
      let n = length σ.parameters in
      let m = length σ.results in
      let np = length-bytes_of_values σ.parameters in
      let nr = length-bytes_of_values σ.results in
      let behind = bytes_of_values σ.results ++ ys in
      let h1 = At-next bs k 0x60 _ h in
      let h2 = At-next bs (k + 1) n _ h1 in
      let h3 = At-behind bs (k + 1 + 1) (bytes_of_values σ.parameters) (m ∷ behind) h2 in
      let h4 = At-next bs (k + 1 + 1 + length (bytes_of_values σ.parameters)) m behind h3 in
      let h5 =
        At-behind bs (k + 1 + 1 + length (bytes_of_values σ.parameters) + 1)
          (bytes_of_values σ.results) ys h4 in
      let s = read_binary bs in
      let place1 : p + 2 ≡ 2 * (k + 1) = omega arith in
      let place2 : p + 2 + 2 + 2 * n ≡ 2 * (k + 1 + 1 + length (bytes_of_values σ.parameters)) =
        omega arith in
      let count : byte_at s (p + 2) ≡ ok n =
        ap (byte_at s) place1 ∙ byte_at-At bs (k + 1) n _ small h1 in
      let count' : byte_at s (p + 2 + 2 + 2 * n) ≡ ok m =
        ap (byte_at s) place2
        ∙ byte_at-At bs (k + 1 + 1 + length (bytes_of_values σ.parameters)) m behind small h3 in
      let first =
        add_types-At param σ.parameters (k + 1 + 1) (p + 2 + 2) (m ∷ behind) wasm_type (omega arith)
          h2
        ∙ ap ok (add_values-param σ.parameters wasm_type) in
      let second = λ (t : WasmType).
        add_types-At result σ.results (k + 1 + 1 + length (bytes_of_values σ.parameters) + 1)
          (p + 2 + 2 + 2 * n + 2) ys t (omega arith) h4
        ∙ ap ok (add_values-result σ.results t) in
      let place3 : k
            + 1
            + 1
            + length (bytes_of_values σ.parameters)
            + 1
            + length (bytes_of_values σ.results)
          ≡ k + n + m + 3 =
        omega arith in
      (rw (count, first, count', second _) refl, subst (λ i. At bs i ys) place3 h5)

  pub parse_types-At :
      (σs : List Signature) (k p : ℕ) (ys : List ℕ) (q : Parser)
      → p ≡ 2 * k
      → At bs k (encode_signatures σs ++ ys)
      → parse_types (length σs) p (record q { s = read_binary bs })
        ≡ ok (record q { s = read_binary bs; wasm_type_vec = q.wasm_type_vec ++ types_of σs })
  unfolding parse_types
  parse_types-At [] k p ys q e h =
      ap (λ ts. ok (record q { s = read_binary bs; wasm_type_vec = ts }))
        (sym (append-nil q.wasm_type_vec))
  parse_types-At (σ ∷ σs) k p ys q e h =
      let n = length σ.parameters in
      let m = length σ.results in
      let t : WasmType = record {
        param_data = values σ.parameters;
        result_data = values σ.results;
      } in
      let (one, there) = parse_one_type-At σ k p (encode_signatures σs ++ ys) e (
        h
        ∙ ap (λ t. 0x60 ∷ n ∷ t)
            (append_assoc (bytes_of_values σ.parameters)
                (m ∷ (bytes_of_values σ.results ++ encode_signatures σs)) ys
              ∙ ap (λ t. bytes_of_values σ.parameters ++ m ∷ t)
                  (append_assoc (bytes_of_values σ.results) (encode_signatures σs) ys))) in
      rw one (
        parse_types-At σs (k + n + m + 3) (p + 2 + 2 + 2 * n + 2 + 2 * m) ys
          (record q { wasm_type_vec = q.wasm_type_vec ++ t ∷ [] }) (omega arith) there
        ∙ ap (λ ts. ok (record q { s = read_binary bs; wasm_type_vec = ts }))
            (append_assoc q.wasm_type_vec (t ∷ []) (types_of σs)))
