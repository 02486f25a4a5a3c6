-- ===== src/Parser/Binary/Bodies.antt =====
-- The code section.
use mathlib.Core.List.{append_assoc, append-nil}
use tiny_wasm.Base.{
  ℕ, ◌+◌, ◌-◌, ◌*◌, ◌≡◌, refl, sym, ap, subst, ◌∙◌, false, List, [], ◌∷◌, ◌++◌, length, arith, ◌==◌,
}
use tiny_wasm.Base.Result.{ok}
use tiny_wasm.Base.Text.{substr}
use tiny_wasm.Utils.Lower.{lower_pad, read_binary}
use tiny_wasm.Utils.Lower.RoundTrip.{AreBytes}
use tiny_wasm.Wasm.Function.{wasm_function, set_code_vec}
use tiny_wasm.Parser.{Parser, byte_at, read_opcodes, parse_one_code, parse_codes}
use tiny_wasm.Parser.Binary.{Body, encode_bodies, opcodes_of, functions_of}
use tiny_wasm.Parser.Binary.Cursor.{At, At-next, At-behind, substr-At_byte, byte_at-At}

module _ (bs : List ℕ) (small : AreBytes bs) where
  read_opcodes-At :
      (cs : List ℕ) (k p : ℕ) (ys : List ℕ)
      → p ≡ 2 * k
      → At bs k (cs ++ ys)
      → read_opcodes (length cs) p (read_binary bs) ≡ ok (opcodes_of cs)
  unfolding read_opcodes
  read_opcodes-At [] k p ys e h = refl
  read_opcodes-At (c ∷ cs) k p ys e h =
      let byte : substr (read_binary bs) p 2 ≡ ok (lower_pad 2 c) =
        ap (λ q. substr (read_binary bs) q 2) e ∙ substr-At_byte bs k c (cs ++ ys) h in
      let rest =
        read_opcodes-At cs (k + 1) (p + 2) ys (omega arith) (At-next bs k c (cs ++ ys) h) in
      rw (byte, rest) refl

  parse_one_code-At :
      (b : Body) (k p : ℕ) (ys : List ℕ)
      → p + 2 ≡ 2 * k
      → At bs k ((1 + length b.code) ∷ b.declarations ∷ (b.code ++ ys))
      → (parse_one_code (read_binary bs) p
          ≡ ok (
            p + 2 * (1 + length b.code) + 2,
            set_code_vec (opcodes_of b.code) b.declarations wasm_function,
          ))
        × At bs (k + length b.code + 2) ys
  unfolding parse_one_code
  parse_one_code-At b k p ys place h =
      let n = length b.code in
      let s = read_binary bs in
      let h1 = At-next bs k (1 + n) _ h in
      let h2 = At-next bs (k + 1) b.declarations _ h1 in
      let h3 = At-behind bs (k + 1 + 1) b.code ys h2 in
      let size : byte_at s (p + 2) ≡ ok (1 + n) =
        ap (byte_at s) place ∙ byte_at-At bs k (1 + n) _ small h in
      let count : byte_at s (p + 4) ≡ ok b.declarations =
        let from : p + 4 ≡ 2 * (k + 1) = omega arith in
        ap (byte_at s) from ∙ byte_at-At bs (k + 1) b.declarations _ small h1 in
      let less : 1 + n - 1 ≡ n = omega arith in
      let some_bytes : ((1 + n) == 0) ≡ false = ground arith in
      let codes : read_opcodes (1 + n - 1) (p + 6) s ≡ ok (opcodes_of b.code) =
        ap (λ i. read_opcodes i (p + 6) s) less
        ∙ read_opcodes-At b.code (k + 1 + 1) (p + 6) ys (omega arith) h2 in
      let last : k + 1 + 1 + n ≡ k + n + 2 = omega arith in
      (rw (size, count, some_bytes, codes) refl, subst (λ i. At bs i ys) last h3)

  pub parse_codes-At :
      (cs : List Body) (k p : ℕ) (ys : List ℕ) (q : Parser)
      → p + 2 ≡ 2 * k
      → At bs k (encode_bodies cs ++ ys)
      → parse_codes (length cs) p (record q { s = read_binary bs })
        ≡ ok (record q {
          s = read_binary bs;
          wasm_function_vec = q.wasm_function_vec ++ functions_of cs;
        })
  unfolding parse_codes
  parse_codes-At [] k p ys q place h =
      ap (λ fs. ok (record q { s = read_binary bs; wasm_function_vec = fs }))
        (sym (append-nil q.wasm_function_vec))
  parse_codes-At (b ∷ cs) k p ys q place h =
      let n = length b.code in
      let fn = set_code_vec (opcodes_of b.code) b.declarations wasm_function in
      let (one, there) =
        parse_one_code-At b k p (encode_bodies cs ++ ys) place (
          h ∙ ap (λ t. (1 + n) ∷ b.declarations ∷ t) (append_assoc b.code (encode_bodies cs) ys)) in
      rw one (
        parse_codes-At cs (k + n + 2) (p + 2 * (1 + n) + 2) ys
          (record q { wasm_function_vec = q.wasm_function_vec ++ fn ∷ [] }) (omega arith) there
        ∙ ap (λ fs. ok (record q { s = read_binary bs; wasm_function_vec = fs }))
            (append_assoc q.wasm_function_vec (fn ∷ []) (functions_of cs)))
