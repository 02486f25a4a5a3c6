-- ===== src/Parser/Binary/Entries.antt =====
-- The function section and the export section.
use mathlib.Core.List.{append_assoc, append-nil}
use tiny_wasm.Base.{ℕ, ◌+◌, ◌*◌, ◌≡◌, refl, sym, ap, subst, ◌∙◌, List, [], ◌∷◌, ◌++◌, length, arith}
use tiny_wasm.Base.Result.{ok}
use tiny_wasm.Base.Text.{substr}
use tiny_wasm.Utils.Lower.{read_binary}
use tiny_wasm.Utils.Lower.RoundTrip.{AreBytes, hex_to_ascii-read_binary}
use tiny_wasm.Parser.{
  Parser, byte_at, hex_to_ascii, parse_functions, parse_one_export, parse_exports,
}
use tiny_wasm.Parser.Binary.{Export, encode_exports, add_exports}
use tiny_wasm.Parser.Binary.Cursor.{
  At, At-next, At-behind, At-inside, At-AreBytes, substr-At, byte_at-At,
}

module _ (bs : List ℕ) (small : AreBytes bs) where
  pub parse_functions-At :
      (ts : List ℕ) (i k : ℕ) (ys : List ℕ) (q : Parser)
      → k ≡ i + 1
      → At bs k (ts ++ ys)
      → parse_functions (length ts) i (record q { s = read_binary bs })
        ≡ ok (record q { s = read_binary bs; func_type_vec = q.func_type_vec ++ ts })
  unfolding parse_functions
  parse_functions-At [] i k ys q e h =
      ap (λ ts. ok (record q { s = read_binary bs; func_type_vec = ts }))
        (sym (append-nil q.func_type_vec))
  parse_functions-At (t ∷ ts) i k ys q e h =
      let place : 2 * i + 2 ≡ 2 * k = omega arith in
      let one : byte_at (read_binary bs) (2 * i + 2) ≡ ok t =
        ap (byte_at (read_binary bs)) place ∙ byte_at-At bs k t (ts ++ ys) small h in
      rw one (
        parse_functions-At ts (i + 1) (k + 1) ys
          (record q { func_type_vec = q.func_type_vec ++ t ∷ [] }) (omega arith)
          (At-next bs k t (ts ++ ys) h)
        ∙ ap (λ us. ok (record q { s = read_binary bs; func_type_vec = us }))
            (append_assoc q.func_type_vec (t ∷ []) ts))

  parse_one_export-At :
      (e : Export) (k p : ℕ) (ys : List ℕ)
      → p + 2 ≡ 2 * k
      → At bs k (length e.name ∷ (e.name ++ e.kind ∷ e.index ∷ ys))
      → (parse_one_export (read_binary bs) p ≡ ok (p + 2 * length e.name + 6, (e.name, e.index)))
        × At bs (k + length e.name + 3) ys
  unfolding parse_one_export
  parse_one_export-At e k p ys place h =
      let n = length e.name in
      let s = read_binary bs in
      let h1 = At-next bs k n _ h in
      let h2 = At-behind bs (k + 1) e.name (e.kind ∷ e.index ∷ ys) h1 in
      let h3 = At-next bs (k + 1 + n) e.kind (e.index ∷ ys) h2 in
      let h4 = At-next bs (k + 1 + n + 1) e.index ys h3 in
      let inside = At-inside bs (k + 1 + n) e.kind (e.index ∷ ys) h2 in
      let size : byte_at s (p + 2) ≡ ok n = ap (byte_at s) place ∙ byte_at-At bs k n _ small h in
      let digits : substr s (p + 4) (n * 2) ≡ ok (read_binary e.name) =
        let from : p + 4 ≡ 2 * (k + 1) = omega arith in
        let many : n * 2 ≡ 2 * n = omega arith in
        (λ i. substr s (from i) (many i))
        ∙ substr-At bs (k + 1) e.name (e.kind ∷ e.index ∷ ys) (omega arith) h1 in
      let name : hex_to_ascii (read_binary e.name) ≡ ok e.name =
        hex_to_ascii-read_binary e.name
          (At-AreBytes bs (k + 1) e.name (e.kind ∷ e.index ∷ ys) small h1) in
      let kind : byte_at s (p + 2 * n + 4) ≡ ok e.kind =
        let from : p + 2 * n + 4 ≡ 2 * (k + 1 + n) = omega arith in
        ap (byte_at s) from ∙ byte_at-At bs (k + 1 + n) e.kind (e.index ∷ ys) small h2 in
      let index : byte_at s (p + 2 * n + 6) ≡ ok e.index =
        let from : p + 2 * n + 6 ≡ 2 * (k + 1 + n + 1) = omega arith in
        ap (byte_at s) from ∙ byte_at-At bs (k + 1 + n + 1) e.index ys small h3 in
      let last : k + 1 + n + 1 + 1 ≡ k + n + 3 = omega arith in
      (rw (size, digits, name, kind, index) refl, subst (λ i. At bs i ys) last h4)

  pub parse_exports-At :
      (es : List Export) (k p : ℕ) (ys : List ℕ) (q : Parser)
      → p + 2 ≡ 2 * k
      → At bs k (encode_exports es ++ ys)
      → parse_exports (length es) p (record q { s = read_binary bs })
        ≡ ok (add_exports es (record q { s = read_binary bs }))
  unfolding parse_exports
  parse_exports-At [] k p ys q place h = refl
  parse_exports-At (e ∷ es) k p ys q place h =
      let n = length e.name in
      let (one, there) =
        parse_one_export-At e k p (encode_exports es ++ ys) place
          (h ∙ ap (λ t. n ∷ t) (append_assoc e.name (e.kind ∷ e.index ∷ encode_exports es) ys)) in
      rw one (
        parse_exports-At es (k + n + 3) (p + 2 * n + 6) ys
          (record q {
            func_name_index_mapper = (e.name, e.index) ∷ q.func_name_index_mapper;
            func_index_name_mapper = (e.index, e.name) ∷ q.func_index_name_mapper;
          })
          (omega arith) there)
