-- ===== src/Parser/Termination.antt =====
-- The loop of `Parser::parse` over the sections ends: each round drops its four digits.
use tiny_wasm.Base.{
  ℕ, zero, suc, ◌+◌, ◌*◌, ◌≤◌, ◌<◌, ◌≡◌, refl, ap, Bool, true, false, ◌∷◌, ◌++◌, [], arith, inl,
  inr, if◌then◌else◌, Bool-cases, length, length-drop, drop, ltb, Option, some,
}
use tiny_wasm.Base.Result.{
  Result, ok, err, run_on, Returns, Returns-bind, Returns-bind_with, Returns-ok,
}
use tiny_wasm.Base.Text.{Text, text, text_eq, substr_from, substr}
use tiny_wasm.Parser.{
  Parser, byte_at, parse_one_type, parse_types, parse_type, parse_functions, parse_function,
  parse_one_export, parse_exports, parse_export, parse_one_code, parse_codes, parse_code,
  parse_section, parse_step, parse_loop,
}

-- The text that is left stays.
abbrev Keeps : Text → Parser → Type 0
Keeps s p = p.s ≡ s

module _ (s : Text) where
  parse_types-Keeps : (n b : ℕ) (p : Parser) → Keeps s p → Returns (Keeps s) (parse_types n b p)
  unfolding parse_types
  parse_types-Keeps zero b p h = Returns-ok (Keeps s) p h
  parse_types-Keeps (suc n) b p h =
      Returns-bind (Keeps s) (parse_one_type p.s b) _
        λ r. parse_types-Keeps n r.0 (record p { wasm_type_vec = p.wasm_type_vec ++ r.1 ∷ [] }) h

  parse_functions-Keeps :
      (n i : ℕ) (p : Parser) → Keeps s p → Returns (Keeps s) (parse_functions n i p)
  unfolding parse_functions
  parse_functions-Keeps zero i p h = Returns-ok (Keeps s) p h
  parse_functions-Keeps (suc n) i p h = Returns-bind (Keeps s) (byte_at p.s (2 * i + 2)) _ λ t.
      parse_functions-Keeps n (i + 1) (record p { func_type_vec = p.func_type_vec ++ t ∷ [] }) h

  parse_exports-Keeps : (n b : ℕ) (p : Parser) → Keeps s p → Returns (Keeps s) (parse_exports n b p)
  unfolding parse_exports
  parse_exports-Keeps zero b p h = Returns-ok (Keeps s) p h
  parse_exports-Keeps (suc n) b p h = Returns-bind (Keeps s) (parse_one_export p.s b) _ λ r.
      parse_exports-Keeps n r.0
        (record p {
          func_name_index_mapper = r.1 ∷ p.func_name_index_mapper;
          func_index_name_mapper = (r.1.1, r.1.0) ∷ p.func_index_name_mapper;
        })
        h

  parse_codes-Keeps : (n b : ℕ) (p : Parser) → Keeps s p → Returns (Keeps s) (parse_codes n b p)
  unfolding parse_codes
  parse_codes-Keeps zero b p h = Returns-ok (Keeps s) p h
  parse_codes-Keeps (suc n) b p h = Returns-bind (Keeps s) (parse_one_code p.s b) _ λ r.
      parse_codes-Keeps n r.0 (record p { wasm_function_vec = p.wasm_function_vec ++ r.1 ∷ [] }) h

  -- A test that chooses between two results.
  either :
      (b : Bool) {x y : Result Parser}
      → Returns (Keeps s) x
      → Returns (Keeps s) y
      → Returns (Keeps s) (if b then x else y)
  either true hx hy = hx
  either false hx hy = hy

  parse_section-Keeps :
      (type : Text) (p : Parser) → Keeps s p → Returns (Keeps s) (parse_section type p)
  unfolding parse_section parse_type parse_function parse_export parse_code
  parse_section-Keeps type p h =
      either (text_eq type (text "01"))
        (Returns-bind (Keeps s) (byte_at p.s 0) _ λ n. parse_types-Keeps n 2 p h)
        (either (text_eq type (text "03"))
          (Returns-bind (Keeps s) (byte_at p.s 0) _ λ n. parse_functions-Keeps n 0 p h)
          (either (text_eq type (text "07"))
            (Returns-bind (Keeps s) (byte_at p.s 0) _ λ n. parse_exports-Keeps n 0 p h)
            (either (text_eq type (text "0a"))
              (Returns-bind (Keeps s) (byte_at p.s 0) _ λ n. parse_codes-Keeps n 0 p h)
              (Returns-ok (Keeps s) p h))))

-- What `substr` returns without a count is shorter by the digits it drops.
substr_from-shorter :
    (s : Text) (k : ℕ) → Returns (λ (t : Text). length t + k ≤ length s) (substr_from s k)
substr_from-shorter s k = elim (Bool-cases (ltb (length s) k)) [
  | inl e ↦ rw e λ t h. absurd (cc)
  | inr e ↦ rw e (
      Returns-ok (λ (t : Text). length t + k ≤ length s) (drop k s)
        (let inside : k ≤ length s = ground arith in omega (arith, length-drop k s)))
]

parse_step-shorter :
    (p : Parser) → Returns (λ (q : Parser). length q.s + 4 ≤ length p.s) (parse_step p)
unfolding parse_step
parse_step-shorter p =
    let Done = λ (q : Parser). length q.s + 4 ≤ length p.s in
    Returns-bind Done (substr p.s 0 2) _ λ type.
      Returns-bind_with Done _ (substr_from p.s 2) _ (substr_from-shorter p.s 2) λ s1 h1.
        Returns-bind Done (byte_at s1 0) _ λ n.
          Returns-bind_with Done _ (substr_from s1 2) _ (substr_from-shorter s1 2) λ s2 h2.
            Returns-bind_with Done (Keeps s2) (parse_section type _) _
              (parse_section-Keeps s2 type _ refl)
              λ q kept.
                Returns-bind_with Done _ (substr_from q.s (q.section_length * 2)) _
                  (substr_from-shorter q.s _)
                  λ s3 h3.
                    let same : length q.s ≡ length s2 = ap length kept in
                    Returns-ok Done (record q { s = s3 }) (omega arith)

-- The result of one round, and then the loop.
next_section :
    (m : Result Parser) (k : Parser → Option (Result Parser))
    → ((q : Parser) → m ≡ ok q → (r : Result Parser) × (k q ≡ some r))
    → (r : Result Parser) × (run_on m k ≡ some r)
next_section (ok q) k h = h q refl
next_section (err e) k h = (err e, refl)

-- With more fuel than digits are left, the loop over the sections ends: it returns, or it throws.
pub parse_loop_ends :
    (fuel : ℕ) (p : Parser) → length p.s < fuel → (r : Result Parser) × (parse_loop fuel p ≡ some r)
unfolding parse_loop
parse_loop_ends zero p h = absurd (omega arith)
parse_loop_ends (suc fuel) p h = elim (Bool-cases (ltb 0 (length p.s))) [
  | inl e ↦ rw e (
      next_section (parse_step p) (parse_loop fuel) λ q step.
        let shorter : length q.s + 4 ≤ length p.s = parse_step-shorter p q step in
        parse_loop_ends fuel q (omega arith))
  | inr e ↦ (ok p, rw e refl)
]
