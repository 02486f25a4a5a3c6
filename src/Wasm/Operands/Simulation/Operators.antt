-- ===== src/Wasm/Operands/Simulation/Operators.antt =====
-- Comparisons, and then every operator, on a machine.
use mathlib.Core.Option.{some-injective, none-ne-some}
use tiny_wasm.Base.{
  bits_of, suc, ℕ, ◌+◌, ◌*◌, ◌^◌, ◌≤◌, ◌<◌, ◌≡◌, refl, sym, subst, Bool, true, false, List, [], ◌∷◌,
  ◌++◌, length, some, arith, bit,
}
use tiny_wasm.A64.{Machine, Instruction, read, movz, compare_shift, csel}
use tiny_wasm.A64.Code.{perform_all}
use tiny_wasm.Wasm.Operands.{
  Entry, Operator, const, arithmetic, compare, Comparison, relates, evaluate, binary,
}
use tiny_wasm.Wasm.Operands.Conditions.{condition_code, holds-condition_code}
use tiny_wasm.Wasm.Operands.Emitted.{push_code, pop_code, code_of}
use tiny_wasm.Wasm.Operands.Stacked.{Stacked, push_code-Stacked}
use tiny_wasm.Wasm.Operands.Simulation.{
  const-Leaves, pops-Stacked, arithmetic-Leaves, Leaves, Leaves-append, fits_in,
}

-- A comparison and the choice of X3 or X4.
abbrev choose : Comparison → Bool → List Instruction
choose op wide = compare_shift wide 11 12 ∷ csel 0 3 4 (condition_code op) ∷ []

abbrev one_and_zero : List Instruction
one_and_zero = movz true 3 0 1 ∷ movz true 4 0 0 ∷ []

choose-read :
    (op : Comparison) (wide : Bool) (t : Machine) (a b : ℕ)
    → t.x 11 ≡ a
    → t.x 12 ≡ b
    → t.x 3 ≡ 1
    → t.x 4 ≡ 0
    → a < 2 ^ bits_of wide
    → b < 2 ^ bits_of wide
    → read true 0 (perform_all (choose op wide) t) ≡ bit (relates op (bits_of wide) a b)
choose-read op wide t a b p q one zero ha hb =
    let agrees = holds-condition_code op wide a b ha hb in
    rw (p, q, one, zero, fits_in wide a ha, fits_in wide b hb, agrees) (ground arith)

module _ (base limit : ℕ) (room : base + 8 * limit < 2 ^ 64) (s : Machine) (es : List Entry)
    (fits : length es < limit) where
  compare-Leaves :
      (op : Comparison) (wide : Bool) (a b : ℕ)
      → length es + 1 < limit
      → Stacked base s ((wide, b) ∷ (wide, a) ∷ es)
      → Leaves base limit
          (code_of (compare op wide))
          s
          ((false, bit (relates op (bits_of wide) a b)) ∷ es)
  compare-Leaves op wide a b hl h =
      let top = (false, bit (relates op (bits_of wide) a b)) ∷ es in
      let pops = pop_code wide 12 ++ pop_code wide 11 in
      let u = perform_all one_and_zero s in
      let t = perform_all pops u in
      let (h2, x12, x11, ha, hb, k, r) =
        pops-Stacked base limit room u es fits wide 12 11 a b (omega arith) (omega arith)
          (omega arith) hl h in
      let x3 : t.x 3 ≡ 1 = r 3 (omega arith) (omega arith) (omega arith) in
      let x4 : t.x 4 ≡ 0 = r 4 (omega arith) (omega arith) (omega arith) in
      Leaves-append base limit one_and_zero (pops ++ (choose op wide ++ push_code true 0)) s top
        ((λ b h. refl), refl, λ n h g. ground arith)
        (Leaves-append base limit pops (choose op wide ++ push_code true 0) u top k (
          Leaves-append base limit (choose op wide) (push_code true 0) t top
            ((λ b h. refl), refl, λ n h g. ground arith)
            (push_code-Stacked base limit room (perform_all (choose op wide) t) es true false _ 0
              (omega arith) (ground arith) fits (choose-read op wide t a b x11 x12 x3 x4 ha hb)
              h2)))

-- What a binary operator takes and leaves.
binary-some :
    (wide : Bool) (f : ℕ → ℕ → Entry) (es fs : List Entry)
    → binary wide f es ≡ some fs
    → (a b : ℕ) × (rest : List Entry) × (es ≡ (wide, b) ∷ (wide, a) ∷ rest) × (f a b ∷ rest ≡ fs)
binary-some wide f [] fs h = absurd (none-ne-some fs h)
binary-some wide f (e ∷ []) fs h = absurd (none-ne-some fs h)
binary-some true f ((true, b) ∷ (true, a) ∷ rest) fs h = (a, b, rest, refl, some-injective _ _ h)
binary-some false f ((false, b) ∷ (false, a) ∷ rest) fs h = (a, b, rest, refl, some-injective _ _ h)
binary-some true f ((true, b) ∷ (false, a) ∷ rest) fs h = absurd (none-ne-some fs h)
binary-some true f ((false, b) ∷ (u, a) ∷ rest) fs h = absurd (none-ne-some fs h)
binary-some false f ((true, b) ∷ (u, a) ∷ rest) fs h = absurd (none-ne-some fs h)
binary-some false f ((false, b) ∷ (true, a) ∷ rest) fs h = absurd (none-ne-some fs h)

-- An operator whose operands are on the stack, with room for what it leaves: its code leaves the
-- stack that the operator gives, and nothing else but the registers that it may use has changed.
pub code_of-Leaves :
    (base limit : ℕ) (op : Operator) (s : Machine) (es fs : List Entry)
    → base + 8 * limit < 2 ^ 64
    → evaluate op es ≡ some fs
    → length es ≤ limit
    → length fs ≤ limit
    → Stacked base s es
    → Leaves base limit (code_of op) s fs
code_of-Leaves base limit (const wide v) s es fs room e le lf h =
    subst (Leaves base limit (code_of (const wide v)) s) (some-injective _ _ e) (
      const-Leaves base limit room s es
        (subst (λ l. length l ≤ limit) (sym (some-injective _ _ e)) lf) wide v h)
code_of-Leaves base limit (arithmetic op wide) s es fs room e le lf h =
    let (a, b, rest, ees, efs) = binary-some wide _ es fs e in
    let two : suc (suc (length rest)) ≤ limit = subst (λ l. length l ≤ limit) ees le in
    subst (Leaves base limit (code_of (arithmetic op wide)) s) efs (
      arithmetic-Leaves base limit room s rest (omega arith) op wide a b (omega arith)
        (subst (Stacked base s) ees h))
code_of-Leaves base limit (compare op wide) s es fs room e le lf h =
    let (a, b, rest, ees, efs) = binary-some wide _ es fs e in
    let two : suc (suc (length rest)) ≤ limit = subst (λ l. length l ≤ limit) ees le in
    subst (Leaves base limit (code_of (compare op wide)) s) efs (
      compare-Leaves base limit room s rest (omega arith) op wide a b (omega arith)
        (subst (Stacked base s) ees h))
