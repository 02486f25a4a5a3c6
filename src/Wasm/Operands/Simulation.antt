-- ===== src/Wasm/Operands/Simulation.antt =====
-- The code of an operator on a machine, next to what the operator does to a stack of integers.
pub mod Operators
use mathlib.Core.Option.{some-injective, none-ne-some}
use tiny_wasm.Base.{
  bits_of, suc, ℕ, ◌+◌, ◌*◌, ◌%◌, ◌^◌, ◌≤◌, ◌<◌, ◌≡◌, ◌≢◌, refl, sym, ap, subst, ◌∙◌, Bool, true,
  false, List, [], ◌∷◌, ◌++◌, length, some, arith, bit,
}
use tiny_wasm.Base.Int.{ℤ, low_bits}
use tiny_wasm.Opcode.Layout.Immediate.{half_word-lt, half_words32, half_words64}
use tiny_wasm.A64.{Machine, Instruction, perform, read, movz, compare_shift, csel}
use tiny_wasm.A64.Code.{perform_all, perform_all-append}
use tiny_wasm.Wasm.Operands.{
  Entry, Operator, const, arithmetic, compare, Arithmetic, add, sub, mul, Comparison, calculate,
  relates, evaluate, binary,
}
use tiny_wasm.Wasm.Operands.Conditions.{condition_code, holds-condition_code}
use tiny_wasm.Wasm.Operands.Emitted.{push_code, pop_code, load_code, operation, code_of}
use tiny_wasm.Wasm.Operands.Stacked.{Stacked, Kept, Kept-trans, pop_code-Stacked, push_code-Stacked}

-- The code leaves the entries `es`, and all that is not on the stack.
abbrev pub Leaves : ℕ → ℕ → List Instruction → Machine → List Entry → Type 0
Leaves base limit is s es =
    Stacked base (perform_all is s) es × Kept base limit s (perform_all is s)

pub Leaves-append :
    (base limit : ℕ) (xs ys : List Instruction) (s : Machine) (es : List Entry)
    → Kept base limit s (perform_all xs s)
    → Leaves base limit ys (perform_all xs s) es
    → Leaves base limit (xs ++ ys) s es
Leaves-append base limit xs ys s es k (h, g) =
    subst (λ t. Stacked base t es × Kept base limit s t) (sym (perform_all-append xs ys s))
      (h, Kept-trans base limit s (perform_all xs s) (perform_all ys (perform_all xs s)) k g)

load32 : (v : ℤ) (s : Machine) → read false 11 (perform_all (load_code false v) s) ≡ low_bits v 32
load32 v s =
    let l0 = half_word-lt v 0 in
    let l1 = half_word-lt v 16 in let whole = half_words32 v in omega arith

load64 : (v : ℤ) (s : Machine) → read true 11 (perform_all (load_code true v) s) ≡ low_bits v 64
load64 v s =
    let l0 = half_word-lt v 0 in
    let l1 = half_word-lt v 16 in
    let l2 = half_word-lt v 32 in
    let l3 = half_word-lt v 48 in let whole = half_words64 v in omega arith

load_code-read :
    (wide : Bool) (v : ℤ) (s : Machine)
    → read wide 11 (perform_all (load_code wide v) s) ≡ low_bits v (bits_of wide)
load_code-read true v s = load64 v s
load_code-read false v s = load32 v s

load_code-Kept :
    (base limit : ℕ) (wide : Bool) (v : ℤ) (s : Machine)
    → Kept base limit s (perform_all (load_code wide v) s)
load_code-Kept base limit true v s = ((λ b h. refl), refl, λ n h g. ground arith)
load_code-Kept base limit false v s = ((λ b h. refl), refl, λ n h g. ground arith)

load_code-Stacked :
    (base : ℕ) (wide : Bool) (v : ℤ) (s : Machine) (es : List Entry)
    → Stacked base s es
    → Stacked base (perform_all (load_code wide v) s) es
load_code-Stacked base true v s es (b, p, slots) = (b, p, slots)
load_code-Stacked base false v s es (b, p, slots) = (b, p, slots)

low_bits-lt : (wide : Bool) (v : ℤ) → low_bits v (bits_of wide) < 2 ^ bits_of wide
low_bits-lt wide v = ground arith

fits_in : (wide : Bool) (v : ℕ) → v < 2 ^ bits_of wide → v % 2 ^ bits_of wide ≡ v
fits_in wide v h = ground arith

calculate-lt :
    (op : Arithmetic) (wide : Bool) (a b : ℕ) → calculate op (bits_of wide) a b < 2 ^ bits_of wide
calculate-lt op wide a b = ground arith

module _ (base limit : ℕ) (room : base + 8 * limit < 2 ^ 64) (s : Machine) (es : List Entry)
    (fits : length es < limit) where
  const-Leaves :
      (wide : Bool) (v : ℤ)
      → Stacked base s es
      → Leaves base limit (code_of (const wide v)) s ((wide, low_bits v (bits_of wide)) ∷ es)
  const-Leaves wide v h =
      Leaves-append base limit (load_code wide v) (push_code wide 11) s
        ((wide, low_bits v (bits_of wide)) ∷ es) (load_code-Kept base limit wide v s)
        (push_code-Stacked base limit room (perform_all (load_code wide v) s) es wide wide _ 11
          (omega arith) (low_bits-lt wide v) fits (load_code-read wide v s)
          (load_code-Stacked base wide v s es h))

  -- Two pops, with the second operand on top.
  pops-Stacked :
      (wide : Bool) (p q a b : ℕ)
      → p < 13
      → q < 13
      → p ≢ q
      → length es + 1 < limit
      → Stacked base s ((wide, b) ∷ (wide, a) ∷ es)
      → let t = perform_all (pop_code wide p ++ pop_code wide q) s in
        Stacked base t es
        × (t.x p ≡ b)
        × (t.x q ≡ a)
        × (a < 2 ^ bits_of wide)
        × (b < 2 ^ bits_of wide)
        × Kept base limit s t
        × ((n : ℕ) → n < 11 → n ≢ p → n ≢ q → t.x n ≡ s.x n)
  pops-Stacked wide p q a b hp hq hpq hl h =
      let (h1, v1, b1, m1, sp1, r1) =
        pop_code-Stacked base limit room s ((wide, a) ∷ es) wide b p (omega arith) (omega arith)
          h in
      let (h2, v2, b2, m2, sp2, r2) =
        pop_code-Stacked base limit room (perform_all (pop_code wide p) s) es wide a q (omega arith)
          fits h1 in
      subst
        (λ t.
          Stacked base t es
          × (t.x p ≡ b)
          × (t.x q ≡ a)
          × (a < 2 ^ bits_of wide)
          × (b < 2 ^ bits_of wide)
          × Kept base limit s t
          × ((n : ℕ) → n < 11 → n ≢ p → n ≢ q → t.x n ≡ s.x n))
        (sym (perform_all-append (pop_code wide p) (pop_code wide q) s))
        (
          h2,
          r2 p hpq (omega arith) ∙ v1,
          v2,
          b2,
          b1,
          (
            (λ c g. ap (λ m. m c) (m2 ∙ m1)),
            sp2 ∙ sp1,
            (λ n g n21. r2 n (omega arith) n21 ∙ r1 n (omega arith) n21),
          ),
          (λ n g np nq. r2 n nq (omega arith) ∙ r1 n np (omega arith)),
        )

  arithmetic-Leaves :
      (op : Arithmetic) (wide : Bool) (a b : ℕ)
      → length es + 1 < limit
      → Stacked base s ((wide, b) ∷ (wide, a) ∷ es)
      → Leaves base limit
          (code_of (arithmetic op wide))
          s
          ((wide, calculate op (bits_of wide) a b) ∷ es)
  arithmetic-Leaves op wide a b hl h =
      let pops = pop_code wide 11 ++ pop_code wide 12 in
      let t = perform_all pops s in
      let (h2, x11, x12, ha, hb, k, r) =
        pops-Stacked wide 11 12 a b (omega arith) (omega arith) (omega arith) hl h in
      Leaves-append base limit pops (operation op wide ∷ [] ++ push_code wide 11) s
        ((wide, calculate op (bits_of wide) a b) ∷ es) k
        (Leaves-append base limit (operation op wide ∷ []) (push_code wide 11) t
          ((wide, calculate op (bits_of wide) a b) ∷ es) (kept op t)
          (push_code-Stacked base limit room (perform (operation op wide) t) es wide wide _ 11
            (omega arith) (calculate-lt op wide a b) fits (computed op wide t a b x11 x12 ha hb)
            (stacked op t h2)))
    where
      kept : (op : Arithmetic) (t : Machine) → Kept base limit t (perform (operation op wide) t)
      kept add t = ((λ b h. refl), refl, λ n h g. ground arith)
      kept sub t = ((λ b h. refl), refl, λ n h g. ground arith)
      kept mul t = ((λ b h. refl), refl, λ n h g. ground arith)

      stacked :
          (op : Arithmetic) (t : Machine)
          → Stacked base t es
          → Stacked base (perform (operation op wide) t) es
      stacked add t h = h
      stacked sub t h = h
      stacked mul t h = h

      computed :
          (op : Arithmetic) (wide : Bool) (t : Machine) (a b : ℕ)
          → t.x 11 ≡ b
          → t.x 12 ≡ a
          → a < 2 ^ bits_of wide
          → b < 2 ^ bits_of wide
          → read wide 11 (perform (operation op wide) t) ≡ calculate op (bits_of wide) a b
      computed add wide t a b p q ha hb = rw (p, q) (ground arith)
      computed sub wide t a b p q ha hb = rw (p, q) (ground arith)
      computed mul wide t a b p q ha hb =
          rw (p, q, fits_in wide a ha, fits_in wide b hb) (ground arith)
