-- ===== src/Wasm/Statements/Prologue/Memory.antt =====
-- The stores of the prologue in the memory.
use native.Mathlib.Nat.{le_refl}
use tiny_wasm.Base.{
  ℕ, zero, suc, ◌+◌, ◌-◌, ◌*◌, ◌/◌, ◌%◌, ◌^◌, ◌≤◌, ◌<◌, ◌≡◌, refl, sym, subst, ◌∙◌, ◌⊎◌, inl, inr,
  false, List, [], ◌∷◌, ◌++◌, length, arith,
}
use tiny_wasm.A64.{Machine, load, store, perform, load_store_imm, store_zero}
use tiny_wasm.Opcode.Base.{str}
use tiny_wasm.A64.Code.{perform_all}
use tiny_wasm.A64.Memory.{load-store_apart, store_outside}
use tiny_wasm.Wasm.Operands.{Entry}
use tiny_wasm.Wasm.Operands.Stacked.{load_pushed}
use tiny_wasm.Wasm.Statements.Emitted.{Layout}
use tiny_wasm.Wasm.Statements.Frame.{Framed}
use tiny_wasm.Wasm.Statements.Prologue.{down}
use tiny_wasm.Wasm.Statements.Prologue.Code.{param_code, local_code}

-- Words of four bytes from the address `a` on down.
abbrev pub fill : List ℕ → ℕ → (ℕ → ℕ) → ℕ → ℕ
fill [] a m = m
fill (v ∷ vs) a m = fill vs (a - 4) (store 4 a v m)

-- The low halves of `n` registers from number `g` on.
abbrev pub arguments : ℕ → ℕ → (ℕ → ℕ) → List ℕ
arguments zero g x = []
arguments (suc n) g x = x g % 2 ^ 32 ∷ arguments n (g + 1) x

abbrev pub zeros : ℕ → List ℕ
zeros zero = []
zeros (suc n) = 0 ∷ zeros n

abbrev pub entries : List ℕ → List Entry
entries [] = []
entries (v ∷ vs) = (false, v) ∷ entries vs

abbrev pub AreSmall : List ℕ → Type 0
AreSmall [] = Unit
AreSmall (v ∷ vs) = (v < 2 ^ 32) × AreSmall vs

pub arguments-AreSmall : (n g : ℕ) (s : ℕ → ℕ) → AreSmall (arguments n g s)
arguments-AreSmall zero g s = tt
arguments-AreSmall (suc n) g s = (omega arith, arguments-AreSmall n (g + 1) s)

pub zeros-AreSmall : (n : ℕ) → AreSmall (zeros n)
zeros-AreSmall zero = tt
zeros-AreSmall (suc n) = (omega arith, zeros-AreSmall n)

pub length-arguments : (n g : ℕ) (s : ℕ → ℕ) → length (arguments n g s) ≡ n
length-arguments zero g s = refl
length-arguments (suc n) g s = omega (arith, length-arguments n (g + 1) s)

pub length-zeros : (n : ℕ) → length (zeros n) ≡ n
length-zeros zero = refl
length-zeros (suc n) = omega (arith, length-zeros n)

-- A byte above the first word or below the last one.
pub fill_outside :
    (vs : List ℕ) (a b : ℕ) (m : ℕ → ℕ)
    → 4 * length vs ≤ a
    → (0 < length vs → a + 4 ≤ b) ⊎ (b + 4 * length vs < a + 4)
    → fill vs a m b ≡ m b
fill_outside [] a b m room off = refl
fill_outside (v ∷ vs) a b m room (inl above) =
    let high = above (omega arith) in
    fill_outside vs (a - 4) b (store 4 a v m) (omega arith) (inl (λ h. omega arith))
    ∙ store_outside 4 a v m b (inr high)
fill_outside (v ∷ vs) a b m room (inr below) =
    fill_outside vs (a - 4) b (store 4 a v m) (omega arith) (inr (omega arith))
    ∙ store_outside 4 a v m b (inl (omega arith))

load-fill :
    (vs : List ℕ) (a b : ℕ) (m : ℕ → ℕ)
    → 4 * length vs ≤ a
    → a + 4 ≤ b
    → load 4 b (fill vs a m) ≡ load 4 b m
load-fill [] a b m room above = refl
load-fill (v ∷ vs) a b m room above =
    load-fill vs (a - 4) b (store 4 a v m) (omega arith) (omega arith)
    ∙ load-store_apart 4 b 4 a v m (inr (omega arith))

-- The first of some zeros.
pub load-zeros : (n a : ℕ) (m : ℕ → ℕ) → 0 < n → 4 * n ≤ a → load 4 a (fill (zeros n) a m) ≡ 0
load-zeros zero a m some_zero room = absurd (omega arith)
load-zeros (suc n) a m some_zero room =
    load-fill (zeros n) (a - 4) a (store 4 a 0 m) (omega (arith, length-zeros n)) (omega arith)
    ∙ load_pushed false false 0 a a 0 m (le_refl 4) (omega arith) refl refl

pub fill-Framed :
    (sp o : ℕ) (vs : List ℕ) (m : ℕ → ℕ)
    → 4 * length vs ≤ o
    → AreSmall vs
    → Framed sp (down (length vs) o) (entries vs) (fill vs (sp + o) m)
fill-Framed sp o [] m room small = tt
fill-Framed sp o (v ∷ vs) m room (s, more) =
    let next : sp + o - 4 ≡ sp + (o - 4) = omega arith in
    (
      refl,
      load-fill vs (sp + o - 4) (sp + o) (store 4 (sp + o) v m) (omega arith) (omega arith)
          ∙ load_pushed false false v (sp + o) (sp + o) v m (le_refl 4) s refl refl,
      s,
      subst
          (λ a.
            Framed sp (down (length vs) (o - 4)) (entries vs) (fill vs a (store 4 (sp + o) v m)))
          (sym next) (fill-Framed sp (o - 4) vs (store 4 (sp + o) v m) (omega arith) more),
    )

pub Framed-append :
    (sp : ℕ) (xs ys : Layout) (vs ws : List Entry) (m : ℕ → ℕ)
    → Framed sp xs vs m
    → Framed sp ys ws m
    → Framed sp (xs ++ ys) (vs ++ ws) m
Framed-append sp [] ys [] ws m f g = g
Framed-append sp [] ys (v ∷ vs) ws m f g = absurd f
Framed-append sp (x ∷ xs) ys [] ws m f g = absurd f
Framed-append sp (x ∷ xs) ys (v ∷ vs) ws m (a, b, c, f) g =
    (a, b, c, Framed-append sp xs ys vs ws m f g)

-- The code of the stores fills the memory and changes nothing else.
pub perform-param_code :
    (n g o : ℕ) (s : Machine)
    → 4 * n ≤ o
    → o % 4 ≡ 0
    → s.sp + o < 2 ^ 64
    → perform_all (param_code n g o) s
      ≡ record s { memory = fill (arguments n g s.x) (s.sp + o) s.memory }
perform-param_code zero g o s room aligned fits = refl
perform-param_code (suc n) g o s room aligned fits =
    let there : (s.sp + o / 4 * 4) % 2 ^ 64 ≡ s.sp + o = omega arith in
    let next : s.sp + (o - 4) ≡ s.sp + o - 4 = omega arith in
    perform-param_code n (g + 1) (o - 4) (perform (load_store_imm str false g 31 (o / 4)) s)
      (omega arith) (omega arith) (omega arith)
    ∙ (λ i. record s {
      memory =
          fill (arguments n (g + 1) s.x) (next i) (store 4 (there i) (s.x g % 2 ^ 32) s.memory);
    })

pub perform-local_code :
    (n o : ℕ) (s : Machine)
    → 4 * n ≤ o
    → o % 4 ≡ 0
    → s.sp + o < 2 ^ 64
    → perform_all (local_code n o) s ≡ record s { memory = fill (zeros n) (s.sp + o) s.memory }
perform-local_code zero o s room aligned fits = refl
perform-local_code (suc n) o s room aligned fits =
    let there : (s.sp + o / 4 * 4) % 2 ^ 64 ≡ s.sp + o = omega arith in
    let next : s.sp + (o - 4) ≡ s.sp + o - 4 = omega arith in
    perform-local_code n (o - 4) (perform (store_zero false 31 (o / 4)) s) (omega arith)
      (omega arith) (omega arith)
    ∙ (λ i. record s { memory = fill (zeros n) (next i) (store 4 (there i) 0 s.memory) })
