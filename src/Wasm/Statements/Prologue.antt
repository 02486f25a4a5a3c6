-- ===== src/Wasm/Statements/Prologue.antt =====
-- The frame that `getStackPreallocateSize`, `initParam` and `initLocal` give to variables of type i32.
pub mod Code
pub mod Entry
pub mod Memory
pub mod Slots
pub mod Run
pub mod Frames
use mathlib.Core.List.{append-nil}
use tiny_wasm.Base.{
  ℕ, zero, suc, ◌+◌, ◌-◌, ◌*◌, ◌%◌, ◌≤◌, ◌<◌, ◌≡◌, refl, ap, subst, ◌∙◌, ◌⊎◌, inl, inr, Bool, false,
  List, [], ◌∷◌, ◌++◌, length, arith, get_elem?, some,
}
use tiny_wasm.Base.Int.{ℤ}
use tiny_wasm.Wasm.Types.{WasmValue, int32}
use tiny_wasm.Wasm.Stack.{allocate_vars}
use tiny_wasm.Wasm.Statements.Emitted.{Layout}
use tiny_wasm.Wasm.Statements.Frame.{AreApart, IsApart, IsFrame}

-- Values of type i32.
abbrev pub ints : List ℤ → List WasmValue
ints [] = []
ints (v ∷ vs) = int32 v ∷ ints vs

-- `n` slots of four bytes, from the offset `o` on down.
abbrev pub down : ℕ → ℕ → Layout
down zero o = []
down (suc n) o = (false, o) ∷ down n (o - 4)

-- The end of `n` parameters and `m` locals, with eight bytes between them.
abbrev pub end_of : ℕ → ℕ → ℕ
end_of n m = 4 * n + 8 + 4 * m

abbrev pub layout_of : ℕ → ℕ → Layout
layout_of n m = down n (4 * n) ++ down m (end_of n m)

pub allocate_vars-ints : (vs : List ℤ) (o : ℕ) → allocate_vars (ints vs) o ≡ o + 4 * length vs
unfolding allocate_vars
allocate_vars-ints [] o = omega arith
allocate_vars-ints (v ∷ vs) o = omega (arith, allocate_vars-ints vs (o + 4))

pub length-ints : (vs : List ℤ) → length (ints vs) ≡ length vs
length-ints [] = refl
length-ints (v ∷ vs) = omega (arith, length-ints vs)

-- A slot above or below a run of slots.
down-IsApart :
    (n o q : ℕ) → 4 * n ≤ o → (o + 4 ≤ q) ⊎ (q + 4 * n ≤ o) → IsApart (false, q) (down n o)
down-IsApart zero o q room off = tt
down-IsApart (suc n) o q room (inl above) =
    (inr (omega arith), down-IsApart n (o - 4) q (omega arith) (inl (omega arith)))
down-IsApart (suc n) o q room (inr below) =
    (inl (omega arith), down-IsApart n (o - 4) q (omega arith) (inr (omega arith)))

IsApart-append :
    (l : Bool × ℕ) (xs ys : Layout) → IsApart l xs → IsApart l ys → IsApart l (xs ++ ys)
IsApart-append l [] ys a b = b
IsApart-append l (x ∷ xs) ys (a, more) b = (a, IsApart-append l xs ys more b)

down-IsFrame :
    (size n o : ℕ) (ys : Layout)
    → 4 * n ≤ o
    → o % 4 ≡ 0
    → (0 < n → o + 4 ≤ size)
    → IsFrame size ys
    → ((q : ℕ) → q ≤ o → IsApart (false, q) ys)
    → IsFrame size (down n o ++ ys)
down-IsFrame size zero o ys room aligned inside frame apart = frame
down-IsFrame size (suc n) o ys room aligned inside frame apart =
    let fits = inside (omega arith) in
    (
      aligned,
      fits,
      IsApart-append (false, o) (down n (o - 4)) ys
          (down-IsApart n (o - 4) o (omega arith) (inl (omega arith))) (apart o (omega arith)),
      down-IsFrame size n (o - 4) ys (omega arith) (omega arith) (λ h. omega arith) frame
          (λ q h. apart q (omega arith)),
    )

pub params-IsFrame : (size n : ℕ) → 4 * n + 4 ≤ size → IsFrame size (down n (4 * n))
params-IsFrame size n fits =
    subst (IsFrame size) (append-nil (down n (4 * n)))
      (down-IsFrame size n (4 * n) [] (omega arith) (omega arith) (λ h. fits) tt (λ q h. tt))

pub layout_of-IsFrame :
    (size n m : ℕ)
    → end_of n m ≤ size
    → (0 < m → end_of n m + 4 ≤ size)
    → IsFrame size (layout_of n m)
layout_of-IsFrame size n m fits room =
    down-IsFrame size n (4 * n) (down m (end_of n m)) (omega arith) (omega arith) (λ h. omega arith)
      (subst (IsFrame size) (append-nil (down m (end_of n m)))
        (down-IsFrame size m (end_of n m) [] (omega arith) (omega arith) room tt (λ q h. tt)))
      (λ q h. down-IsApart m (end_of n m) q (omega arith) (inr (omega arith)))

-- The slots by number.
pub get_elem?-down :
    (n o k : ℕ) (ys : Layout) → k < n → get_elem? (down n o ++ ys) k ≡ some (false, o - 4 * k)
get_elem?-down zero o k ys h = absurd (omega arith)
get_elem?-down (suc n) o zero ys h =
    let same : o ≡ o - 4 * 0 = omega arith in ap (λ q. some (false, q)) same
get_elem?-down (suc n) o (suc k) ys h =
    let same : o - 4 - 4 * k ≡ o - 4 * suc k = omega arith in
    get_elem?-down n (o - 4) k ys (omega arith) ∙ ap (λ q. some (false, q)) same

pub get_elem?-down_behind :
    (n o k : ℕ) (ys : Layout) → n ≤ k → get_elem? (down n o ++ ys) k ≡ get_elem? ys (k - n)
get_elem?-down_behind zero o k ys h = let same : k ≡ k - 0 = omega arith in ap (get_elem? ys) same
get_elem?-down_behind (suc n) o zero ys h = absurd (omega arith)
get_elem?-down_behind (suc n) o (suc k) ys h =
    let same : k - n ≡ suc k - suc n = omega arith in
    get_elem?-down_behind n (o - 4) k ys (omega arith) ∙ ap (get_elem? ys) same

pub length-down : (n o : ℕ) (ys : Layout) → length (down n o ++ ys) ≡ n + length ys
length-down zero o ys = omega arith
length-down (suc n) o ys = omega (arith, length-down n (o - 4) ys)
