-- ===== src/Wasm/Statements/Frame.antt =====
-- The variables of a function in the memory of the machine.
use mathlib.Core.Option.{some-injective, none-ne-some}
use native.Mathlib.Nat.{le_refl}
use tiny_wasm.Base.{
  ℕ, zero, suc, ◌+◌, ◌%◌, ◌^◌, ◌≤◌, ◌<◌, ◌≡◌, refl, subst, ◌∙◌, ◌⊎◌, Bool, List, [], ◌∷◌, length,
  arith, get_elem?, set, some, bits_of,
}
use tiny_wasm.A64.{bytes_of, load, store}
use tiny_wasm.A64.Memory.{load-store_apart, load-same}
use tiny_wasm.Wasm.Operands.{Entry}
use tiny_wasm.Wasm.Operands.Stacked.{load_pushed}
use tiny_wasm.Wasm.Statements.Emitted.{Layout}

-- Each variable lies at its offset from the stack pointer `sp`.
abbrev pub Framed : ℕ → Layout → List Entry → (ℕ → ℕ) → Type 0
Framed sp [] [] m = Unit
Framed sp [] (v ∷ vs) m = ⊥
Framed sp (l ∷ ls) [] m = ⊥
Framed sp ((wide, o) ∷ ls) ((wide', v) ∷ vs) m =
    (wide ≡ wide')
    × (load (bytes_of wide) (sp + o) m ≡ v)
    × (v < 2 ^ bits_of wide)
    × Framed sp ls vs m

-- Two variables share no byte.
abbrev pub AreApart : Bool × ℕ → Bool × ℕ → Type 0
AreApart (wide, o) (wide', o') = (o + bytes_of wide ≤ o') ⊎ (o' + bytes_of wide' ≤ o)

abbrev pub IsApart : Bool × ℕ → Layout → Type 0
IsApart l [] = Unit
IsApart l (k ∷ ks) = AreApart l k × IsApart l ks

-- Every variable is aligned, lies in the first `size` bytes, and shares no byte with another.
abbrev pub IsFrame : ℕ → Layout → Type 0
IsFrame size [] = Unit
IsFrame size ((wide, o) ∷ ls) =
    (o % bytes_of wide ≡ 0) × (o + bytes_of wide ≤ size) × IsApart (wide, o) ls × IsFrame size ls

IsApart-at :
    (l : Bool × ℕ) (ls : Layout) (n : ℕ) (k : Bool × ℕ)
    → IsApart l ls
    → get_elem? ls n ≡ some k
    → AreApart l k
IsApart-at l [] n k a at = absurd (none-ne-some _ at)
IsApart-at l (j ∷ ls) zero k (a, _) at = subst (AreApart l) (some-injective _ _ at) a
IsApart-at l (j ∷ ls) (suc n) k (_, more) at = IsApart-at l ls n k more at

pub IsFrame-at :
    (size : ℕ) (ls : Layout) (n o : ℕ) (wide : Bool)
    → IsFrame size ls
    → get_elem? ls n ≡ some (wide, o)
    → (o % bytes_of wide ≡ 0) × (o + bytes_of wide ≤ size)
IsFrame-at size [] n o wide f at = absurd (none-ne-some _ at)
IsFrame-at size ((w, p) ∷ ls) zero o wide (aligned, inside, _, _) at =
    subst (λ l. (l.1 % bytes_of l.0 ≡ 0) × (l.1 + bytes_of l.0 ≤ size)) (some-injective _ _ at)
      (aligned, inside)
IsFrame-at size ((w, p) ∷ ls) (suc n) o wide (_, _, _, rest) at =
    IsFrame-at size ls n o wide rest at

-- What a variable holds.
pub Framed-at :
    (sp : ℕ) (ls : Layout) (vs : List Entry) (m : ℕ → ℕ) (n : ℕ) (l : Bool × ℕ) (e : Entry)
    → Framed sp ls vs m
    → get_elem? ls n ≡ some l
    → get_elem? vs n ≡ some e
    → (l.0 ≡ e.0) × (load (bytes_of l.0) (sp + l.1) m ≡ e.1) × (e.1 < 2 ^ bits_of l.0)
Framed-at sp [] vs m n l e f at held = absurd (none-ne-some _ at)
Framed-at sp (k ∷ ls) [] m n l e f at held = absurd f
Framed-at sp (k ∷ ls) (x ∷ vs) m zero l e (same, loaded, small, _) at held =
    subst
      (λ (j : Bool × ℕ).
        (j.0 ≡ e.0) × (load (bytes_of j.0) (sp + j.1) m ≡ e.1) × (e.1 < 2 ^ bits_of j.0))
      (some-injective _ _ at)
      (subst
        (λ (y : Entry).
          (k.0 ≡ y.0) × (load (bytes_of k.0) (sp + k.1) m ≡ y.1) × (y.1 < 2 ^ bits_of k.0))
        (some-injective _ _ held) (same, loaded, small))
Framed-at sp (k ∷ ls) (x ∷ vs) m (suc n) l e (_, _, _, rest) at held =
    Framed-at sp ls vs m n l e rest at held

-- Each variable of the layout has a value.
pub Framed-length :
    (sp : ℕ) (ls : Layout) (vs : List Entry) (m : ℕ → ℕ) → Framed sp ls vs m → length ls ≡ length vs
Framed-length sp [] [] m f = refl
Framed-length sp [] (x ∷ vs) m f = absurd f
Framed-length sp (k ∷ ls) [] m f = absurd f
Framed-length sp (k ∷ ls) (x ∷ vs) m (_, _, _, rest) = omega (arith, Framed-length sp ls vs m rest)

-- A store apart from every variable.
Framed-store_apart :
    (sp : ℕ) (ls : Layout) (vs : List Entry) (m : ℕ → ℕ) (wide : Bool) (o v : ℕ)
    → IsApart (wide, o) ls
    → Framed sp ls vs m
    → Framed sp ls vs (store (bytes_of wide) (sp + o) v m)
Framed-store_apart sp [] [] m wide o v a f = tt
Framed-store_apart sp [] (x ∷ vs) m wide o v a f = absurd f
Framed-store_apart sp (l ∷ ls) [] m wide o v a f = absurd f
Framed-store_apart sp ((w, p) ∷ ls) ((w', x) ∷ vs) m wide o v (a, more) (same, held, small, rest) =
    (
      same,
      load-store_apart (bytes_of w) (sp + p) (bytes_of wide) (sp + o) v m (ground arith) ∙ held,
      small,
      Framed-store_apart sp ls vs m wide o v more rest,
    )

-- A store to a variable.
pub Framed-set :
    (sp size : ℕ) (ls : Layout) (vs : List Entry) (m : ℕ → ℕ) (n o v : ℕ) (wide : Bool)
    → IsFrame size ls
    → Framed sp ls vs m
    → get_elem? ls n ≡ some (wide, o)
    → v < 2 ^ bits_of wide
    → Framed sp ls (set vs n (wide, v)) (store (bytes_of wide) (sp + o) v m)
Framed-set sp size [] vs m n o v wide g f at small = absurd (none-ne-some _ at)
Framed-set sp size (l ∷ ls) [] m n o v wide g f at small = absurd f
Framed-set sp size ((w, p) ∷ ls) ((w', x) ∷ vs) m zero o v wide g f at small =
    let e : ◌≡◌ {A = Bool × ℕ} (w, p) (wide, o) = some-injective _ _ at in
    subst
      (λ l.
        v < 2 ^ bits_of l.0
        → Framed sp ((w, p) ∷ ls) ((l.0, v) ∷ vs) (store (bytes_of l.0) (sp + l.1) v m))
      e
      (λ (s : v < 2 ^ bits_of w). (
        refl,
        load_pushed w w v (sp + p) (sp + p) v m (le_refl (bytes_of w)) s refl refl,
        s,
        Framed-store_apart sp ls vs m w p v g.2 f.3,
      ))
      small
Framed-set sp size ((w, p) ∷ ls) ((w', x) ∷ vs) m (suc n) o v wide (_, _, apart, frame)
      (same, held, fits, rest) at small =
    let k = IsApart-at (w, p) ls n (wide, o) apart at in
    (
      same,
      load-store_apart (bytes_of w) (sp + p) (bytes_of wide) (sp + o) v m (ground arith) ∙ held,
      fits,
      Framed-set sp size ls vs m n o v wide frame rest at small,
    )

-- Memory that agrees on the frame.
pub Framed-same :
    (sp size : ℕ) (ls : Layout) (vs : List Entry) (m k : ℕ → ℕ)
    → IsFrame size ls
    → ((b : ℕ) → sp ≤ b → b < sp + size → k b ≡ m b)
    → Framed sp ls vs m
    → Framed sp ls vs k
Framed-same sp size [] [] m k g h f = tt
Framed-same sp size [] (x ∷ vs) m k g h f = absurd f
Framed-same sp size (l ∷ ls) [] m k g h f = absurd f
Framed-same sp size ((w, p) ∷ ls) ((w', x) ∷ vs) m k (_, inside, _, frame) h
      (same, held, small, rest) =
    (
      same,
      load-same (bytes_of w) (sp + p) m k (λ b above below. h b (omega arith) (omega arith)) ∙ held,
      small,
      Framed-same sp size ls vs m k frame h rest,
    )
