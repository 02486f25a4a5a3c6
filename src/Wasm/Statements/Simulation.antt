-- ===== src/Wasm/Statements/Simulation.antt =====
-- The code of a statement on a machine, next to what the statement does to the variables and the stack.
pub mod Accesses
pub mod Assignments
use mathlib.Core.Option.{some-injective, none-ne-some}
use native.Mathlib.Nat.{le_refl, mod-eq_of_lt}
use tiny_wasm.Base.{
  ℕ, suc, ◌+◌, ◌-◌, ◌*◌, ◌/◌, ◌%◌, ◌^◌, ◌≤◌, ◌<◌, ◌≡◌, ◌≢◌, refl, sym, ap, subst, ◌∙◌, ◌⊎◌, inl,
  inr, Bool, true, false, List, [], ◌∷◌, ◌++◌, length, arith, get_elem?, set, Option, some, none,
  bits_of,
}
use tiny_wasm.Opcode.Base.{str, ldr}
use tiny_wasm.A64.{Machine, Instruction, bytes_of, load, store, read, perform, base_of}
use tiny_wasm.A64.Memory.{load-store_apart, store_outside}
use tiny_wasm.A64.Code.{perform_all, perform_all-append}
use tiny_wasm.Wasm.Operands.{Entry}
use tiny_wasm.Wasm.Operands.Emitted.{push_code, pop_code}
use tiny_wasm.Wasm.Operands.Stacked.{Slots, Stacked, Kept, pop_code-Stacked, push_code-Stacked}
use tiny_wasm.Wasm.Statements.{State}
use tiny_wasm.Wasm.Statements.Emitted.{Layout, access_code, get_code, set_code, tee_code, top_code}
use tiny_wasm.Wasm.Statements.Frame.{
  Framed, IsFrame, IsFrame-at, Framed-at, Framed-set, Framed-same,
}

-- A store outside the stack leaves the entries.
Slots-store_apart :
    (base limit n a v : ℕ) (es : List Entry) (m : ℕ → ℕ)
    → length es ≤ limit
    → (a + n ≤ base) ⊎ (base + 8 * limit ≤ a)
    → Slots base es m
    → Slots base es (store n a v m)
Slots-store_apart base limit n a v [] m h out slots = tt
Slots-store_apart base limit n a v ((true, w) ∷ es) m h out (l, b, slots) = (
  load-store_apart 8 (base + 8 * length es) n a v m (ground arith) ∙ l,
  b,
  Slots-store_apart base limit n a v es m (omega arith) out slots,
)
Slots-store_apart base limit n a v ((false, w) ∷ es) m h out (l, b, slots) = (
  load-store_apart 4 (base + 8 * length es) n a v m (ground arith) ∙ l,
  b,
  Slots-store_apart base limit n a v es m (omega arith) out slots,
)

fits_in : (wide : Bool) (v : ℕ) → v < 2 ^ bits_of wide → v % 2 ^ bits_of wide ≡ v
fits_in wide v h = mod-eq_of_lt h

-- Where the stack and the frame lie: the stack at `base` with room for `limit` entries, the frame of `size`
-- bytes at `sp`.
pub record Place : Type 0 where
  pub base : ℕ
  pub limit : ℕ
  pub sp : ℕ
  pub size : ℕ

-- They fit in the memory, share no byte, and the variables share none.
pub record IsPlaced (p : Place) (layout : Layout) : Type 0 where
  pub room : p.base + 8 * p.limit < 2 ^ 64
  pub fits : p.sp + p.size ≤ 2 ^ 64
  pub apart : (p.sp + p.size ≤ p.base) ⊎ (p.base + 8 * p.limit ≤ p.sp)
  pub frame : IsFrame p.size layout

-- The machine holds the variables and the stack.
abbrev pub Holds : Place → Layout → Machine → State → Type 0
Holds p layout s σ =
    Stacked p.base s σ.stack × (s.sp ≡ p.sp) × Framed p.sp layout σ.variables s.memory

-- What lies outside the stack and the frame, and what the code of a statement leaves alone.
abbrev pub KeepsRest : Place → Machine → Machine → Type 0
KeepsRest p s t =
    ((b : ℕ)
      → (b < p.base) ⊎ (p.base + 8 * p.limit ≤ b)
      → (b < p.sp) ⊎ (p.sp + p.size ≤ b)
      → t.memory b ≡ s.memory b)
    × ((n : ℕ) → 12 < n → n ≢ 21 → t.x n ≡ s.x n)

abbrev pub Results : Place → Layout → List Instruction → Machine → State → Type 0
Results p layout is s σ = Holds p layout (perform_all is s) σ × KeepsRest p s (perform_all is s)

module _ (p : Place) (layout : Layout) (placed : IsPlaced p layout) where
  -- A step that keeps all but the stack keeps the frame.
  pub Framed-Kept :
      (s t : Machine) (vs : List Entry)
      → Kept p.base p.limit s t
      → Framed p.sp layout vs s.memory
      → Framed p.sp layout vs t.memory
  Framed-Kept s t vs (memory, _, _) f =
      Framed-same p.sp p.size layout vs s.memory t.memory placed.frame
        (λ b above below.
          memory b
            (elim placed.apart [ inl before ↦ inl (omega arith) | inr behind ↦ inr (omega arith) ]))
        f

  -- The address of a variable.
  pub address :
      (s : Machine) (n o : ℕ) (wide : Bool)
      → s.sp ≡ p.sp
      → get_elem? layout n ≡ some (wide, o)
      → (base_of 31 s + o / bytes_of wide * bytes_of wide) % 2 ^ 64 ≡ p.sp + o
  address s n o wide e at =
      let (aligned, inside) = IsFrame-at p.size layout n o wide placed.frame at in
      let fits = placed.fits in sum wide aligned inside fits
    where
      sum :
          (wide : Bool)
          → o % bytes_of wide ≡ 0
          → o + bytes_of wide ≤ p.size
          → p.sp + p.size ≤ 2 ^ 64
          → (base_of 31 s + o / bytes_of wide * bytes_of wide) % 2 ^ 64 ≡ p.sp + o
      sum true a i f = omega arith
      sum false a i f = omega arith

  pub get-Results :
      (s : Machine) (σ : State) (n o v : ℕ) (wide : Bool)
      → Holds p layout s σ
      → get_elem? layout n ≡ some (wide, o)
      → get_elem? σ.variables n ≡ some (wide, v)
      → length σ.stack < p.limit
      → Results p layout (get_code wide o) s (record σ { stack = (wide, v) ∷ σ.stack })
  get-Results s σ n o v wide (stacked, e, framed) at held fits =
      let t = perform_all (access_code ldr wide o) s in
      let (_, loaded, small) =
        Framed-at p.sp layout σ.variables s.memory n (wide, o) (wide, v) framed at held in
      let value : read wide 11 t ≡ v =
        ap (λ a. load (bytes_of wide) a s.memory % 2 ^ bits_of wide) (address s n o wide e at)
        ∙ (ap (λ x. x % 2 ^ bits_of wide) loaded ∙ fits_in wide v small) in
      let (stacked', kept) =
        push_code-Stacked p.base p.limit placed.room t σ.stack wide wide v 11
          (le_refl (bytes_of wide)) small fits value stacked in
      (
        (
          stacked',
          kept.1 ∙ e,
          Framed-Kept t (perform_all (push_code wide 11) t) σ.variables kept framed,
        ),
        ((λ b out off. kept.0 b out), λ k h g. kept.2 k h g ∙ ground arith),
      )

  -- A store of X11 to a variable.
  pub assign-Holds :
      (t : Machine) (σ : State) (fs : List Entry) (n o v : ℕ) (wide : Bool)
      → Stacked p.base t fs
      → length fs ≤ p.limit
      → t.sp ≡ p.sp
      → Framed p.sp layout σ.variables t.memory
      → get_elem? layout n ≡ some (wide, o)
      → t.x 11 ≡ v
      → v < 2 ^ bits_of wide
      → Results p layout
          (access_code str wide o)
          t
          (record { variables = set σ.variables n (wide, v); stack = fs })
  assign-Holds t σ fs n o v wide (b, q, slots) few e framed at x small =
      let there = address t n o wide e at in
      let value : read wide 11 t ≡ v = ap (λ y. y % 2 ^ bits_of wide) x ∙ fits_in wide v small in
      let stored : store (bytes_of wide)
            ((base_of 31 t + o / bytes_of wide * bytes_of wide) % 2 ^ 64) (read wide 11 t) t.memory
          ≡ store (bytes_of wide) (p.sp + o) v t.memory =
        (λ i. store (bytes_of wide) (there i) (value i) t.memory) in
      let (_, inside) = IsFrame-at p.size layout n o wide placed.frame at in
      let off : (p.sp + o + bytes_of wide ≤ p.base) ⊎ (p.base + 8 * p.limit ≤ p.sp + o) =
        elim placed.apart [ inl before ↦ inl (omega arith) | inr behind ↦ inr (omega arith) ] in
      (
        (
          (
            b,
            q,
            subst (Slots p.base fs) (sym stored) (
                Slots-store_apart p.base p.limit (bytes_of wide) (p.sp + o) v fs t.memory few off
                  slots),
          ),
          e,
          subst (Framed p.sp layout (set σ.variables n (wide, v))) (sym stored) (
              Framed-set p.sp p.size layout σ.variables t.memory n o v wide placed.frame framed at
                small),
        ),
        (
          (λ c out away.
              ap (λ m. m c) stored
              ∙ store_outside (bytes_of wide) (p.sp + o) v t.memory c
                  (elim away [ inl under ↦ inl (omega arith) | inr over ↦ inr (omega arith) ])),
          λ k h g. refl,
        ),
      )
