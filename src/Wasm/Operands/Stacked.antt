-- ===== src/Wasm/Operands/Stacked.antt =====
-- A stack of integers in the memory of the machine, and what the code of push and pop does to it.
-- X20 holds the address of the stack and X21 the bytes that are in use.
use tiny_wasm.Base.{
  bits_of, ℕ, ◌+◌, ◌-◌, ◌*◌, ◌%◌, ◌^◌, ◌≤◌, ◌<◌, ◌≡◌, ◌≢◌, refl, ap, ◌∙◌, ◌⊎◌, inl, Bool, true,
  false, List, [], ◌∷◌, length, arith,
}
use tiny_wasm.A64.{Machine, bytes_of, read, load, store}
use tiny_wasm.A64.Memory.{
  low_bytes, low_bytes-four, low_bytes-eight, load-store, load-store_apart, store_outside,
}
use tiny_wasm.A64.Code.{perform_all}
use tiny_wasm.Wasm.Operands.{Entry}
use tiny_wasm.Wasm.Operands.Emitted.{push_code, pop_code}

-- Each entry lies in eight bytes of its own, the last one on top.
abbrev pub Slots : ℕ → List Entry → (ℕ → ℕ) → Type 0
Slots base [] m = Unit
Slots base ((wide, v) ∷ es) m =
    (load (bytes_of wide) (base + 8 * length es) m ≡ v) × (v < 2 ^ bits_of wide) × Slots base es m

abbrev pub Stacked : ℕ → Machine → List Entry → Type 0
Stacked base s es = (s.x 20 ≡ base) × (s.x 21 ≡ 8 * length es) × Slots base es s.memory

-- What lies outside the stack, and what the code of an operator leaves alone.
abbrev pub Kept : ℕ → ℕ → Machine → Machine → Type 0
Kept base limit s t =
    ((b : ℕ) → (b < base) ⊎ (base + 8 * limit ≤ b) → t.memory b ≡ s.memory b)
    × (t.sp ≡ s.sp)
    × ((n : ℕ) → 12 < n → n ≢ 21 → t.x n ≡ s.x n)

pub Kept-refl : (base limit : ℕ) (s : Machine) → Kept base limit s s
Kept-refl base limit s = ((λ b h. refl), refl, λ n h g. refl)

pub Kept-trans :
    (base limit : ℕ) (s t u : Machine)
    → Kept base limit s t
    → Kept base limit t u
    → Kept base limit s u
Kept-trans base limit s t u (m, p, r) (m', p', r') =
    ((λ b h. m' b h ∙ m b h), p' ∙ p, λ n h g. r' n h g ∙ r n h g)

-- A store behind the entries leaves them.
Slots-store :
    (base n a v : ℕ) (es : List Entry) (m : ℕ → ℕ)
    → base + 8 * length es ≤ a
    → Slots base es m
    → Slots base es (store n a v m)
Slots-store base n a v [] m h slots = tt
Slots-store base n a v ((true, w) ∷ es) m h (l, b, slots) = (
  load-store_apart 8 (base + 8 * length es) n a v m (inl (omega arith)) ∙ l,
  b,
  Slots-store base n a v es m (omega arith) slots,
)
Slots-store base n a v ((false, w) ∷ es) m h (l, b, slots) = (
  load-store_apart 4 (base + 8 * length es) n a v m (inl (omega arith)) ∙ l,
  b,
  Slots-store base n a v es m (omega arith) slots,
)

-- What is read back of a store of a register.
load-store_read :
    (wide : Bool) (a v : ℕ) (m : ℕ → ℕ)
    → load (bytes_of wide) a (store (bytes_of wide) a (v % 2 ^ bits_of wide) m)
      ≡ v % 2 ^ bits_of wide
load-store_read true a v m =
    load-store 8 8 a (v % 2 ^ 64) m (omega arith) ∙ (low_bytes-eight (v % 2 ^ 64) ∙ omega arith)
load-store_read false a v m =
    load-store 4 4 a (v % 2 ^ 32) m (omega arith) ∙ (low_bytes-four (v % 2 ^ 32) ∙ omega arith)

-- The low bytes of a register that is stored, read back.
pub load_pushed :
    (wide narrow : Bool) (v a d r : ℕ) (m : ℕ → ℕ)
    → bytes_of narrow ≤ bytes_of wide
    → v < 2 ^ bits_of narrow
    → d ≡ a
    → r ≡ v
    → load (bytes_of narrow) a (store (bytes_of wide) d r m) ≡ v
load_pushed wide narrow v a d r m hn hv hd hr =
    rw (hd, hr) (load-store (bytes_of narrow) (bytes_of wide) a v m hn ∙ small narrow v hv)
  where
    small : (narrow : Bool) (v : ℕ) → v < 2 ^ bits_of narrow → low_bytes (bytes_of narrow) v ≡ v
    small true v hv = low_bytes-eight v ∙ omega arith
    small false v hv = low_bytes-four v ∙ omega arith

outside :
    (wide : Bool) (base limit d n : ℕ)
    → n < limit
    → d ≡ base + 8 * n
    → {a : ℕ} → (a < base) ⊎ (base + 8 * limit ≤ a)
    → (a < d) ⊎ (d + bytes_of wide ≤ a)
outside wide base limit d n hl hd h = ground arith

module _ (base limit : ℕ) (room : base + 8 * limit < 2 ^ 64) (s : Machine) (es : List Entry) where
  -- The code of a pop: the entry is in the register, and the others stay.
  pub pop_code-Stacked :
      (wide : Bool) (v reg : ℕ)
      → reg < 20
      → length es < limit
      → Stacked base s ((wide, v) ∷ es)
      → let t = perform_all (pop_code wide reg) s in
        Stacked base t es
        × (t.x reg ≡ v)
        × (v < 2 ^ bits_of wide)
        × (t.memory ≡ s.memory)
        × (t.sp ≡ s.sp)
        × ((n : ℕ) → n ≢ reg → n ≢ 21 → t.x n ≡ s.x n)
  pop_code-Stacked wide v reg hr hl (b, p, (l, small, slots)) =
      let below : (s.x 21 % 2 ^ 64 + 2 ^ 64 - 8) % 2 ^ 64 ≡ 8 * length es = omega arith in
      let address : (s.x 20 + (s.x 21 % 2 ^ 64 + 2 ^ 64 - 8) % 2 ^ 64) % 2 ^ 64
          ≡ base + 8 * length es =
        omega arith in
      (
        (ground arith, ground arith, slots),
        ground (arith, ap (λ a. load (bytes_of wide) a s.memory) address, l),
        small,
        refl,
        refl,
        λ n h g. ground arith,
      )

  -- The code of a push: the register is the new top entry, which may be narrower than the register.
  pub push_code-Stacked :
      (wide narrow : Bool) (v reg : ℕ)
      → bytes_of narrow ≤ bytes_of wide
      → v < 2 ^ bits_of narrow
      → length es < limit
      → read wide reg s ≡ v
      → Stacked base s es
      → let t = perform_all (push_code wide reg) s in
        Stacked base t ((narrow, v) ∷ es) × Kept base limit s t
  push_code-Stacked wide narrow v reg hn hv hl hr (b, p, slots) =
      let address : (s.x 20 + s.x 21) % 2 ^ 64 ≡ base + 8 * length es = omega arith in
      let top : load (bytes_of narrow) (base + 8 * length es)
            (store (bytes_of wide) ((s.x 20 + s.x 21) % 2 ^ 64) (read wide reg s) s.memory)
          ≡ v =
        load_pushed wide narrow _ _ _ _ s.memory hn hv address hr in
      (
        (
          b,
          (omega arith),
          (
            top,
            hv,
            Slots-store base (bytes_of wide) _ (read wide reg s) es s.memory (omega arith) slots,
          ),
        ),
        (
          (λ a h.
              store_outside (bytes_of wide) _ (read wide reg s) s.memory a
                (outside wide _ _ _ _ hl address h)),
          refl,
          (λ n h g. ground arith),
        ),
      )
