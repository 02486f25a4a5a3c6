-- ===== src/Wasm/Statements/Prologue/Run.antt =====
-- `main_entry_initialize` of include/Wasm/WasmFunction.hpp on a machine.
use tiny_wasm.Base.{
  ℕ, zero, suc, ◌+◌, ◌-◌, ◌*◌, ◌%◌, ◌^◌, ◌≤◌, ◌<◌, ◌≡◌, ◌≢◌, ap, subst, ◌∙◌, ◌⊎◌, inl, inr, ◌++◌,
  arith,
}
use tiny_wasm.A64.{Machine}
use tiny_wasm.A64.Code.{perform_all, perform_all-append, AreEncodable, AreEncodable-append}
use tiny_wasm.Wasm.Stack.{align}
use tiny_wasm.Wasm.Statements.Frame.{Framed, Framed-same}
use tiny_wasm.Wasm.Statements.Prologue.{down, end_of, layout_of, params-IsFrame}
use tiny_wasm.Wasm.Statements.Prologue.Code.{param_code, local_code}
use tiny_wasm.Wasm.Statements.Prologue.Entry.{entry_code}
use tiny_wasm.Wasm.Statements.Prologue.Memory.{
  fill, arguments, zeros, entries, arguments-AreSmall, zeros-AreSmall, length-arguments,
  length-zeros, fill_outside, fill-Framed, Framed-append, perform-param_code, perform-local_code,
}

pub align-fits : (e : ℕ) → e ≤ align e
unfolding align
align-fits e = ground arith

-- Room above the end for one more slot, but for ends at a multiple of 16.
pub align-room : (n m : ℕ) → (n + m) % 4 ≢ 2 → end_of n m + 4 ≤ align (end_of n m)
unfolding align
align-room n m h = ground arith

pub align-exact : (n m : ℕ) → (n + m) % 4 ≡ 2 → align (end_of n m) ≡ end_of n m
unfolding align
align-exact n m h = ground arith

param_code-AreEncodable : (n g o : ℕ) → g + n ≤ 31 → o < 4096 → AreEncodable (param_code n g o)
param_code-AreEncodable zero g o few near = tt
param_code-AreEncodable (suc n) g o few near =
    (omega arith, param_code-AreEncodable n (g + 1) (o - 4) (omega arith) (omega arith))

local_code-AreEncodable : (m o : ℕ) → o < 4096 → AreEncodable (local_code m o)
local_code-AreEncodable zero o near = tt
local_code-AreEncodable (suc m) o near =
    (omega arith, local_code-AreEncodable m (o - 4) (omega arith))

pub entry_code-AreEncodable :
    (n m : ℕ) → n ≤ 31 → align (end_of n m) < 4096 → AreEncodable (entry_code n m)
entry_code-AreEncodable n m few small =
    let fits = align-fits (end_of n m) in
    (
      small,
      AreEncodable-append (param_code n 0 (4 * n)) (local_code m (end_of n m))
          (param_code-AreEncodable n 0 (4 * n) (omega arith) (omega arith))
          (local_code-AreEncodable m (end_of n m) (omega arith)),
    )

-- The memory behind the code.
abbrev pub entry_memory : ℕ → ℕ → ℕ → Machine → ℕ → ℕ
entry_memory n m sp s =
    fill (zeros m) (sp + end_of n m) (fill (arguments n 0 s.x) (sp + 4 * n) s.memory)

pub perform-entry_code :
    (n m : ℕ) (s : Machine)
    → align (end_of n m) ≤ s.sp
    → s.sp < 2 ^ 64
    → let sp = s.sp - align (end_of n m) in
      perform_all (entry_code n m) s ≡ record s { sp = sp; memory = entry_memory n m sp s }
perform-entry_code n m s room inside =
    let e = end_of n m in
    let fits = align-fits e in
    let sp = s.sp - align e in
    let there : (s.sp + 2 ^ 64 - align e) % 2 ^ 64 ≡ sp = omega arith in
    let t = record s { sp = sp } in
    ap (λ p. perform_all (param_code n 0 (4 * n) ++ local_code m e) (record s { sp = p })) there
    ∙ (perform_all-append (param_code n 0 (4 * n)) (local_code m e) t
        ∙ (ap (perform_all (local_code m e))
              (perform-param_code n 0 (4 * n) t (omega arith) (omega arith) (omega arith))
            ∙ perform-local_code m e
                (record t { memory = fill (arguments n 0 s.x) (sp + 4 * n) s.memory }) (omega arith)
                (omega arith) (omega arith)))

pub entry-Framed :
    (n m sp : ℕ) (s : Machine)
    → Framed sp
        (layout_of n m)
        (entries (arguments n 0 s.x) ++ entries (zeros m))
        (entry_memory n m sp s)
entry-Framed n m sp s =
    let e = end_of n m in
    let args = arguments n 0 s.x in
    let before = fill args (sp + 4 * n) s.memory in
    let na = length-arguments n 0 s.x in
    let nz = length-zeros m in
    let params : Framed sp (down n (4 * n)) (entries args) before =
      subst (λ k. Framed sp (down k (4 * n)) (entries args) before) na
        (fill-Framed sp (4 * n) args s.memory (omega arith) (arguments-AreSmall n 0 s.x)) in
    let locals : Framed sp (down m e) (entries (zeros m)) (fill (zeros m) (sp + e) before) =
      subst (λ k. Framed sp (down k e) (entries (zeros m)) (fill (zeros m) (sp + e) before)) nz
        (fill-Framed sp e (zeros m) before (omega arith) (zeros-AreSmall m)) in
    Framed-append sp (down n (4 * n)) (down m e) (entries args) (entries (zeros m)) _
      (Framed-same sp (4 * n + 4) (down n (4 * n)) (entries args) before _
        (params-IsFrame (4 * n + 4) n (omega arith))
        (λ b above below.
          fill_outside (zeros m) (sp + e) b before (omega arith) (inr (omega arith)))
        params)
      locals

-- The memory outside the frame.
pub entry_memory-outside :
    (n m sp size b : ℕ) (s : Machine)
    → end_of n m ≤ size
    → (0 < m → end_of n m + 4 ≤ size)
    → (b < sp) ⊎ (sp + size ≤ b)
    → entry_memory n m sp s b ≡ s.memory b
entry_memory-outside n m sp size b s fits room off =
    let na = length-arguments n 0 s.x in
    let nz = length-zeros m in
    let before = fill (arguments n 0 s.x) (sp + 4 * n) s.memory in
    fill_outside (zeros m) (sp + end_of n m) b before (omega arith) (elim off [
      | inl under ↦ inr (omega arith)
      | inr over ↦ inl (λ h. omega (arith, room (omega arith)))
    ])
    ∙ fill_outside (arguments n 0 s.x) (sp + 4 * n) b s.memory (omega arith)
        (elim off [ inl under ↦ inr (omega arith) | inr over ↦ inl (λ h. omega arith) ])
