-- ===== src/Wasm/Statements/Prologue/Slots.antt =====
-- The tables that `initParam` and `initLocal` leave hold the layout of the frame.
use mathlib.Core.List.{append-nil}
use mathlib.Core.Option.{some-injective}
use tiny_wasm.Base.{
  ℕ, zero, suc, ◌+◌, ◌-◌, ◌*◌, ◌≤◌, ◌<◌, ◌≡◌, refl, sym, ap, subst, ◌∙◌, Bool, true, false, List,
  [], length, arith, get_elem?, get_elem?-lt, some, ltb, ltb→lt, if◌then◌else◌,
}
use tiny_wasm.Base.Int.{ℤ}
use tiny_wasm.Opcode.Base.{RegType, w_reg}
use tiny_wasm.A64.{Instruction}
use tiny_wasm.Wasm.Types.{TypeCategory, param, result, local}
use tiny_wasm.Wasm.Function.{WasmFunction, slot_or}
use tiny_wasm.Wasm.Stack.{get_stack_preallocate_size}
use tiny_wasm.Wasm.Initialize.Slots.{HasSlot}
use tiny_wasm.Wasm.Operands.Emitted.{register, with_code}
use tiny_wasm.Wasm.Statements.Emitted.{HasLayout}
use tiny_wasm.Wasm.Statements.Prologue.{
  ints, down, end_of, layout_of, length-ints, length-down, get_elem?-down, get_elem?-down_behind,
}
use tiny_wasm.Wasm.Statements.Prologue.Code.{record_slot, record_slots}
use tiny_wasm.Wasm.Statements.Prologue.Entry.{entry_tables, entry_tables-data}

record_slot-self :
    (c : TypeCategory) (i o : ℕ) (fn : WasmFunction) → HasSlot (record_slot c i o fn) (c, i) o w_reg
unfolding slot_or
record_slot-self param i o fn = ground arith
record_slot-self result i o fn = ground arith
record_slot-self local i o fn = ground arith

record_slot-other :
    (c : TypeCategory) (i o k q : ℕ) (r : RegType) (fn : WasmFunction)
    → k < i
    → HasSlot fn (c, k) q r
    → HasSlot (record_slot c i o fn) (c, k) q r
unfolding slot_or
record_slot-other param i o k q r fn h s = ground arith
record_slot-other result i o k q r fn h s = ground arith
record_slot-other local i o k q r fn h s = ground arith

record_local-param :
    (i o k q : ℕ) (r : RegType) (fn : WasmFunction)
    → HasSlot fn (param, k) q r
    → HasSlot (record_slot local i o fn) (param, k) q r
unfolding slot_or
record_local-param i o k q r fn s = s

record_slots-keeps :
    (c : TypeCategory) (n i o k q : ℕ) (r : RegType) (fn : WasmFunction)
    → k < i
    → HasSlot fn (c, k) q r
    → HasSlot (record_slots c n i o fn) (c, k) q r
record_slots-keeps c zero i o k q r fn h s = s
record_slots-keeps c (suc n) i o k q r fn h s =
    record_slots-keeps c n (i + 1) (o - 4) k q r (record_slot c i o fn) (omega arith)
      (record_slot-other c i o k q r fn h s)

locals_keep_params :
    (n i o k q : ℕ) (r : RegType) (fn : WasmFunction)
    → HasSlot fn (param, k) q r
    → HasSlot (record_slots local n i o fn) (param, k) q r
locals_keep_params zero i o k q r fn s = s
locals_keep_params (suc n) i o k q r fn s =
    locals_keep_params n (i + 1) (o - 4) k q r (record_slot local i o fn)
      (record_local-param i o k q r fn s)

moved :
    (c : TypeCategory) (i k o q : ℕ) (fn : WasmFunction)
    → i ≡ k
    → o ≡ q
    → HasSlot fn (c, i) o w_reg
    → HasSlot fn (c, k) q w_reg
moved c i k o q fn e f h =
    subst (λ j. HasSlot fn (c, j) q w_reg) e (subst (λ p. HasSlot fn (c, i) p w_reg) f h)

record_slots-HasSlot :
    (c : TypeCategory) (n i o j : ℕ) (fn : WasmFunction)
    → j < n
    → HasSlot (record_slots c n i o fn) (c, i + j) (o - 4 * j) w_reg
record_slots-HasSlot c zero i o j fn h = absurd (omega arith)
record_slots-HasSlot c (suc n) i o zero fn h =
    moved c i (i + 0) o (o - 4 * 0) (record_slots c (suc n) i o fn) (omega arith) (omega arith) (
      record_slots-keeps c n (i + 1) (o - 4) i o w_reg (record_slot c i o fn) (omega arith)
        (record_slot-self c i o fn))
record_slots-HasSlot c (suc n) i o (suc j) fn h =
    moved c (i + 1 + j) (i + suc j) (o - 4 - 4 * j) (o - 4 * suc j) (record_slots c (suc n) i o fn)
      (omega arith) (omega arith)
      (record_slots-HasSlot c n (i + 1) (o - 4) j (record_slot c i o fn) (omega arith))

entry-param :
    (n m j : ℕ) (fn : WasmFunction)
    → j < n
    → HasSlot (entry_tables n m fn) (param, j) (4 * n - 4 * j) w_reg
entry-param n m j fn h =
    let fn0 = get_stack_preallocate_size fn in
    locals_keep_params m 0 (end_of n m) j (4 * n - 4 * j) w_reg (record_slots param n 0 (4 * n) fn0)
      (moved param (0 + j) j (4 * n - 4 * j) (4 * n - 4 * j) (record_slots param n 0 (4 * n) fn0)
        (omega arith) refl (record_slots-HasSlot param n 0 (4 * n) j fn0 h))

pub entry-local :
    (n m j : ℕ) (fn : WasmFunction)
    → j < m
    → HasSlot (entry_tables n m fn) (local, j) (end_of n m - 4 * j) w_reg
entry-local n m j fn h =
    let fn1 = record_slots param n 0 (4 * n) (get_stack_preallocate_size fn) in
    moved local (0 + j) j (end_of n m - 4 * j) (end_of n m - 4 * j) (entry_tables n m fn)
      (omega arith) refl (record_slots-HasSlot local m 0 (end_of n m) j fn1 h)

pub length-layout_of : (n m : ℕ) → length (layout_of n m) ≡ n + m
length-layout_of n m =
    length-down n (4 * n) (down m (end_of n m))
    ∙ omega (arith, length-down m (end_of n m) [], length-alone)
  where
    length-alone : length (down m (end_of n m)) ≡ m
    length-alone =
        ap length (sym (append-nil (down m (end_of n m))))
        ∙ (length-down m (end_of n m) [] ∙ omega arith)

-- The slot of variable `k`, whose offset the layout gives.
entry_slot :
    (n m k : ℕ) (fn : WasmFunction)
    → k < n + m
    → (o : ℕ) × (get_elem? (layout_of n m) k ≡ some (false, o))
      × HasSlot (entry_tables n m fn) (if ltb k n then (param, k) else (local, k - n)) o w_reg
entry_slot n m k fn h = which (ltb k n) refl
  where
    which :
        (t : Bool)
        → ltb k n ≡ t
        → (o : ℕ) × (get_elem? (layout_of n m) k ≡ some (false, o))
          × HasSlot (entry_tables n m fn) (if t then (param, k) else (local, k - n)) o w_reg
    which true e =
        let below = ltb→lt k n e in
        (
          4 * n - 4 * k,
          get_elem?-down n (4 * n) k (down m (end_of n m)) below,
          entry-param n m k fn below,
        )
    which false e =
        let behind : n ≤ k = ground arith in
        (
          end_of n m - 4 * (k - n),
          get_elem?-down_behind n (4 * n) k (down m (end_of n m)) behind
              ∙ (ap (λ l. get_elem? l (k - n)) (sym (append-nil (down m (end_of n m))))
                  ∙ get_elem?-down m (end_of n m) (k - n) [] (omega arith)),
          entry-local n m (k - n) fn (omega arith),
        )

pub entry_tables-HasLayout :
    (fn : WasmFunction) (ps ls : List ℤ) (is : List Instruction)
    → fn.param_data ≡ ints ps
    → fn.local_data ≡ ints ls
    → HasLayout
        (with_code is (entry_tables (length ps) (length ls) fn))
        (layout_of (length ps) (length ls))
entry_tables-HasLayout fn ps ls is params locals =
    let n = length ps in
    let m = length ls in
    let g = entry_tables n m fn in
    let (p, l, _, _, _) = entry_tables-data n m fn in
    let np : length g.param_data ≡ n = ap length (p ∙ params) ∙ length-ints ps in
    let ml : length g.local_data ≡ m = ap length (l ∙ locals) ∙ length-ints ls in
    (
      omega (arith, length-layout_of n m, np, ml),
      λ k o wide at.
          let inside : k < n + m =
            omega (arith, length-layout_of n m, get_elem?-lt (layout_of n m) k (wide, o) at) in
          let (q, there, slot) = entry_slot n m k fn inside in
          let same : ◌≡◌ {A = Bool × ℕ} (false, q) (wide, o) =
            some-injective _ _ (sym there ∙ at) in
          subst (λ v. HasSlot g (if ltb k v then (param, k) else (local, k - v)) o (register wide))
            (sym np)
            (subst
              (λ w. HasSlot g (if ltb k n then (param, k) else (local, k - n)) w.1 (register w.0))
              same slot),
    )
