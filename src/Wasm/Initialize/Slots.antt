-- ===== src/Wasm/Initialize/Slots.antt =====
-- The slots that `initParam` and `initLocal` give to the variables of a function.
use tiny_wasm.Base.{
  ℕ, zero, suc, ◌+◌, ◌-◌, ◌*◌, ◌/◌, ◌%◌, ◌≤◌, ◌<◌, ◌≡◌, refl, ap, ◌∙◌, subst, List, [], ◌∷◌, arith,
  get_elem?, some, length,
}
use tiny_wasm.Base.Int.{ℤ}
use tiny_wasm.Base.Result.{Result, ok, Returns, Returns-bind_with, Returns-bind, Returns-ok}
use tiny_wasm.Base.Text.{Text}
use tiny_wasm.Opcode.Base.{RegType, w_reg, x_reg}
use tiny_wasm.Wasm.Types.{WasmValue, int32, int64, float32, float64, param, get_wasm_type}
use tiny_wasm.Wasm.Function.{WasmFunction, Slot, slot_or, append_instr, construct_full_instr}
use tiny_wasm.Wasm.Stack.{var_size, allocate_vars}
use tiny_wasm.Wasm.Initialize.{
  record_param, store_param, init_params, init_param, next_general, next_fp,
}

-- The entry of a variable in the two tables.
abbrev pub HasSlot : WasmFunction → Slot → ℕ → RegType → Type 0
HasSlot fn s offset r =
    (slot_or fn.vec_to_stack s 0 ≡ offset) × (slot_or fn.reg_type_getter s w_reg ≡ r)

-- Appending code touches neither table.
append_keeps :
    (fn : WasmFunction) (e : Result Text) (s : Slot) (o : ℕ) (r : RegType)
    → HasSlot fn s o r
    → Returns (λ (fn' : WasmFunction). HasSlot fn' s o r) (append_instr e fn)
unfolding append_instr
append_keeps fn e s o r h =
    Returns-bind (λ (fn' : WasmFunction). HasSlot fn' s o r) e _
      λ t. Returns-ok (λ (fn' : WasmFunction). HasSlot fn' s o r) (construct_full_instr t fn) h

record_param-self :
    (i o : ℕ) (v : WasmValue) (fn : WasmFunction)
    → HasSlot (record_param i o v fn) (param, i) o (get_wasm_type v)
unfolding slot_or
record_param-self i o v fn = ground arith

record_param-other :
    (i k o q : ℕ) (r : RegType) (v : WasmValue) (fn : WasmFunction)
    → k < i
    → HasSlot fn (param, k) q r
    → HasSlot (record_param i o v fn) (param, k) q r
unfolding slot_or
record_param-other i k o q r v fn h s = ground arith

-- The loop keeps the slots of the parameters before index `i`.
init_params-keeps :
    (vs : List WasmValue) (i o g f : ℕ) (fn : WasmFunction) (k q : ℕ) (r : RegType)
    → k < i
    → HasSlot fn (param, k) q r
    → Returns (λ (fn' : WasmFunction). HasSlot fn' (param, k) q r) (init_params vs i o g f fn)
unfolding init_params
init_params-keeps [] i o g f fn k q r h s =
    Returns-ok (λ (fn' : WasmFunction). HasSlot fn' (param, k) q r) fn s
init_params-keeps (v ∷ vs) i o g f fn k q r h s =
    let P = λ (fn' : WasmFunction). HasSlot fn' (param, k) q r in
    Returns-bind_with P P _ _
      (append_keeps (record_param i o v fn) (store_param v g f o) (param, k) q r
        (record_param-other i k o q r v fn h s))
      λ f1 s1.
        init_params-keeps vs (i + 1) (o - var_size v) (next_general v g) (next_fp v f) f1 k q r
          (omega arith) s1

-- The offset of variable number `j` of `vs`, counted down from `o`.
abbrev pub offset_down : List WasmValue → ℕ → ℕ → ℕ
offset_down [] o j = o
offset_down (v ∷ vs) o zero = o
offset_down (v ∷ vs) o (suc j) = offset_down vs (o - var_size v) j

pub init_params-HasSlot :
    (vs : List WasmValue) (i o g f : ℕ) (fn : WasmFunction) (j : ℕ) (v : WasmValue)
    → get_elem? vs j ≡ some v
    → Returns
        (λ (fn' : WasmFunction). HasSlot fn' (param, i + j) (offset_down vs o j) (get_wasm_type v))
        (init_params vs i o g f fn)
unfolding init_params
init_params-HasSlot [] i o g f fn j v e = absurd (cc)
init_params-HasSlot (u ∷ vs) i o g f fn zero v e =
    let P = λ (fn' : WasmFunction). HasSlot fn' (param, i) o (get_wasm_type v) in
    let same : u ≡ v = cc in
    let mine : HasSlot (record_param i o u fn) (param, i) o (get_wasm_type v) =
      subst (λ x. HasSlot (record_param i o u fn) (param, i) o (get_wasm_type x)) same
        (record_param-self i o u fn) in
    subst
      (λ k.
        Returns (λ (fn' : WasmFunction). HasSlot fn' (param, k) o (get_wasm_type v))
          (init_params (u ∷ vs) i o g f fn))
      (omega arith)
      (Returns-bind_with P P _ _
        (append_keeps (record_param i o u fn) (store_param u g f o) (param, i) o (get_wasm_type v)
          mine)
        λ f1 s1.
          init_params-keeps vs (i + 1) (o - var_size u) (next_general u g) (next_fp u f) f1 i o
            (get_wasm_type v) (omega arith) s1)
init_params-HasSlot (u ∷ vs) i o g f fn (suc j) v e =
    subst
      (λ k.
        Returns
          (λ (fn' : WasmFunction).
            HasSlot fn' (param, k) (offset_down vs (o - var_size u) j) (get_wasm_type v))
          (init_params (u ∷ vs) i o g f fn))
      (omega arith)
      (Returns-bind _ (append_instr (store_param u g f o) (record_param i o u fn)) _ λ f1.
        init_params-HasSlot vs (i + 1) (o - var_size u) (next_general u g) (next_fp u f) f1 j v e)

-- The bytes that a variable takes in the frame: four for an i32, an i64 and an f32, eight for an f64.
abbrev pub taken : WasmValue → ℕ
taken (int32 v) = 4
taken (int64 v) = 4
taken (float32 v) = 4
taken (float64 v) = 8

-- Those of variable `j` and of the variables behind it.
abbrev pub taken_from : List WasmValue → ℕ → ℕ
taken_from [] j = 0
taken_from (v ∷ vs) zero = taken v + taken_from vs 0
taken_from (v ∷ vs) (suc j) = taken_from vs j

var_size-taken : (v : WasmValue) → var_size v ≡ taken v
var_size-taken (int32 v) = refl
var_size-taken (int64 v) = refl
var_size-taken (float32 v) = refl
var_size-taken (float64 v) = refl

allocate_vars-taken : (vs : List WasmValue) (o : ℕ) → allocate_vars vs o ≡ o + taken_from vs 0
unfolding allocate_vars
allocate_vars-taken [] o = omega arith
allocate_vars-taken (v ∷ vs) o =
    omega (arith, allocate_vars-taken vs (o + var_size v), var_size-taken v)

offset_down-taken :
    (vs : List WasmValue) (j : ℕ) (v : WasmValue)
    → get_elem? vs j ≡ some v
    → offset_down vs (taken_from vs 0) j ≡ taken_from vs j
offset_down-taken [] j v e = absurd (cc)
offset_down-taken (u ∷ vs) zero v e = refl
offset_down-taken (u ∷ vs) (suc j) v e =
    let rest : taken u + taken_from vs 0 - var_size u ≡ taken_from vs 0 =
      omega (arith, var_size-taken u) in
    ap (λ o. offset_down vs o j) rest ∙ offset_down-taken vs j v e

-- When `initParam` returns, and the end of the parameters is where `getStackPreallocateSize` puts it,
-- each parameter has the kind of register of its type, and the slot at the sum of the bytes that it
-- and the parameters behind it take: eight for an f64, four for any other type.
pub init_param-HasSlot :
    (fn fn' : WasmFunction) (j : ℕ) (v : WasmValue)
    → fn.param_stack_end_location ≡ allocate_vars fn.param_data 0
    → init_param fn ≡ ok fn'
    → get_elem? fn.param_data j ≡ some v
    → HasSlot fn' (param, j) (taken_from fn.param_data j) (get_wasm_type v)
unfolding init_param
init_param-HasSlot fn fn' j v bottom h e =
    let end : fn.param_stack_end_location ≡ taken_from fn.param_data 0 =
      bottom ∙ (allocate_vars-taken fn.param_data 0 ∙ omega arith) in
    let place : offset_down fn.param_data fn.param_stack_end_location j
        ≡ taken_from fn.param_data j =
      ap (λ o. offset_down fn.param_data o j) end ∙ offset_down-taken fn.param_data j v e in
    let same : 0 + j ≡ j = omega arith in
    subst (λ k. HasSlot fn' (param, k) (taken_from fn.param_data j) (get_wasm_type v)) same
      (subst (λ o. HasSlot fn' (param, 0 + j) o (get_wasm_type v)) place
        (init_params-HasSlot fn.param_data 0 fn.param_stack_end_location 0 0 fn j v e fn' h))

-- Parameters of type i64.
abbrev pub longs : List ℤ → List WasmValue
longs [] = []
longs (z ∷ zs) = int64 z ∷ longs zs

-- The address, relative to the stack pointer, that a load or store of eight bytes at an offset
-- reaches: the word holds the offset in units of eight.
abbrev pub address64 : ℕ → ℕ
address64 offset = offset / 8 * 8

taken_from-longs : (zs : List ℤ) (j : ℕ) → taken_from (longs zs) j ≡ 4 * length zs - 4 * j
taken_from-longs [] j = omega arith
taken_from-longs (z ∷ zs) zero = omega (arith, taken_from-longs zs 0)
taken_from-longs (z ∷ zs) (suc j) = omega (arith, taken_from-longs zs j)

get_elem?-longs :
    (zs : List ℤ) (j : ℕ) → j < length zs → (z : ℤ) × (get_elem? (longs zs) j ≡ some (int64 z))
get_elem?-longs [] j h = absurd (omega arith)
get_elem?-longs (z ∷ zs) zero h = (z, refl)
get_elem?-longs (z ∷ zs) (suc j) h = get_elem?-longs zs j (omega arith)

-- With three parameters or more, all of type i64, and the end of the parameters where
-- `getStackPreallocateSize` puts it, two parameters next to each other get slots whose 64-bit loads
-- and stores have the same address: the first two if the number is odd, else the second and the third.
pub init_param-collision :
    (zs : List ℤ) (fn fn' : WasmFunction)
    → 3 ≤ length zs
    → fn.param_data ≡ longs zs
    → fn.param_stack_end_location ≡ allocate_vars fn.param_data 0
    → init_param fn ≡ ok fn'
    → let j = (length zs + 1) % 2 in
      (a b : ℕ) × HasSlot fn' (param, j) a x_reg
      × HasSlot fn' (param, j + 1) b x_reg
      × (address64 a ≡ address64 b)
init_param-collision zs fn fn' big params bottom h =
    let n = length zs in
    let j = (n + 1) % 2 in
    let slot : (k : ℕ) → k < n → HasSlot fn' (param, k) (taken_from fn.param_data k) x_reg =
      λ k below.
        let (z, at) = get_elem?-longs zs k below in
        init_param-HasSlot fn fn' k (int64 z) bottom h (ap (λ vs. get_elem? vs k) params ∙ at) in
    let place : (k : ℕ) → taken_from fn.param_data k ≡ 4 * n - 4 * k =
      λ k. ap (λ vs. taken_from vs k) params ∙ taken_from-longs zs k in
    (
      taken_from fn.param_data j,
      taken_from fn.param_data (j + 1),
      slot j (omega arith),
      slot (j + 1) (omega arith),
      omega (arith, place j, place (j + 1)),
    )
