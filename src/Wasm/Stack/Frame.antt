-- ===== src/Wasm/Stack/Frame.antt =====
-- The frame that `getStackPreallocateSize` reserves.
use tiny_wasm.Base.{ℕ, ◌+◌, ◌%◌, ◌≤◌, ◌<◌, ◌≡◌, List, [], ◌∷◌, arith}
use tiny_wasm.Wasm.Types.{WasmValue}
use tiny_wasm.Wasm.Function.{WasmFunction}
use tiny_wasm.Wasm.Stack.{var_size, allocate_vars, align, get_stack_preallocate_size}

allocate_vars-grows : (vs : List WasmValue) (o : ℕ) → o ≤ allocate_vars vs o
unfolding allocate_vars
allocate_vars-grows [] o = omega arith
allocate_vars-grows (v ∷ vs) o = omega (arith, allocate_vars-grows vs (o + var_size v))

align-fits : (n : ℕ) → (align n % 16 ≡ 0) × (n ≤ align n) × (align n < n + 16)
unfolding align
align-fits n = (ground arith, ground arith, ground arith)

-- The size of the frame is the least multiple of 16 that is not below the end of the locals, and the
-- locals start 8 bytes behind the end of the parameters.
pub get_stack_preallocate_size-frame :
    (fn : WasmFunction)
    → let g = get_stack_preallocate_size fn in
      (g.stack_size % 16 ≡ 0)
      × (g.local_stack_end_location ≤ g.stack_size)
      × (g.stack_size < g.local_stack_end_location + 16)
      × (g.local_stack_start_location ≡ g.param_stack_end_location + 8)
      × (g.local_stack_start_location ≤ g.local_stack_end_location)
unfolding get_stack_preallocate_size
get_stack_preallocate_size-frame fn =
    let start = allocate_vars fn.param_data 0 + 8 in
    let end = allocate_vars fn.local_data start in
    let (whole, above, near) = align-fits end in
    (whole, above, near, omega arith, allocate_vars-grows fn.local_data start)
