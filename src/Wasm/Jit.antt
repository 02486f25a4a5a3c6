-- ===== src/Wasm/Jit.antt =====
-- include/Wasm/WasmFunction.hpp: `commonLocalOp` and `jiting_wasm_code`, the loop over the code.
pub mod Termination
use tiny_wasm.Base.{
  ℕ, zero, suc, ◌+◌, ◌-◌, Bool, true, false, List, [], ◌∷◌, ◌++◌, ltb, if◌then◌else◌, Option, none,
  some, length,
}
use tiny_wasm.Base.Int.{ℤ, pos}
use tiny_wasm.Base.Result.{Result, ok, err, thrown, run_on, ended, ◌>>=◌}
use tiny_wasm.Base.Text.{Text, text, text_eq}
use tiny_wasm.Opcode.Base.{RegType, w_reg, x_reg, encode_nop}
use tiny_wasm.Utils.Lower.{hex_to_float, hex_to_double}
use tiny_wasm.Utils.Parse.{stoul16}
use tiny_wasm.Wasm.Types.{WasmValue, int32, int64, float32, float64, TypeCategory, param, local}
use tiny_wasm.Wasm.Function.{WasmFunction, code_at, append_instr}
use tiny_wasm.Wasm.Emit.{
  emit_get, emit_set, emit_const, emit_compare_op, emit_arith_op, emit_if_op, emit_else_op,
  emit_end_op, push_control,
}

-- The three operations on a variable that has been found.
unfoldable pub local_op : Text → ℕ → TypeCategory → WasmFunction → Result WasmFunction
local_op op_type index category fn =
    if text_eq op_type (text "get")
    then emit_get index category fn
    else if text_eq op_type (text "set")
    then emit_set index category false fn
    else if text_eq op_type (text "tee")
    then emit_set index category true fn
    else err (thrown "Unknown Local operation")

-- The index counts the parameters first, then the locals.
unfoldable pub common_local_op : ℕ → Text → WasmFunction → Result WasmFunction
common_local_op i op_type fn = do
  digits ← code_at fn (i + 1)
  var_index ← stoul16 digits
  if ltb var_index (length fn.param_data + length fn.local_data)
      then (if ltb var_index (length fn.param_data)
          then local_op op_type var_index param fn
          else local_op op_type (var_index - length fn.param_data) local fn)
      else err (thrown "Too big index for local data; skipping current op;")

-- The branches for comparisons and for arithmetic, in the order of the source.
abbrev pub compare_ops : List (Text × (RegType × Text))
compare_ops =
    (text "46", (w_reg, text "eq"))
    ∷ (text "51", (x_reg, text "eq"))
    ∷ (text "47", (w_reg, text "ne"))
    ∷ (text "52", (x_reg, text "ne"))
    ∷ (text "48", (w_reg, text "lt"))
    ∷ (text "49", (w_reg, text "cc"))
    ∷ (text "4a", (w_reg, text "gt"))
    ∷ (text "4b", (w_reg, text "hi"))
    ∷ (text "4c", (w_reg, text "le"))
    ∷ (text "4d", (w_reg, text "ls"))
    ∷ (text "4e", (w_reg, text "ge"))
    ∷ (text "4f", (w_reg, text "cs"))
    ∷ (text "53", (x_reg, text "lt"))
    ∷ (text "54", (x_reg, text "cc"))
    ∷ (text "55", (x_reg, text "gt"))
    ∷ (text "56", (x_reg, text "hi"))
    ∷ (text "57", (x_reg, text "le"))
    ∷ (text "58", (x_reg, text "ls"))
    ∷ (text "59", (x_reg, text "ge"))
    ∷ (text "5a", (x_reg, text "cs"))
    ∷ []

abbrev pub arith_ops : List (Text × (ℕ × (ℕ × Bool)))
arith_ops =
    (text "6a", (b'i', (b'+', true)))
    ∷ (text "6b", (b'i', (b'-', true)))
    ∷ (text "6c", (b'i', (b'*', true)))
    ∷ (text "6d", (b'i', (b'/', true)))
    ∷ (text "6e", (b'i', (b'/', false)))
    ∷ (text "7c", (b'l', (b'+', true)))
    ∷ (text "7d", (b'l', (b'-', true)))
    ∷ (text "7e", (b'l', (b'*', true)))
    ∷ (text "7f", (b'l', (b'/', true)))
    ∷ (text "80", (b'l', (b'/', false)))
    ∷ []

unfoldable pub find_op {ℓ} : {A : Type ℓ} → List (Text × A) → Text → Option A
find_op [] c = none
find_op ((k, a) ∷ m) c = if text_eq c k then some a else find_op m c

-- The texts of the `n` bytes from `i` on, one after the other.
unfoldable pub bytes_from : ℕ → ℕ → WasmFunction → Result Text
bytes_from zero i fn = ok []
bytes_from (suc n) i fn = do t ← code_at fn i; ts ← bytes_from n (i + 1) fn; ok (t ++ ts)

-- A branch that emits, and moves on by `n` bytes.
abbrev pub advance : ℕ → ℕ → Result WasmFunction → Result (ℕ × WasmFunction)
advance n i m = do fn ← m; ok (i + n, fn)

-- The last branches; a byte that none of them takes leaves the index and the state as they are.
abbrev pub jit_arith : Option (ℕ × (ℕ × Bool)) → ℕ → WasmFunction → Result (ℕ × WasmFunction)
jit_arith none i fn = ok (i, fn)
jit_arith (some (type_info, (op_type, is_signed))) i fn =
    advance 1 i (emit_arith_op type_info op_type is_signed fn)

abbrev pub jit_compare :
    Option (RegType × Text) → Text → ℕ → WasmFunction → Result (ℕ × WasmFunction)
jit_compare none c i fn = jit_arith (find_op arith_ops c) i fn
jit_compare (some (reg_type, cond_str)) c i fn = advance 1 i (emit_compare_op reg_type cond_str fn)

unfoldable pub jit_operator : Text → ℕ → WasmFunction → Result (ℕ × WasmFunction)
jit_operator c i fn = jit_compare (find_op compare_ops c) c i fn

unfoldable pub jit_const32 : ℕ → WasmFunction → Result WasmFunction
jit_const32 i fn = do digits ← code_at fn (i + 1); v ← stoul16 digits; emit_const (int32 (pos v)) fn

unfoldable pub jit_const64 : ℕ → WasmFunction → Result WasmFunction
jit_const64 i fn = do digits ← code_at fn (i + 1); v ← stoul16 digits; emit_const (int64 (pos v)) fn

-- `hexToFloat` and `hexToDouble` of the bytes; the source takes seven of the eight of a double.
unfoldable pub jit_float32 : ℕ → WasmFunction → Result WasmFunction
jit_float32 i fn = do bytes ← bytes_from 4 (i + 1) fn; emit_const (float32 (hex_to_float bytes)) fn

unfoldable pub jit_float64 : ℕ → WasmFunction → Result WasmFunction
jit_float64 i fn = do bytes ← bytes_from 7 (i + 1) fn; emit_const (float64 (hex_to_double bytes)) fn

-- The body of the loop at a byte `c` at index `i`; the result is the next index.
unfoldable pub jit_byte : Text → ℕ → WasmFunction → Result (ℕ × WasmFunction)
jit_byte c i fn =
    if text_eq c (text "01")
    then advance 1 i (append_instr (encode_nop true) fn)
    else if text_eq c (text "04")
    then advance 2 i (emit_if_op (i + 1) fn)
    else if text_eq c (text "05")
    then advance 1 i (emit_else_op fn)
    else if text_eq c (text "0f")
    then advance 1 i (ok fn)
    else if text_eq c (text "0b")
    then advance 1 i (emit_end_op fn)
    else if text_eq c (text "20")
    then advance 2 i (common_local_op i (text "get") fn)
    else if text_eq c (text "21")
    then advance 2 i (common_local_op i (text "set") fn)
    else if text_eq c (text "22")
    then advance 2 i (common_local_op i (text "tee") fn)
    else if text_eq c (text "41")
    then advance 2 i (jit_const32 i fn)
    else if text_eq c (text "42")
    then advance 2 i (jit_const64 i fn)
    else if text_eq c (text "43")
    then advance 5 i (jit_float32 i fn)
    else if text_eq c (text "44")
    then advance 9 i (jit_float64 i fn)
    else jit_operator c i fn

unfoldable pub jit_step : ℕ → WasmFunction → Result (ℕ × WasmFunction)
jit_step i fn = do c ← code_at fn i; jit_byte c i fn

-- `while (i < code_vec.size())`.
unfoldable pub jit_loop : ℕ → ℕ → WasmFunction → Option (Result WasmFunction)
jit_loop zero i fn = none
jit_loop (suc fuel) i fn =
    let rest = run_on (jit_step i fn) λ s. jit_loop fuel s.0 s.1 in
    if ltb i (length fn.code_vec) then rest else some (ok fn)

-- A round that moves on takes one byte at least, so one more round than bytes is enough.
unfoldable pub jiting_wasm_code : ℕ → WasmFunction → Result WasmFunction
jiting_wasm_code i fn =
    ended (jit_loop (suc (length fn.code_vec)) i (push_control (text "end") fn.result_data fn))
