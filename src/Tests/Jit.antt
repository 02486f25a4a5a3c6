-- ===== src/Tests/Jit.antt =====
-- Rounds of the compiler's loop.
use tiny_wasm.Base.{◌≡◌, refl, List, [], ◌∷◌, none, some, arith}
use tiny_wasm.Base.Int.{pos}
use tiny_wasm.Base.Result.{Result, ended, Returns}
use tiny_wasm.Base.Text.{Text, text}
use tiny_wasm.Wasm.Types.{int32}
use tiny_wasm.Wasm.Function.{WasmFunction, wasm_function, set_code_vec}
use tiny_wasm.Wasm.Jit.{jit_loop, find_op}
use tiny_wasm.Wasm.Jit.Termination.{opcode_width, Decodes, end, next, jit_loop_ends, jit_loop_stuck}
use tiny_wasm.Wasm.Assemble.Laid.{IsLaid}
use tiny_wasm.Wasm.Assemble.Loop.{jit_loop-IsLaid}

-- local.get 0; end.
abbrev identity_code : List Text
identity_code = text "20" ∷ text "00" ∷ text "0b" ∷ []

abbrev identity : WasmFunction
identity = set_code_vec identity_code 0 (record wasm_function { param_data = int32 (pos 0) ∷ [] })

identity-IsLaid : IsLaid ((identity_code, []), []) identity
identity-IsLaid = record {
  items = [];
  instrs_eq = refl;
  fakes_eq = refl;
  labels_between = tt;
  code_eq = refl;
  labels_kept = λ l v h. h;
}

identity-Decodes : Decodes identity_code 0
unfolding opcode_width find_op
identity-Decodes =
    next (text "20") refl (omega arith) (next (text "0b") refl (omega arith) (end (omega arith)))

jit_loop_ends_example : (r : Result WasmFunction) × (jit_loop 4 0 identity ≡ some r)
jit_loop_ends_example =
    jit_loop_ends identity_code [] 0 4 identity identity-Decodes identity-IsLaid (omega arith)

jit_loop-IsLaid_example : Returns (IsLaid ((identity_code, []), [])) (ended (jit_loop 4 0 identity))
jit_loop-IsLaid_example = jit_loop-IsLaid ((identity_code, []), []) 4 0 identity identity-IsLaid

-- `unreachable` has no branch in the compiler.
abbrev unknown : WasmFunction
unknown = set_code_vec (text "00" ∷ text "0b" ∷ []) 0 wasm_function

unknown_width : opcode_width (text "00") ≡ 0
unfolding opcode_width find_op
unknown_width = refl

jit_loop_stuck_example : jit_loop 1000 0 unknown ≡ none
jit_loop_stuck_example = jit_loop_stuck 1000 0 unknown (text "00") refl unknown_width
