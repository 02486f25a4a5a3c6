-- ===== src/Wasm/Statements/Emitted/Bytes.antt =====
-- The bytes of a statement, and a round of the compiler's loop on them.
use tiny_wasm.Base.{
  ℕ, ◌+◌, ◌-◌, ◌<◌, ◌≡◌, refl, sym, ap, subst, ◌∙◌, Bool, true, false, List, [], ◌∷◌, arith, ltb,
  lt→ltb, if◌then◌else◌, length, get_elem?, get_elem?-lt, get_elem?-some, Option, some, none,
}
use tiny_wasm.Base.Result.{ok, or_undefined, ◌>>=◌}
use tiny_wasm.Base.Text.{Text, text}
use tiny_wasm.A64.{Instruction}
use tiny_wasm.Utils.Hex.{hex_pad}
use tiny_wasm.Utils.Parse.RoundTrip.{stoul16-hex_pad}
use tiny_wasm.Wasm.Types.{TypeCategory, param, local}
use tiny_wasm.Wasm.Function.{WasmFunction, code_at}
use tiny_wasm.Wasm.Initialize.Slots.{HasSlot}
use tiny_wasm.Wasm.Jit.{local_op, common_local_op, jit_byte, jit_step, advance}
use tiny_wasm.Wasm.Operands.Emitted.{register, with_code, code_of}
use tiny_wasm.Wasm.Operands.Bytes.{IsShort, HasBytes, bytes_of, operator_step}
use tiny_wasm.Wasm.Statements.{Access, local_get, local_set, local_tee, Statement, operator, access}
use tiny_wasm.Wasm.Statements.Emitted.{
  Layout, slot_of, HasLayout, get_code, set_code, tee_code, emit_get-code, emit_set-code,
  emit_tee-code,
}

abbrev pub access_name : Access → Text
access_name local_get = text "get"
access_name local_set = text "set"
access_name local_tee = text "tee"

abbrev pub access_opcode : Access → Text
access_opcode local_get = text "20"
access_opcode local_set = text "21"
access_opcode local_tee = text "22"

abbrev pub code_of_access : Access → Bool → ℕ → List Instruction
code_of_access local_get wide o = get_code wide o
code_of_access local_set wide o = set_code wide o
code_of_access local_tee wide o = tee_code wide o

local_op-code :
    (a : Access) (n o : ℕ) (c : TypeCategory) (wide : Bool) (fn : WasmFunction)
    → o < 16384
    → HasSlot fn (c, n) o (register wide)
    → local_op (access_name a) n c fn ≡ ok (with_code (code_of_access a wide o) fn)
unfolding local_op
local_op-code local_get n o c wide fn near slot = emit_get-code fn n o c wide near slot
local_op-code local_set n o c wide fn near slot = emit_set-code fn n o c wide near slot
local_op-code local_tee n o c wide fn near slot = emit_tee-code fn n o c wide near slot

common_local_op-code :
    (a : Access) (layout : Layout) (i n o : ℕ) (wide : Bool) (fn : WasmFunction)
    → HasLayout fn layout
    → n < 256
    → o < 16384
    → code_at fn (i + 1) ≡ ok (hex_pad 2 n)
    → get_elem? layout n ≡ some (wide, o)
    → common_local_op i (access_name a) fn ≡ ok (with_code (code_of_access a wide o) fn)
unfolding common_local_op
common_local_op-code a layout i n o wide fn (size, slots) byte near code at =
    let inside : n < length fn.param_data + length fn.local_data =
      omega (arith, size, get_elem?-lt layout n (wide, o) at) in
    rw (code, stoul16-hex_pad n byte, lt→ltb n (length fn.param_data + length fn.local_data) inside)
      (which (ltb n (length fn.param_data)) refl (slots n o wide at))
  where
    which :
        (t : Bool)
        → ltb n (length fn.param_data) ≡ t
        → HasSlot fn (slot_of fn n) o (register wide)
        → (if t
            then local_op (access_name a) n param fn
            else local_op (access_name a) (n - length fn.param_data) local fn)
          ≡ ok (with_code (code_of_access a wide o) fn)
    which true e slot =
        local_op-code a n o param wide fn near
          (subst (λ s. HasSlot fn s o (register wide)) (rw e refl) slot)
    which false e slot =
        local_op-code a (n - length fn.param_data) o local wide fn near
          (subst (λ s. HasSlot fn s o (register wide)) (rw e refl) slot)

access_byte :
    (a : Access) (i : ℕ) (fn : WasmFunction)
    → jit_byte (access_opcode a) i fn ≡ advance 2 i (common_local_op i (access_name a) fn)
unfolding jit_byte
access_byte local_get i fn = refl
access_byte _ i fn = refl

abbrev pub IsShortStatement : Statement → Type 0
IsShortStatement (operator op) = IsShort op
IsShortStatement (access a n) = n < 128

abbrev pub bytes_of_statement : Statement → List Text
bytes_of_statement (operator op) = bytes_of op
bytes_of_statement (access a n) = access_opcode a ∷ hex_pad 2 n ∷ []

abbrev pub access_at : Access → Option (Bool × ℕ) → List Instruction
access_at a none = []
access_at a (some (wide, o)) = code_of_access a wide o

-- The code of a statement. An access to a variable that is not there has none.
abbrev pub code_of_statement : Layout → Statement → List Instruction
code_of_statement layout (operator op) = code_of op
code_of_statement layout (access a n) = access_at a (get_elem? layout n)

-- The variables of a statement are there.
abbrev pub IsIn : Layout → Statement → Type 0
IsIn layout (operator op) = Unit
IsIn layout (access a n) = n < length layout

-- Every offset can be encoded.
abbrev pub IsNear : Layout → Type 0
IsNear layout = (n o : ℕ) (wide : Bool) → get_elem? layout n ≡ some (wide, o) → o < 16384

pub statement_step :
    (layout : Layout) (st : Statement) (i : ℕ) (fn : WasmFunction)
    → HasLayout fn layout
    → IsNear layout
    → IsIn layout st
    → IsShortStatement st
    → HasBytes fn.code_vec i (bytes_of_statement st)
    → jit_step i fn
      ≡ ok (i + length (bytes_of_statement st), with_code (code_of_statement layout st) fn)
unfolding jit_step
statement_step layout (operator op) i fn has near inside short bytes =
    operator_step op i fn short bytes
statement_step layout (access a n) i fn has near inside short (first, (second, _)) =
    let ((wide, o), at) = get_elem?-some layout n inside in
    ap (λ b. or_undefined b >>= λ c. jit_byte c i fn) first
    ∙ (access_byte a i fn
        ∙ ap (advance 2 i) (
            common_local_op-code a layout i n o wide fn has (omega arith) (near n o wide at)
              (ap or_undefined second) at
            ∙ ap (λ v. ok (with_code (access_at a v) fn)) (sym at)))
