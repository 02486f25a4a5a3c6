-- ===== src/Wasm/Statements/Emitted.antt =====
-- The instructions that include/Wasm/Emit.hpp appends for an access to a variable.
pub mod Bytes
use mathlib.Core.List.{append-nil}
use tiny_wasm.Base.{
  ℕ, ◌+◌, ◌-◌, ◌*◌, ◌/◌, ◌%◌, ◌^◌, ◌<◌, ◌≡◌, refl, sym, ap, subst, ◌∙◌, Bool, true, false, List, [],
  ◌∷◌, ◌++◌, arith, ltb, if◌then◌else◌, length, get_elem?, Option, some, none,
}
use tiny_wasm.Base.Int.{pos, signed}
use tiny_wasm.Base.Result.{Result, ok, ◌>>=◌}
use tiny_wasm.Base.Text.{Text, text}
use tiny_wasm.Opcode.Base.{RegType, w_reg, x_reg, is_x, str, ldr, LdStType, unsigned_offset}
use tiny_wasm.Opcode.LoadStore.{encode_load_store_imm, encode_load_store_reg}
use tiny_wasm.A64.{Instruction, load_store_imm, load_store_reg, add_sub_imm, bytes_of}
use tiny_wasm.A64.Code.{
  code_text, code_text-append, Gives, Gives-append, add_sub_imm-Gives, load_store_reg-Gives,
  load_store_imm-Gives,
}
use tiny_wasm.Wasm.Types.{TypeCategory, param, local}
use tiny_wasm.Wasm.Function.{WasmFunction, Slot, slot_or, construct_full_instr}
use tiny_wasm.Wasm.Initialize.{int16, load_store_sp}
use tiny_wasm.Wasm.Initialize.Slots.{HasSlot}
use tiny_wasm.Wasm.Stack.{push, pop}
use tiny_wasm.Wasm.Emit.{emit_get, emit_set}
use tiny_wasm.Wasm.Jit.{local_op}
use tiny_wasm.Wasm.Operands.{Entry}
use tiny_wasm.Wasm.Operands.Emitted.{
  register, push_code, pop_code, push-Gives, pop-Gives, with_code, code_of,
}
use tiny_wasm.Wasm.Operands.Emitted.Operators.{emit_operator, emit_operator-code_of}

-- The type and the offset in the frame of each variable.
abbrev pub Layout : Type 0
Layout = List (Bool × ℕ)

-- The key of a variable in the tables.
abbrev pub slot_of : WasmFunction → ℕ → Slot
slot_of fn n =
    if ltb n (length fn.param_data) then (param, n) else (local, n - length fn.param_data)

-- The tables of the function hold the layout.
abbrev pub HasLayout : WasmFunction → Layout → Type 0
HasLayout fn layout =
    (length layout ≡ length fn.param_data + length fn.local_data)
    × ((n o : ℕ) (wide : Bool)
        → get_elem? layout n ≡ some (wide, o)
        → HasSlot fn (slot_of fn n) o (register wide))

abbrev pub access_code : LdStType → Bool → ℕ → List Instruction
access_code t wide offset = load_store_imm t wide 11 31 (offset / bytes_of wide) ∷ []

-- A pop that steps the pointer up again.
abbrev pub top_code : Bool → List Instruction
top_code wide = pop_code wide 11 ++ add_sub_imm false 21 21 8 ∷ []

abbrev pub get_code : Bool → ℕ → List Instruction
get_code wide offset = access_code ldr wide offset ++ push_code wide 11

abbrev pub set_code : Bool → ℕ → List Instruction
set_code wide offset = pop_code wide 11 ++ access_code str wide offset

abbrev pub tee_code : Bool → ℕ → List Instruction
tee_code wide offset = top_code wide ++ access_code str wide offset

pub int16_small : (offset : ℕ) → offset < 16384 → int16 offset ≡ pos offset
int16_small offset h = ground arith

access-Gives :
    (t : LdStType) (wide : Bool) (offset : ℕ)
    → offset < 16384
    → Gives (load_store_sp (register wide) t 11 offset) (access_code t wide offset)
access-Gives t true offset h =
    ap (λ z. encode_load_store_imm x_reg t 11 31 z unsigned_offset true) (int16_small offset h)
    ∙ load_store_imm-Gives t x_reg 11 31 offset (omega arith)
access-Gives t false offset h =
    ap (λ z. encode_load_store_imm w_reg t 11 31 z unsigned_offset true) (int16_small offset h)
    ∙ load_store_imm-Gives t w_reg 11 31 offset (omega arith)

top_one :
    (wide : Bool) (r : RegType)
    → Gives (encode_load_store_reg r ldr 11 20 21 3 true) (load_store_reg ldr wide 11 20 21 ∷ [])
    → Gives (pop r true 11) (top_code wide)
unfolding pop
top_one wide r g =
    let load = load_store_reg ldr wide 11 20 21 ∷ [] in
    let up = add_sub_imm false 21 21 8 ∷ [] in
    rw
      (
        add_sub_imm-Gives true 21 21 8 (omega arith),
        add_sub_imm-Gives false 21 21 8 (omega arith),
        g,
      )
      (ap (λ t. ok (code_text (add_sub_imm true 21 21 8 ∷ []) ++ t))
          (sym (code_text-append load up))
        ∙ ap ok (sym (code_text-append (add_sub_imm true 21 21 8 ∷ []) (load ++ up))))

top-Gives : (wide : Bool) → Gives (pop (register wide) true 11) (top_code wide)
top-Gives true = top_one true x_reg (load_store_reg-Gives ldr x_reg 11 20 21 (omega arith))
top-Gives false = top_one false w_reg (load_store_reg-Gives ldr w_reg 11 20 21 (omega arith))

-- Two pieces of text that an emitter appends together.
pair_code :
    (m k : Result Text) (xs ys : List Instruction) (fn : WasmFunction)
    → Gives m xs
    → Gives k ys
    → (m >>= λ a. k >>= λ b. ok (construct_full_instr (a ++ b) fn)) ≡ ok (with_code (xs ++ ys) fn)
pair_code m k xs ys fn g h =
    rw (g, h) (ap (λ t. ok (construct_full_instr t fn)) (sym (code_text-append xs ys)))

module _ (fn : WasmFunction) (n o : ℕ) (c : TypeCategory) (wide : Bool) (near : o < 16384)
    (slot : HasSlot fn (c, n) o (register wide)) where
  pub emit_get-code : emit_get n c fn ≡ ok (with_code (get_code wide o) fn)
  unfolding emit_get
  emit_get-code =
      rw (slot.0, slot.1)
        (pair_code _ _ (access_code ldr wide o) (push_code wide 11) fn
          (access-Gives ldr wide o near) (push-Gives wide 11 (omega arith)))

  pub emit_set-code : emit_set n c false fn ≡ ok (with_code (set_code wide o) fn)
  unfolding emit_set
  emit_set-code =
      rw (slot.0, slot.1)
        (pair_code _ _ (pop_code wide 11) (access_code str wide o) fn
          (pop-Gives wide 11 (omega arith)) (access-Gives str wide o near))

  pub emit_tee-code : emit_set n c true fn ≡ ok (with_code (tee_code wide o) fn)
  unfolding emit_set
  emit_tee-code =
      rw (slot.0, slot.1)
        (pair_code _ _ (top_code wide) (access_code str wide o) fn (top-Gives wide)
          (access-Gives str wide o near))
