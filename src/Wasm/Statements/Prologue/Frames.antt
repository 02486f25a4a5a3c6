-- ===== src/Wasm/Statements/Prologue/Frames.antt =====
-- The frame of a function on entry.
use tiny_wasm.Base.{
  ℕ, ◌+◌, ◌-◌, ◌*◌, ◌%◌, ◌^◌, ◌≤◌, ◌<◌, ◌≡◌, sym, ap, subst, ◌∙◌, ◌⊎◌, List, [], ◌++◌, length,
  arith,
}
use tiny_wasm.Base.Int.{ℤ}
use tiny_wasm.Base.Result.{ok}
use tiny_wasm.Opcode.Base.{w_reg}
use tiny_wasm.A64.{Machine, load, IsA64, run}
use tiny_wasm.A64.Code.{words_of, run-words_of, code_text}
use tiny_wasm.Wasm.Types.{local}
use tiny_wasm.Wasm.Function.{WasmFunction}
use tiny_wasm.Wasm.Stack.{align}
use tiny_wasm.Wasm.Initialize.Slots.{HasSlot}
use tiny_wasm.Wasm.Process.{main_entry_initialize}
use tiny_wasm.Wasm.Operands.Emitted.{with_code}
use tiny_wasm.Wasm.Operands.Programs.{words_text, words_text-words_of}
use tiny_wasm.Wasm.Statements.Simulation.{Place}
use tiny_wasm.Wasm.Statements.Prologue.{ints, end_of}
use tiny_wasm.Wasm.Statements.Prologue.Entry.{
  entry_code, entry_tables, main_entry_initialize-code, entry_tables-data, frame_numbers,
}
use tiny_wasm.Wasm.Statements.Prologue.Slots.{entry-local}
use tiny_wasm.Wasm.Statements.Prologue.Memory.{arguments, zeros, entries, load-zeros}
use tiny_wasm.Wasm.Statements.Prologue.Run.{
  align-exact, entry_code-AreEncodable, entry_memory, perform-entry_code,
}
use tiny_wasm.Wasm.Statements.{State}

-- The frame of `n` parameters and `m` locals on a machine, below the stack pointer.
abbrev pub place_of : ℕ → ℕ → ℕ → ℕ → Machine → Place
place_of base limit n m s = record {
  base = base;
  limit = limit;
  sp = s.sp - align (end_of n m);
  size = align (end_of n m);
}

-- Low halves of the argument registers, and zeros.
abbrev pub entry_state : ℕ → ℕ → Machine → State
entry_state n m s = record {
  variables = entries (arguments n 0 s.x) ++ entries (zeros m);
  stack = [];
}

-- A machine on entry: room for the frame below the stack pointer, apart from the wasm stack, which is empty.
pub record IsEntry (base limit n m : ℕ) (s : Machine) : Type 0 where
  pub few : n ≤ 31
  pub small : align (end_of n m) < 4096
  pub below : align (end_of n m) ≤ s.sp
  pub inside : s.sp < 2 ^ 64
  pub room : base + 8 * limit < 2 ^ 64
  pub apart : (s.sp ≤ base) ⊎ (base + 8 * limit ≤ s.sp - align (end_of n m))
  pub stack : s.x 20 ≡ base
  pub pointer : s.x 21 ≡ 0

-- On a function with at most 31 parameters and at least one local, all of type i32, 2 variables more
-- than a multiple of 4, and a frame below 4096 bytes, on a machine with room for it below the stack
-- pointer: `main_entry_initialize` returns, and gives the first local the slot at the offset
-- `stack_size`, just outside the frame. When a processor that follows the manual runs the words that it
-- has appended, the four bytes at the stack pointer of the caller are zero.
pub main_entry_initialize-outside :
    (step : ℕ → Machine → Machine)
    → IsA64 step
    → (fn : WasmFunction) (ps ls : List ℤ) → fn.param_data ≡ ints ps
    → fn.local_data ≡ ints ls
    → length ps ≤ 31
    → 0 < length ls
    → (length ps + length ls) % 4 ≡ 2
    → end_of (length ps) (length ls) < 4096
    → (s : Machine) → end_of (length ps) (length ls) ≤ s.sp
    → s.sp < 2 ^ 64
    → (fn' : WasmFunction) × (words : List ℕ) × (main_entry_initialize fn ≡ ok fn')
      × (fn'.wasm_instructions ≡ fn.wasm_instructions ++ words_text words)
      × HasSlot fn' (local, 0) fn'.stack_size w_reg
      × (load 4 s.sp (run step words s).memory ≡ 0)
main_entry_initialize-outside step a64 fn ps ls params locals few some_local two near s below
      inside =
    let n = length ps in
    let m = length ls in
    let e = end_of n m in
    let is = entry_code n m in
    let exact = align-exact n m two in
    let (_, _, _, text, size) = entry_tables-data n m fn in
    let (_, _, frame) = frame_numbers fn ps ls params locals in
    let fn' = with_code is (entry_tables n m fn) in
    let at_end : fn'.stack_size ≡ e = size ∙ (frame ∙ exact) in
    let top : s.sp ≡ s.sp - align e + e = omega arith in
    let offset : e - 4 * 0 ≡ fn'.stack_size = omega arith in
    let ran : run step (words_of is) s
        ≡ record s { sp = s.sp - align e; memory = entry_memory n m (s.sp - align e) s } =
      run-words_of step a64 is s (entry_code-AreEncodable n m few (omega arith))
      ∙ perform-entry_code n m s (omega arith) inside in
    (
      fn',
      words_of is,
      main_entry_initialize-code fn ps ls params locals few (omega arith) near,
      ap (λ t. t ++ code_text is) text
          ∙ ap (λ t. fn.wasm_instructions ++ t) (sym (words_text-words_of is)),
      subst (λ o. HasSlot fn' (local, 0) o w_reg) offset (entry-local n m 0 fn some_local),
      ap (λ (t : Machine). load 4 s.sp t.memory) ran
          ∙ (ap (λ a. load 4 a (entry_memory n m (s.sp - align e) s)) top
              ∙ load-zeros m (s.sp - align e + e) _ some_local (omega arith)),
    )
