-- ===== src/Wasm/Execute/Compiled.antt =====
-- From `prepareParams` and `processCodeVec` to `executeWasmInstr`: what the processor is given.
use tiny_wasm.Base.{
  ℕ, suc, ◌+◌, ◌*◌, ◌/◌, ◌%◌, ◌^◌, ◌≡◌, refl, sym, ap, ◌∙◌, subst, true, List, [], ◌∷◌, ◌++◌, arith,
}
use tiny_wasm.Base.Result.{Result, ok, Returns, Returns-bind_with, Returns-ok}
use tiny_wasm.Base.Text.{Text}
use tiny_wasm.Utils.Hex.{hex_char, hex_pad, bswap32}
use tiny_wasm.Opcode.Base.{x_reg}
use tiny_wasm.Opcode.Fields.{word_text}
use tiny_wasm.Opcode.IsWord.{IsWord, encode_mov_register-IsWord, encode_movz-IsWord}
use tiny_wasm.Wasm.Types.{WasmValue, int32, int64, float32, float64}
use tiny_wasm.Wasm.Function.{WasmFunction, append_pre_instr}
use tiny_wasm.Wasm.Initialize.{load_param, load_params, prepare_params}
use tiny_wasm.Wasm.Process.{process_code_vec}
use tiny_wasm.Wasm.Branch.{displacement}
use tiny_wasm.Wasm.Assemble.{Item, word, branch, items_text, entries, items_fixed, item_fixed}
use tiny_wasm.Wasm.Assemble.FixUp.{encode_fixed-IsWord}
use tiny_wasm.Wasm.Assemble.Laid.{Source, IsCode}
use tiny_wasm.Wasm.Assemble.Codes.{mov_int32-IsCode, mov_int64-IsCode}
use tiny_wasm.Wasm.Assemble.Finished.{IsCleared, process_code_vec-IsFinished}
use tiny_wasm.Wasm.Execute.{CallResult, execute_wasm_instr}
use tiny_wasm.Wasm.Execute.Loading.{program_text, program_bytes}
use tiny_wasm.Wasm.Execute.Run.{
  outcome, without_code, program_text-append, execute_wasm_instr-words,
}

-- Text of whole words.
abbrev pub IsProgram : Text → Type 0
IsProgram t = (ws : List ℕ) × (t ≡ program_text ws)

program_text-joined :
    (s t : Text) (xs ys : List ℕ)
    → s ≡ program_text xs
    → t ≡ program_text ys
    → s ++ t ≡ program_text (xs ++ ys)
program_text-joined s t xs ys p q =
    ap (λ a. a ++ t) p ∙ (ap (λ b. program_text xs ++ b) q ∙ sym (program_text-append xs ys))

IsProgram-append : (s t : Text) → IsProgram s → IsProgram t → IsProgram (s ++ t)
IsProgram-append s t (xs, p) (ys, q) = (xs ++ ys, program_text-joined s t xs ys p q)

-- The digits of a number are those of a word in memory order.
word_of_digits : (x : ℕ) → hex_pad 8 x ≡ word_text true (bswap32 x)
unfolding hex_pad bswap32
word_of_digits x =
    let y = bswap32 (bswap32 x) in
    let d0 : x / 16 ^ 7 % 16 ≡ y / 16 ^ 7 % 16 = omega arith in
    let d1 : x / 16 ^ 6 % 16 ≡ y / 16 ^ 6 % 16 = omega arith in
    let d2 : x / 16 ^ 5 % 16 ≡ y / 16 ^ 5 % 16 = omega arith in
    let d3 : x / 16 ^ 4 % 16 ≡ y / 16 ^ 4 % 16 = omega arith in
    let d4 : x / 16 ^ 3 % 16 ≡ y / 16 ^ 3 % 16 = omega arith in
    let d5 : x / 16 ^ 2 % 16 ≡ y / 16 ^ 2 % 16 = omega arith in
    let d6 : x / 16 ^ 1 % 16 ≡ y / 16 ^ 1 % 16 = omega arith in
    let d7 : x / 16 ^ 0 % 16 ≡ y / 16 ^ 0 % 16 = omega arith in
    λ i.
      hex_char (d0 i)
      ∷ hex_char (d1 i)
      ∷ hex_char (d2 i)
      ∷ hex_char (d3 i)
      ∷ hex_char (d4 i)
      ∷ hex_char (d5 i)
      ∷ hex_char (d6 i)
      ∷ hex_char (d7 i)
      ∷ []

word-IsProgram : (x : ℕ) → IsProgram (hex_pad 8 x)
unfolding hex_pad
word-IsProgram x = (bswap32 x ∷ [], word_of_digits x)

IsWord-IsProgram : (t : Text) → IsWord t → IsProgram t
IsWord-IsProgram t (x, p) = subst IsProgram (sym p) (word-IsProgram x)

items-IsProgram : (n : ℕ) (is : List Item) → entries n is ≡ [] → IsProgram (items_text is)
items-IsProgram n [] h = ([], refl)
items-IsProgram n (word x ∷ is) h =
    IsProgram-append (hex_pad 8 x) (items_text is) (word-IsProgram x) (items-IsProgram (suc n) is h)
items-IsProgram n (branch l b ∷ is) h = absurd (cc)

IsCode-IsProgram : (t : Text) → IsCode t → IsProgram t
IsCode-IsProgram t (is, p, closed) = subst IsProgram (sym p) (items-IsProgram 0 is (closed 0))

item_fixed-IsProgram :
    (labels : List (Text × ℕ)) (n : ℕ) (i : Item) → Returns IsProgram (item_fixed labels n i)
item_fixed-IsProgram labels n (word x) = Returns-ok IsProgram (hex_pad 8 x) (word-IsProgram x)
item_fixed-IsProgram labels n (branch l b) =
    λ t h. IsWord-IsProgram t (encode_fixed-IsWord b (displacement labels l (n * 8)) t h)

items_fixed-IsProgram :
    (labels : List (Text × ℕ)) (n : ℕ) (is : List Item)
    → Returns IsProgram (items_fixed labels n is)
items_fixed-IsProgram labels n [] = Returns-ok IsProgram [] ([], refl)
items_fixed-IsProgram labels n (i ∷ is) =
    Returns-bind_with IsProgram IsProgram _ _ (item_fixed-IsProgram labels n i) λ t ht.
      Returns-bind_with IsProgram IsProgram _ _ (items_fixed-IsProgram labels (suc n) is)
        λ ts hts. Returns-ok IsProgram (t ++ ts) (IsProgram-append t ts ht hts)

-- What `prepareParams` makes of a cleared function: only the loading text grows, by whole words.
abbrev Prepared : WasmFunction → WasmFunction → Type 0
Prepared fn fn' =
    IsProgram fn'.pre_instructions_for_param_loading × IsCleared fn' × (fn'.code_vec ≡ fn.code_vec)

load_param-IsProgram : (v : WasmValue) (i : ℕ) → Returns IsProgram (load_param v i)
unfolding load_param
load_param-IsProgram (float32 v) i = λ t p. absurd (cc)
load_param-IsProgram (float64 v) i = λ t p. absurd (cc)
load_param-IsProgram (int64 v) i = λ t p. IsCode-IsProgram t (mov_int64-IsCode (i % 256) v true t p)
load_param-IsProgram (int32 v) i = λ t p. IsCode-IsProgram t (mov_int32-IsCode (i % 256) v true t p)

module _ (start : WasmFunction) where
  prepends :
      (e : Result Text) (fn : WasmFunction)
      → Returns IsProgram e
      → Prepared start fn
      → Returns (Prepared start) (append_pre_instr e fn)
  unfolding append_pre_instr
  prepends e fn h (p, fresh, same) = Returns-bind_with (Prepared start) IsProgram e _ h λ t ht.
      Returns-ok (Prepared start)
        (record fn {
          pre_instructions_for_param_loading = fn.pre_instructions_for_param_loading ++ t;
        })
        (IsProgram-append fn.pre_instructions_for_param_loading t p ht, fresh, same)

  load_params-Prepared :
      (vs : List WasmValue) (i : ℕ) (fn : WasmFunction)
      → Prepared start fn
      → Returns (Prepared start) (load_params vs i fn)
  unfolding load_params
  load_params-Prepared [] i fn h = Returns-ok (Prepared start) fn h
  load_params-Prepared (v ∷ vs) i fn h =
      Returns-bind_with (Prepared start) (Prepared start) _ _
        (prepends (load_param v i) fn (load_param-IsProgram v i) h)
        λ f1 h1. load_params-Prepared vs (i + 1) f1 h1

  prepare_params-Prepared :
      (fn : WasmFunction) → Prepared start fn → Returns (Prepared start) (prepare_params fn)
  unfolding prepare_params
  prepare_params-Prepared fn h =
      let P = Prepared start in
      Returns-bind_with P P _ _
        (prepends _ fn (λ t p. IsWord-IsProgram t (encode_mov_register-IsWord x_reg 19 0 true t p))
          h)
        λ f1 h1.
          Returns-bind_with P P _ _
            (prepends _ f1
              (λ t p. IsWord-IsProgram t (encode_mov_register-IsWord x_reg 20 1 true t p)) h1)
            λ f2 h2.
              Returns-bind_with P P _ _
                (prepends _ f2
                  (λ t p. IsWord-IsProgram t (encode_movz-IsWord 21 0 x_reg 0 true t p)) h2)
                λ f3 h3. load_params-Prepared f3.param_data 0 f3 h3

-- When a function without text, open branches and labels has its parameters prepared and is compiled, the
-- run gives the processor whole words in memory order, those of the loading text and then those of the
-- finished text. Afterwards the function has no text, open branches and labels again and the same wasm
-- code, and every other field, the locals included, is what the compilation left.
pub execute_wasm_instr-process_code_vec :
    (call : List ℕ → CallResult) (fn ready done : WasmFunction)
    → IsCleared fn
    → fn.pre_instructions_for_param_loading ≡ []
    → prepare_params fn ≡ ok ready
    → process_code_vec ready ≡ ok done
    → (ws : List ℕ) × (fn' : WasmFunction) × (done.pre_instructions_for_param_loading
          ++ done.wasm_instructions
        ≡ program_text ws)
      × (execute_wasm_instr call done ≡ ok (outcome (call (program_bytes ws)), fn'))
      × (fn' ≡ without_code done)
      × (fn'.code_vec ≡ fn.code_vec)
execute_wasm_instr-process_code_vec call fn ready done fresh bare prepared compiled =
    let (loading, fresh', same) =
      prepare_params-Prepared fn fn (([], bare), fresh, refl) ready prepared in
    let (finished, kept) = process_code_vec-IsFinished ready done fresh' compiled in
    let (pre, p) = subst IsProgram (sym (ap (λ (s : Source). s.1) kept)) loading in
    let (main, m) =
      items_fixed-IsProgram done.label_map 0 finished.items done.wasm_instructions finished.fixed in
    let (fn', ran, cleared) = execute_wasm_instr-words call done pre main p m in
    (
      pre ++ main,
      fn',
      program_text-joined _ _ pre main p m,
      ran,
      cleared,
      ap (λ (f : WasmFunction). f.code_vec) cleared ∙ (ap (λ (s : Source). s.0) kept ∙ same),
    )
