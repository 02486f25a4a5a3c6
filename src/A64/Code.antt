-- ===== src/A64/Code.antt =====
-- The text of instructions, and the encoders that give it.
use mathlib.Core.List.{append_assoc, append-nil}
use tiny_wasm.Base.{
  ℕ, ◌*◌, ◌/◌, ◌≡◌, refl, sym, ap, ◌∙◌, Bool, true, false, bit-lt, List, [], ◌∷◌, ◌++◌, arith,
}
use tiny_wasm.Base.Int.{pos}
use tiny_wasm.Base.Result.{Result, ok, ◌>>=◌}
use tiny_wasm.Base.Text.{Text}
use tiny_wasm.Opcode.Base.{RegType, is_x, x_reg, LdStType, unsigned_offset, str}
use tiny_wasm.Opcode.Fields.{word_text}
use tiny_wasm.Opcode.Arithmetic.{encode_add_sub_shift, encode_mul, encode_add_sub_imm}
use tiny_wasm.Opcode.Compare.{encode_compare_shift, encode_csel}
use tiny_wasm.Opcode.Mov.{encode_movz, encode_movk}
use tiny_wasm.Opcode.LoadStore.{encode_load_store_imm, encode_load_store_reg}
use tiny_wasm.Opcode.Layout.Arithmetic.{
  encode_add_sub_shift-word, encode_mul-word, encode_add_sub_imm-word, encode_csel-word,
  encode_compare_shift-word,
}
use tiny_wasm.Opcode.Layout.Mov.{encode_movz-word, encode_movk-word}
use tiny_wasm.Opcode.Layout.LoadStore.{encode_load_store_reg-fields, encode_load_store_imm-fields}
use tiny_wasm.A64.{
  Machine, Instruction, add_sub_shift, mul, add_sub_imm, movz, movk, load_store_reg, load_store_imm,
  compare_shift, csel, store_zero, add_sub_sp, word_of, perform, bytes_of, IsEncodable, IsA64, run,
}

abbrev pub words_of : List Instruction → List ℕ
words_of [] = []
words_of (i ∷ is) = word_of i ∷ words_of is

abbrev pub code_text : List Instruction → Text
code_text [] = []
code_text (i ∷ is) = word_text true (word_of i) ++ code_text is

pub code_text-append :
    (xs ys : List Instruction) → code_text (xs ++ ys) ≡ code_text xs ++ code_text ys
code_text-append [] ys = refl
code_text-append (x ∷ xs) ys =
    ap (λ t. word_text true (word_of x) ++ t) (code_text-append xs ys)
    ∙ sym (append_assoc (word_text true (word_of x)) (code_text xs) (code_text ys))

-- A piece of code that an encoder or an emitter gives.
abbrev pub Gives : Result Text → List Instruction → Type 0
Gives m is = m ≡ ok (code_text is)

one-Gives :
    (m : Result Text) (w : ℕ) (i : Instruction)
    → m ≡ ok (word_text true w)
    → w ≡ word_of i
    → Gives m (i ∷ [])
one-Gives m w i h e =
    h ∙ ap (λ v. ok (word_text true v)) e ∙ ap ok (sym (append-nil (word_text true (word_of i))))

-- Two pieces joined by the source's `+`.
pub Gives-append :
    (m k : Result Text) (xs ys : List Instruction)
    → Gives m xs
    → Gives k ys
    → Gives (m >>= λ a. k >>= λ b. ok (a ++ b)) (xs ++ ys)
Gives-append m k xs ys h g = rw (h, g) (ap ok (sym (code_text-append xs ys)))

-- Two instructions.
pub Gives-pair :
    (m k : Result Text) (i j : Instruction)
    → Gives m (i ∷ [])
    → Gives k (j ∷ [])
    → Gives (m >>= λ a. k >>= λ b. ok (a ++ b)) (i ∷ j ∷ [])
Gives-pair m k i j h g = Gives-append m k (i ∷ []) (j ∷ []) h g

pub add_sub_shift-Gives :
    (sub : Bool) (r : RegType) (rd rn rm : ℕ)
    → IsEncodable (add_sub_shift sub (is_x r) rd rn rm)
    → Gives
        (encode_add_sub_shift sub r rd rn rm 0 0 false true)
        (add_sub_shift sub (is_x r) rd rn rm ∷ [])
add_sub_shift-Gives sub r rd rn rm h =
    one-Gives _ _ (add_sub_shift sub (is_x r) rd rn rm)
      (encode_add_sub_shift-word sub r rd rn rm 0 0 false true (omega arith) (omega arith)
        (omega arith) (omega arith) (omega arith))
      (omega arith)

pub mul-Gives :
    (r : RegType) (rd rn rm : ℕ)
    → IsEncodable (mul (is_x r) rd rn rm)
    → Gives (encode_mul r rd rn rm true) (mul (is_x r) rd rn rm ∷ [])
mul-Gives r rd rn rm h =
    one-Gives _ _ (mul (is_x r) rd rn rm)
      (encode_mul-word r rd rn rm true (omega arith) (omega arith) (omega arith)) (omega arith)

pub add_sub_imm-Gives :
    (sub : Bool) (rd rn imm : ℕ)
    → IsEncodable (add_sub_imm sub rd rn imm)
    → Gives
        (encode_add_sub_imm x_reg sub rd rn imm 0 false false true)
        (add_sub_imm sub rd rn imm ∷ [])
add_sub_imm-Gives sub rd rn imm h =
    one-Gives _ _ (add_sub_imm sub rd rn imm)
      (encode_add_sub_imm-word x_reg sub rd rn imm 0 false false true (omega arith) (omega arith)
        (omega arith) (omega arith))
      (omega arith)

pub movz-Gives :
    (r : RegType) (rd hw imm : ℕ)
    → IsEncodable (movz (is_x r) rd hw imm)
    → Gives (encode_movz rd imm r (16 * hw) true) (movz (is_x r) rd hw imm ∷ [])
movz-Gives r rd hw imm h =
    let hx = bit-lt (is_x r) in
    one-Gives _ _ (movz (is_x r) rd hw imm)
      (encode_movz-word rd imm r (16 * hw) true (omega arith) (omega arith) (omega arith))
      (omega arith)

pub movk-Gives :
    (r : RegType) (rd hw imm : ℕ)
    → IsEncodable (movk (is_x r) rd hw imm)
    → Gives (encode_movk rd imm r (16 * hw) true) (movk (is_x r) rd hw imm ∷ [])
movk-Gives r rd hw imm h =
    let hx = bit-lt (is_x r) in
    one-Gives _ _ (movk (is_x r) rd hw imm)
      (encode_movk-word rd imm r (16 * hw) true (omega arith) (omega arith) (omega arith))
      (omega arith)

pub load_store_reg-Gives :
    (t : LdStType) (r : RegType) (rt rn rm : ℕ)
    → IsEncodable (load_store_reg t (is_x r) rt rn rm)
    → Gives (encode_load_store_reg r t rt rn rm 3 true) (load_store_reg t (is_x r) rt rn rm ∷ [])
load_store_reg-Gives t r rt rn rm h =
    one-Gives _ _ (load_store_reg t (is_x r) rt rn rm)
      (encode_load_store_reg-fields r t rt rn rm 3 true (omega arith) (omega arith) (omega arith)
        (omega arith))
      (omega arith)

pub load_store_imm-Gives :
    (t : LdStType) (r : RegType) (rt rn offset : ℕ)
    → IsEncodable (load_store_imm t (is_x r) rt rn (offset / bytes_of (is_x r)))
    → Gives
        (encode_load_store_imm r t rt rn (pos offset) unsigned_offset true)
        (load_store_imm t (is_x r) rt rn (offset / bytes_of (is_x r)) ∷ [])
load_store_imm-Gives t r rt rn offset h =
    one-Gives _ _ (load_store_imm t (is_x r) rt rn (offset / bytes_of (is_x r)))
      (encode_load_store_imm-fields r t rt rn offset true (omega arith) (omega arith)
        (ground arith))
      (ground arith)

pub compare_shift-Gives :
    (r : RegType) (rn rm : ℕ)
    → IsEncodable (compare_shift (is_x r) rn rm)
    → Gives (encode_compare_shift r rn rm 0 0 true) (compare_shift (is_x r) rn rm ∷ [])
compare_shift-Gives r rn rm h =
    one-Gives _ _ (compare_shift (is_x r) rn rm)
      (encode_compare_shift-word r rn rm 0 0 true (omega arith) (omega arith) (omega arith)
        (omega arith))
      (omega arith)

pub csel-Gives :
    (rd rn rm cond : ℕ)
    → IsEncodable (csel rd rn rm cond)
    → Gives (encode_csel x_reg rd rn rm cond true) (csel rd rn rm cond ∷ [])
csel-Gives rd rn rm cond h =
    one-Gives _ _ (csel rd rn rm cond)
      (encode_csel-word x_reg rd rn rm cond true (omega arith) (omega arith) (omega arith)
        (omega arith))
      (omega arith)

pub store_zero-Gives :
    (r : RegType) (rn offset : ℕ)
    → IsEncodable (store_zero (is_x r) rn (offset / bytes_of (is_x r)))
    → Gives
        (encode_load_store_imm r str 31 rn (pos offset) unsigned_offset true)
        (store_zero (is_x r) rn (offset / bytes_of (is_x r)) ∷ [])
store_zero-Gives r rn offset h =
    one-Gives _ _ (store_zero (is_x r) rn (offset / bytes_of (is_x r)))
      (encode_load_store_imm-fields r str 31 rn offset true (omega arith) (omega arith)
        (ground arith))
      (ground arith)

pub add_sub_sp-Gives :
    (sub : Bool) (imm : ℕ)
    → IsEncodable (add_sub_sp sub imm)
    → Gives (encode_add_sub_imm x_reg sub 31 31 imm 0 false false true) (add_sub_sp sub imm ∷ [])
add_sub_sp-Gives sub imm h =
    one-Gives _ _ (add_sub_sp sub imm)
      (encode_add_sub_imm-word x_reg sub 31 31 imm 0 false false true (omega arith) (omega arith)
        (omega arith) (omega arith))
      (omega arith)

abbrev pub AreEncodable : List Instruction → Type 0
AreEncodable [] = Unit
AreEncodable (i ∷ is) = IsEncodable i × AreEncodable is

abbrev pub perform_all : List Instruction → Machine → Machine
perform_all [] s = s
perform_all (i ∷ is) s = perform_all is (perform i s)

pub perform_all-append :
    (xs ys : List Instruction) (s : Machine)
    → perform_all (xs ++ ys) s ≡ perform_all ys (perform_all xs s)
perform_all-append [] ys s = refl
perform_all-append (x ∷ xs) ys s = perform_all-append xs ys (perform x s)

pub AreEncodable-append :
    (xs ys : List Instruction) → AreEncodable xs → AreEncodable ys → AreEncodable (xs ++ ys)
AreEncodable-append [] ys h g = g
AreEncodable-append (x ∷ xs) ys (e, h) g = (e, AreEncodable-append xs ys h g)

-- A processor that follows the manual runs the words of a list of instructions as these instructions.
pub run-words_of :
    (step : ℕ → Machine → Machine)
    → IsA64 step
    → (is : List Instruction) (s : Machine) → AreEncodable is
    → run step (words_of is) s ≡ perform_all is s
run-words_of step a64 [] s h = refl
run-words_of step a64 (i ∷ is) s (e, h) =
    ap (λ t. run step (words_of is) t) (a64 i s e) ∙ run-words_of step a64 is (perform i s) h
