-- ===== src/Wasm/Assemble/Codes.antt =====
-- The pieces of text that the emitters append are finished words.
use tiny_wasm.Base.{ℕ, ◌+◌, ◌%◌, Bool, true, false, List, [], ◌∷◌, ◌++◌, if◌then◌else◌}
use tiny_wasm.Base.Int.{ℤ}
use tiny_wasm.Base.Result.{Result, ok, err, ◌>>=◌, Returns, Returns-bind_with, Returns-ok}
use tiny_wasm.Base.Text.{Text}
use tiny_wasm.Opcode.Base.{RegType, w_reg, x_reg, LdStType, str, ldr, unsigned_offset}
use tiny_wasm.Opcode.IsWord.{
  IsWord, encode_add_sub_imm-IsWord, encode_load_store_reg-IsWord, encode_load_store_imm-IsWord,
  encode_movz-IsWord, encode_movk-IsWord,
}
use tiny_wasm.Opcode.Mov.{
  half_word, encode_movz, encode_movk, wrapper_encode_mov_int32, wrapper_encode_mov_int64,
}
use tiny_wasm.Opcode.Arithmetic.{encode_add_sub_imm}
use tiny_wasm.Opcode.LoadStore.{encode_load_store_reg}
use tiny_wasm.Wasm.Types.{WasmValue, int32, int64, float32, float64}
use tiny_wasm.Wasm.Stack.{push, pop, pop_result, pop_results}
use tiny_wasm.Wasm.Initialize.{load_store_sp, int16, store_param, store_local}
use tiny_wasm.Wasm.Assemble.Laid.{IsCode, IsCode-word, IsCode-append, IsCode-nil}

pub IsCode-of_word : (e : Result Text) → Returns IsWord e → Returns IsCode e
IsCode-of_word e h t p = IsCode-word t (h t p)

-- One piece, and then the rest.
pub then-IsCode :
    (e : Result Text) (f : Text → Result Text)
    → Returns IsCode e
    → ((t : Text) → IsCode t → Returns IsCode (f t))
    → Returns IsCode (e >>= f)
then-IsCode e f h k = Returns-bind_with IsCode IsCode e f h k

pub done-IsCode : (t : Text) → IsCode t → Returns IsCode (ok t)
done-IsCode t h = Returns-ok IsCode t h

pub no-IsCode : (e : _) → Returns IsCode (err e)
no-IsCode e t p = absurd (cc)

pub add_imm-IsCode :
    (r : RegType) (sub : Bool) (rd rn imm sh : ℕ) (cmp flag e : Bool)
    → Returns IsCode (encode_add_sub_imm r sub rd rn imm sh cmp flag e)
add_imm-IsCode r sub rd rn imm sh cmp flag e =
    IsCode-of_word _ (encode_add_sub_imm-IsWord r sub rd rn imm sh cmp flag e)

reg-IsCode :
    (r : RegType) (t : LdStType) (rt rn rm opt : ℕ) (e : Bool)
    → Returns IsCode (encode_load_store_reg r t rt rn rm opt e)
reg-IsCode r t rt rn rm opt e = IsCode-of_word _ (encode_load_store_reg-IsWord r t rt rn rm opt e)

pub push-IsCode : (r : RegType) (reg : ℕ) → Returns IsCode (push r reg)
unfolding push
push-IsCode r reg = then-IsCode _ _ (reg-IsCode r str reg 20 21 3 true) λ s hs.
    then-IsCode _ _ (add_imm-IsCode x_reg false 21 21 8 0 false false true)
      λ u hu. done-IsCode _ (IsCode-append s u hs hu)

tee-IsCode :
    (tee : Bool)
    → Returns IsCode
        (if tee then encode_add_sub_imm x_reg false 21 21 8 0 false false true else ok [])
tee-IsCode true = add_imm-IsCode x_reg false 21 21 8 0 false false true
tee-IsCode false = done-IsCode [] IsCode-nil

pub pop-IsCode : (r : RegType) (tee : Bool) (reg : ℕ) → Returns IsCode (pop r tee reg)
unfolding pop
pop-IsCode r tee reg =
    then-IsCode _ _ (add_imm-IsCode x_reg true 21 21 8 0 false false true) λ d hd.
      then-IsCode _ _ (reg-IsCode r ldr reg 20 21 3 true) λ l hl.
        then-IsCode _ _ (tee-IsCode tee)
          λ u hu. done-IsCode _ (IsCode-append d (l ++ u) hd (IsCode-append l u hl hu))

pop_result-IsCode : (v : WasmValue) (i : ℕ) → Returns IsCode (pop_result v i)
unfolding pop_result
pop_result-IsCode (float32 v) i = no-IsCode _
pop_result-IsCode (float64 v) i = no-IsCode _
pop_result-IsCode (int64 v) i = pop-IsCode x_reg false (i % 256)
pop_result-IsCode (int32 v) i = pop-IsCode w_reg false (i % 256)

pub pop_results-IsCode : (vs : List WasmValue) (i : ℕ) → Returns IsCode (pop_results vs i)
unfolding pop_results
pop_results-IsCode [] i = done-IsCode [] IsCode-nil
pop_results-IsCode (v ∷ vs) i = then-IsCode _ _ (pop_result-IsCode v i) λ t ht.
    then-IsCode _ _ (pop_results-IsCode vs (i + 1))
      λ ts hts. done-IsCode _ (IsCode-append t ts ht hts)

pub load_store_sp-IsCode :
    (r : RegType) (t : LdStType) (rt offset : ℕ) → Returns IsCode (load_store_sp r t rt offset)
load_store_sp-IsCode r t rt offset =
    IsCode-of_word _ (encode_load_store_imm-IsWord r t rt 31 (int16 offset) unsigned_offset true)

pub store_param-IsCode : (v : WasmValue) (g f o : ℕ) → Returns IsCode (store_param v g f o)
unfolding store_param
store_param-IsCode (float32 v) g f o = load_store_sp-IsCode _ str _ o
store_param-IsCode (float64 v) g f o = load_store_sp-IsCode _ str _ o
store_param-IsCode (int64 v) g f o = load_store_sp-IsCode _ str _ o
store_param-IsCode (int32 v) g f o = load_store_sp-IsCode _ str _ o

pub store_local-IsCode : (v : WasmValue) (o : ℕ) → Returns IsCode (store_local v o)
unfolding store_local
store_local-IsCode (float32 v) o = load_store_sp-IsCode _ str _ o
store_local-IsCode (float64 v) o = load_store_sp-IsCode _ str _ o
store_local-IsCode (int64 v) o = load_store_sp-IsCode _ str _ o
store_local-IsCode (int32 v) o = load_store_sp-IsCode _ str _ o

z-IsCode :
    (rd imm : ℕ) (r : RegType) (sh : ℕ) (e : Bool) → Returns IsCode (encode_movz rd imm r sh e)
z-IsCode rd imm r sh e = IsCode-of_word _ (encode_movz-IsWord rd imm r sh e)

k-IsCode :
    (rd imm : ℕ) (r : RegType) (sh : ℕ) (e : Bool) → Returns IsCode (encode_movk rd imm r sh e)
k-IsCode rd imm r sh e = IsCode-of_word _ (encode_movk-IsWord rd imm r sh e)

pub mov_int32-IsCode :
    (rd : ℕ) (v : ℤ) (e : Bool) → Returns IsCode (wrapper_encode_mov_int32 rd v e)
unfolding wrapper_encode_mov_int32
mov_int32-IsCode rd v e = then-IsCode _ _ (z-IsCode rd (half_word v 0) w_reg 0 e) λ a ha.
    then-IsCode _ _ (k-IsCode rd (half_word v 16) w_reg 16 e)
      λ b hb. done-IsCode _ (IsCode-append a b ha hb)

pub mov_int64-IsCode :
    (rd : ℕ) (v : ℤ) (e : Bool) → Returns IsCode (wrapper_encode_mov_int64 rd v e)
unfolding wrapper_encode_mov_int64
mov_int64-IsCode rd v e = then-IsCode _ _ (z-IsCode rd (half_word v 0) x_reg 0 e) λ a ha.
    then-IsCode _ _ (k-IsCode rd (half_word v 16) x_reg 16 e) λ b hb.
      then-IsCode _ _ (k-IsCode rd (half_word v 32) x_reg 32 e) λ c hc.
        then-IsCode _ _ (k-IsCode rd (half_word v 48) x_reg 48 e) λ d hd. done-IsCode _ (
          IsCode-append a (b ++ (c ++ d)) ha
            (IsCode-append b (c ++ d) hb (IsCode-append c d hc hd)))
