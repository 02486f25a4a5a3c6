-- ===== src/Opcode/Layout/Arithmetic.antt =====
-- The words of include/Opcode/Arithmetic.hpp and include/Opcode/Compare.hpp, field by field.
use tiny_wasm.Base.{ℕ, ◌+◌, ◌*◌, ◌^◌, ◌<◌, ◌≡◌, ap, ◌∙◌, Bool, true, arith, bit, bit-lt}
use tiny_wasm.Base.Result.{ok}
use tiny_wasm.Opcode.Base.{RegType, is_x}
use tiny_wasm.Opcode.Fields.{put, finish, word_text}
use tiny_wasm.Opcode.Arithmetic.{encode_add_sub_shift, encode_mul, encode_div, encode_add_sub_imm}
use tiny_wasm.Opcode.Compare.{encode_compare_shift, encode_compare_imm, encode_csel}

-- ADD, ADDS, SUB and SUBS of registers: with registers, amount and kind of shift in range, every field
-- stands at its place.
pub encode_add_sub_shift-word :
    (sub : Bool) (r : RegType) (rd rn rm imm sh : ℕ) (cmp e : Bool)
    → rd < 32
    → rn < 32
    → rm < 32
    → imm < 64
    → sh < 4
    → encode_add_sub_shift sub r rd rn rm imm sh cmp e
      ≡ ok (
          word_text e (
            bit (is_x r) * 2 ^ 31
            + bit sub * 2 ^ 30
            + bit cmp * 2 ^ 29
            + 0b01011 * 2 ^ 24
            + sh * 2 ^ 22
            + rm * 2 ^ 16
            + imm * 2 ^ 10
            + rn * 2 ^ 5
            + rd))
unfolding encode_add_sub_shift
encode_add_sub_shift-word sub r rd rn rm imm sh cmp e hd hn hm hi hs =
    let hx = bit-lt (is_x r) in
    let hsub = bit-lt sub in
    let hc = bit-lt cmp in
    put 1 _ _ _ _ _ _ (omega arith) (
      put 5 _ _ _ _ _ _ (omega arith) (
        put 1 _ _ _ _ _ _ (omega arith) (
          put 1 _ _ _ _ _ _ (omega arith) (
            put 2 _ _ _ _ _ _ (omega arith) (
              put 5 _ _ _ _ _ _ (omega arith) (
                put 5 _ _ _ _ _ _ (omega arith) (
                  put 5 _ _ _ _ _ _ (omega arith)
                    (put 6 _ _ _ _ _ _ (omega arith) (finish _ _ _ (omega arith))))))))))

-- MUL: with registers in range, every field stands at its place.
pub encode_mul-word :
    (r : RegType) (rd rn rm : ℕ) (e : Bool)
    → rd < 32
    → rn < 32
    → rm < 32
    → encode_mul r rd rn rm e
      ≡ ok (
          word_text e (
            bit (is_x r) * 2 ^ 31
            + 0b0011011 * 2 ^ 24
            + rm * 2 ^ 16
            + 31 * 2 ^ 10
            + rn * 2 ^ 5
            + rd))
unfolding encode_mul
encode_mul-word r rd rn rm e hd hn hm =
    let hx = bit-lt (is_x r) in
    put 1 _ _ _ _ _ _ (omega arith) (
      put 31 _ _ _ _ _ _ (omega arith) (
        put 5 _ _ _ _ _ _ (omega arith) (
          put 5 _ _ _ _ _ _ (omega arith)
            (put 5 _ _ _ _ _ _ (omega arith) (finish _ _ _ (omega arith))))))

-- SDIV and UDIV: with registers in range, every field stands at its place.
pub encode_div-word :
    (r : RegType) (sg : Bool) (rd rn rm : ℕ) (e : Bool)
    → rd < 32
    → rn < 32
    → rm < 32
    → encode_div r sg rd rn rm e
      ≡ ok (
          word_text e (
            bit (is_x r) * 2 ^ 31
            + 0b11010110 * 2 ^ 21
            + rm * 2 ^ 16
            + 1 * 2 ^ 11
            + bit sg * 2 ^ 10
            + rn * 2 ^ 5
            + rd))
unfolding encode_div
encode_div-word r sg rd rn rm e hd hn hm =
    let hx = bit-lt (is_x r) in
    let hs = bit-lt sg in
    put 1 _ _ _ _ _ _ (omega arith) (
      put 7 _ _ _ _ _ _ (omega arith) (
        put 1 _ _ _ _ _ _ (omega arith) (
          put 1 _ _ _ _ _ _ (omega arith) (
            put 5 _ _ _ _ _ _ (omega arith) (
              put 5 _ _ _ _ _ _ (omega arith)
                (put 5 _ _ _ _ _ _ (omega arith) (finish _ _ _ (omega arith))))))))

-- ADD, ADDS, SUB and SUBS with an immediate: with registers, immediate and shift in range, every field
-- stands at its place.
pub encode_add_sub_imm-word :
    (r : RegType) (sub : Bool) (rd rn imm sh : ℕ) (cmp flag e : Bool)
    → rd < 32
    → rn < 32
    → imm < 4096
    → sh < 2
    → encode_add_sub_imm r sub rd rn imm sh cmp flag e
      ≡ ok (
          word_text e (
            bit (is_x r) * 2 ^ 31
            + bit sub * 2 ^ 30
            + bit flag * 2 ^ 29
            + 0b10001 * 2 ^ 24
            + sh * 2 ^ 22
            + imm * 2 ^ 10
            + rn * 2 ^ 5
            + rd))
unfolding encode_add_sub_imm
encode_add_sub_imm-word r sub rd rn imm sh cmp flag e hd hn hi hs =
    let hx = bit-lt (is_x r) in
    let hsub = bit-lt sub in
    let hf = bit-lt flag in
    put 1 _ _ _ _ _ _ (omega arith) (
      put 1 _ _ _ _ _ _ (omega arith) (
        put 1 _ _ _ _ _ _ (omega arith) (
          put 5 _ _ _ _ _ _ (omega arith) (
            put 1 _ _ _ _ _ _ (omega arith) (
              put 12 _ _ _ _ _ _ (omega arith) (
                put 5 _ _ _ _ _ _ (omega arith)
                  (put 5 _ _ _ _ _ _ (omega arith) (finish _ _ _ (omega arith)))))))))

-- CSEL: with registers and condition in range, every field stands at its place.
pub encode_csel-word :
    (r : RegType) (rd rn rm cond : ℕ) (e : Bool)
    → rd < 32
    → rn < 32
    → rm < 32
    → cond < 16
    → encode_csel r rd rn rm cond e
      ≡ ok (
          word_text e (
            bit (is_x r) * 2 ^ 31
            + 0b11010100 * 2 ^ 21
            + rm * 2 ^ 16
            + cond * 2 ^ 12
            + rn * 2 ^ 5
            + rd))
unfolding encode_csel
encode_csel-word r rd rn rm cond e hd hn hm hc =
    let hx = bit-lt (is_x r) in
    put 1 _ _ _ _ _ _ (omega arith) (
      put 6 _ _ _ _ _ _ (omega arith) (
        put 5 _ _ _ _ _ _ (omega arith) (
          put 5 _ _ _ _ _ _ (omega arith) (
            put 5 _ _ _ _ _ _ (omega arith)
              (put 4 _ _ _ _ _ _ (omega arith) (finish _ _ _ (omega arith)))))))

-- CMP of two registers: with registers, amount and kind of shift in range, the word is SUBS into the
-- zero register.
pub encode_compare_shift-word :
    (r : RegType) (rn rm imm sh : ℕ) (e : Bool)
    → rn < 32
    → rm < 32
    → imm < 64
    → sh < 4
    → encode_compare_shift r rn rm imm sh e
      ≡ ok (
          word_text e (
            bit (is_x r) * 2 ^ 31
            + 0b1101011 * 2 ^ 24
            + sh * 2 ^ 22
            + rm * 2 ^ 16
            + imm * 2 ^ 10
            + rn * 2 ^ 5
            + 31))
unfolding encode_compare_shift
encode_compare_shift-word r rn rm imm sh e hn hm hi hs =
    encode_add_sub_shift-word true r 31 rn rm imm sh true e (omega arith) hn hm hi hs
    ∙ ap (λ w. ok (word_text e w)) (omega arith)

-- CMP with an immediate: with register and immediate in range, the word is SUBS into the zero register.
pub encode_compare_imm-word :
    (r : RegType) (rn imm : ℕ) (sh e : Bool)
    → rn < 32
    → imm < 4096
    → encode_compare_imm r rn imm sh e
      ≡ ok (
          word_text e (
            bit (is_x r) * 2 ^ 31
            + 0b1110001 * 2 ^ 24
            + bit sh * 2 ^ 22
            + imm * 2 ^ 10
            + rn * 2 ^ 5
            + 31))
unfolding encode_compare_imm
encode_compare_imm-word r rn imm sh e hn hi =
    encode_add_sub_imm-word r true 31 rn imm (bit sh) true true e (omega arith) hn hi (bit-lt sh)
    ∙ ap (λ w. ok (word_text e w)) (omega arith)
