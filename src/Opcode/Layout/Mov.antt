-- ===== src/Opcode/Layout/Mov.antt =====
-- The words of include/Opcode/Mov.hpp, field by field.
use tiny_wasm.Base.{ℕ, ◌+◌, ◌*◌, ◌/◌, ◌^◌, ◌<◌, ◌≡◌, ap, ◌∙◌, Bool, true, false, arith, bit, bit-lt}
use tiny_wasm.Base.Result.{ok}
use tiny_wasm.Opcode.Base.{RegType, is_x}
use tiny_wasm.Opcode.Fields.{put, finish, word_text}
use tiny_wasm.Opcode.Mov.{encode_mov_sp, encode_mov_register, encode_movz, encode_movk, encode_movn}
use tiny_wasm.Opcode.Layout.Arithmetic.{encode_add_sub_imm-word}

-- MOV of registers: with registers in range, the word is ORR with the zero register.
pub encode_mov_register-word :
    (r : RegType) (rd rm : ℕ) (e : Bool)
    → rd < 32
    → rm < 32
    → encode_mov_register r rd rm e
      ≡ ok
          (word_text e (bit (is_x r) * 2 ^ 31 + 0b0101010 * 2 ^ 24 + rm * 2 ^ 16 + 31 * 2 ^ 5 + rd))
unfolding encode_mov_register
encode_mov_register-word r rd rm e hd hm =
    let hx = bit-lt (is_x r) in
    put 1 _ _ _ _ _ _ (omega arith) (
      put 5 _ _ _ _ _ _ (omega arith) (
        put 5 _ _ _ _ _ _ (omega arith) (
          put 5 _ _ _ _ _ _ (omega arith)
            (put 5 _ _ _ _ _ _ (omega arith) (finish _ _ _ (omega arith))))))

-- MOVZ: with register, sixteen bits and shift in range, every field stands at its place, the shift in
-- units of sixteen.
pub encode_movz-word :
    (rd imm : ℕ) (r : RegType) (sh : ℕ) (e : Bool)
    → rd < 32
    → imm < 65536
    → sh < 64
    → encode_movz rd imm r sh e
      ≡ ok (
          word_text e
            (bit (is_x r) * 2 ^ 31 + 0b10100101 * 2 ^ 23 + sh / 16 * 2 ^ 21 + imm * 2 ^ 5 + rd))
unfolding encode_movz
encode_movz-word rd imm r sh e hd hi hs =
    let hx = bit-lt (is_x r) in
    put 1 _ _ _ _ _ _ (omega arith) (
      put 8 _ _ _ _ _ _ (omega arith) (
        put 2 _ _ _ _ _ _ (omega arith) (
          put 16 _ _ _ _ _ _ (omega arith)
            (put 5 _ _ _ _ _ _ (omega arith) (finish _ _ _ (omega arith))))))

-- MOVK: with register, sixteen bits and shift in range, every field stands at its place, the shift in
-- units of sixteen.
pub encode_movk-word :
    (rd imm : ℕ) (r : RegType) (sh : ℕ) (e : Bool)
    → rd < 32
    → imm < 65536
    → sh < 64
    → encode_movk rd imm r sh e
      ≡ ok (
          word_text e
            (bit (is_x r) * 2 ^ 31 + 0b11100101 * 2 ^ 23 + sh / 16 * 2 ^ 21 + imm * 2 ^ 5 + rd))
unfolding encode_movk
encode_movk-word rd imm r sh e hd hi hs =
    let hx = bit-lt (is_x r) in
    put 1 _ _ _ _ _ _ (omega arith) (
      put 8 _ _ _ _ _ _ (omega arith) (
        put 2 _ _ _ _ _ _ (omega arith) (
          put 16 _ _ _ _ _ _ (omega arith)
            (put 5 _ _ _ _ _ _ (omega arith) (finish _ _ _ (omega arith))))))

-- MOVN: with register, sixteen bits and shift in range, every field stands at its place, the shift in
-- units of sixteen.
pub encode_movn-word :
    (rd imm : ℕ) (r : RegType) (sh : ℕ) (e : Bool)
    → rd < 32
    → imm < 65536
    → sh < 64
    → encode_movn rd imm r sh e
      ≡ ok (
          word_text e
            (bit (is_x r) * 2 ^ 31 + 0b00100101 * 2 ^ 23 + sh / 16 * 2 ^ 21 + imm * 2 ^ 5 + rd))
unfolding encode_movn
encode_movn-word rd imm r sh e hd hi hs =
    let hx = bit-lt (is_x r) in
    put 1 _ _ _ _ _ _ (omega arith) (
      put 8 _ _ _ _ _ _ (omega arith) (
        put 2 _ _ _ _ _ _ (omega arith) (
          put 16 _ _ _ _ _ _ (omega arith)
            (put 5 _ _ _ _ _ _ (omega arith) (finish _ _ _ (omega arith))))))

-- MOV to or from the stack pointer: with registers in range, the word is ADD of zero, in memory order
-- whatever order is asked for.
pub encode_mov_sp-word :
    (r : RegType) (rd rn : ℕ) (e : Bool)
    → rd < 32
    → rn < 32
    → encode_mov_sp r rd rn e
      ≡ ok (word_text true (bit (is_x r) * 2 ^ 31 + 0b10001 * 2 ^ 24 + rn * 2 ^ 5 + rd))
unfolding encode_mov_sp
encode_mov_sp-word r rd rn e hd hn =
    encode_add_sub_imm-word r false rd rn 0 0 false false true hd hn (omega arith) (omega arith)
    ∙ ap (λ w. ok (word_text true w)) (omega arith)
