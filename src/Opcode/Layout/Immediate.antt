-- ===== src/Opcode/Layout/Immediate.antt =====
-- The words that load an integer into a register, include/Opcode/Mov.hpp.
use tiny_wasm.Base.{ℕ, ◌+◌, ◌*◌, ◌^◌, ◌<◌, ◌≡◌, ◌++◌, arith, refl, Bool}
use tiny_wasm.Base.Int.{ℤ, pos, negsuc, low_bits}
use tiny_wasm.Base.Result.{ok}
use tiny_wasm.Opcode.Base.{w_reg, x_reg}
use tiny_wasm.Opcode.Fields.{word_text}
use tiny_wasm.Opcode.Mov.{half_word, wrapper_encode_mov_int32, wrapper_encode_mov_int64}
use tiny_wasm.Opcode.Layout.Mov.{encode_movz-word, encode_movk-word}

pub half_word-lt : (v : ℤ) (k : ℕ) → half_word v k < 65536
half_word-lt (pos n) k = ground arith
half_word-lt (negsuc n) k = ground arith

pub half_words32 : (v : ℤ) → half_word v 0 + half_word v 16 * 2 ^ 16 ≡ low_bits v 32
half_words32 (pos n) = omega arith
half_words32 (negsuc n) = omega arith

pub half_words64 :
    (v : ℤ)
    → half_word v 0 + half_word v 16 * 2 ^ 16 + half_word v 32 * 2 ^ 32 + half_word v 48 * 2 ^ 48
      ≡ low_bits v 64
half_words64 (pos n) = omega arith
half_words64 (negsuc n) = omega arith

-- MOVZ or MOVK of `imm` at `16 * hw`, with `code` 0b10100101 or 0b11100101 and `sf` 1 for x registers.
abbrev pub mov_word : ℕ → ℕ → ℕ → ℕ → ℕ → ℕ
mov_word sf code rd hw imm = sf * 2 ^ 31 + code * 2 ^ 23 + hw * 2 ^ 21 + imm * 2 ^ 5 + rd

-- A 32-bit integer, with the register in range: MOVZ of the low and MOVK of the high half word, which
-- together are the two's complement pattern of the value.
pub wrapper_encode_mov_int32-words :
    (rd : ℕ) (v : ℤ) (e : Bool)
    → rd < 32
    → (lo hi : ℕ) × (wrapper_encode_mov_int32 rd v e
        ≡ ok (
            word_text e (mov_word 0 0b10100101 rd 0 lo)
            ++ word_text e (mov_word 0 0b11100101 rd 1 hi)))
      × (lo < 65536)
      × (hi < 65536)
      × (lo + hi * 2 ^ 16 ≡ low_bits v 32)
unfolding wrapper_encode_mov_int32
wrapper_encode_mov_int32-words rd v e h =
    let l0 = half_word-lt v 0 in
    let l1 = half_word-lt v 16 in
    (
      half_word v 0,
      half_word v 16,
      rw
          (
            encode_movz-word rd (half_word v 0) w_reg 0 e h l0 (omega arith),
            encode_movk-word rd (half_word v 16) w_reg 16 e h l1 (omega arith),
          )
          refl,
      l0,
      l1,
      half_words32 v,
    )

-- A 64-bit integer, with the register in range: MOVZ of the lowest and MOVK of the other half words,
-- which together are the two's complement pattern of the value.
pub wrapper_encode_mov_int64-words :
    (rd : ℕ) (v : ℤ) (e : Bool)
    → rd < 32
    → (a b c d : ℕ) × (wrapper_encode_mov_int64 rd v e
        ≡ ok (
            word_text e (mov_word 1 0b10100101 rd 0 a)
            ++ (word_text e (mov_word 1 0b11100101 rd 1 b)
                ++ (word_text e (mov_word 1 0b11100101 rd 2 c)
                    ++ word_text e (mov_word 1 0b11100101 rd 3 d)))))
      × (a < 65536)
      × (b < 65536)
      × (c < 65536)
      × (d < 65536)
      × (a + b * 2 ^ 16 + c * 2 ^ 32 + d * 2 ^ 48 ≡ low_bits v 64)
unfolding wrapper_encode_mov_int64
wrapper_encode_mov_int64-words rd v e h =
    let l0 = half_word-lt v 0 in
    let l1 = half_word-lt v 16 in
    let l2 = half_word-lt v 32 in
    let l3 = half_word-lt v 48 in
    (
      half_word v 0,
      half_word v 16,
      half_word v 32,
      half_word v 48,
      rw
          (
            encode_movz-word rd (half_word v 0) x_reg 0 e h l0 (omega arith),
            encode_movk-word rd (half_word v 16) x_reg 16 e h l1 (omega arith),
            encode_movk-word rd (half_word v 32) x_reg 32 e h l2 (omega arith),
            encode_movk-word rd (half_word v 48) x_reg 48 e h l3 (omega arith),
          )
          refl,
      l0,
      l1,
      l2,
      l3,
      half_words64 v,
    )
