-- ===== src/A64/Decode.antt =====
-- A processor: it decodes a word and performs the instruction.
use tiny_wasm.Base.{
  ℕ, ◌/◌, ◌%◌, ◌^◌, ◌≡◌, ap, ◌==◌, not, ◌&&◌, Bool, true, false, arith, if◌then◌else◌,
}
use tiny_wasm.Opcode.Base.{LdStType, str, ldr}
use tiny_wasm.A64.{
  Machine, Instruction, add_sub_shift, mul, add_sub_imm, movz, movk, load_store_reg, load_store_imm,
  compare_shift, csel, store_zero, add_sub_sp, perform, word_of, IsEncodable, IsA64,
}

-- The bits of `w` from `o` on, `n` of them.
abbrev field : ℕ → ℕ → ℕ → ℕ
field w o n = w / 2 ^ o % 2 ^ n

abbrev flag : ℕ → ℕ → Bool
flag w o = field w o 1 == 1

abbrev load_or_store : Bool → LdStType
load_or_store true = ldr
load_or_store false = str

abbrev pub decode : ℕ → Instruction
decode w =
    let rd = field w 0 5 in
    let rn = field w 5 5 in
    let rm = field w 16 5 in
    let wide = flag w 31 in
    if field w 27 3 == 0b111
    then if flag w 24
      then if (rd == 31) && not (flag w 22)
        then store_zero (flag w 30) rn (field w 10 12)
        else load_store_imm (load_or_store (flag w 22)) (flag w 30) rd rn (field w 10 12)
      else load_store_reg (load_or_store (flag w 22)) (flag w 30) rd rn rm
    else if field w 23 6 == 0b100101
    then if flag w 29
      then movk wide rd (field w 21 2) (field w 5 16)
      else movz wide rd (field w 21 2) (field w 5 16)
    else if field w 24 5 == 0b10001
    then if (rd == 31) && (rn == 31)
      then add_sub_sp (flag w 30) (field w 10 12)
      else add_sub_imm (flag w 30) rd rn (field w 10 12)
    else if field w 24 5 == 0b11011
    then mul wide rd rn rm
    else if field w 24 5 == 0b11010
    then csel rd rn rm (field w 12 4)
    else if flag w 29
    then compare_shift wide rn rm
    else add_sub_shift (flag w 30) wide rd rn rm

decode-add_sub_shift :
    (sub wide : Bool) (rd rn rm : ℕ)
    → IsEncodable (add_sub_shift sub wide rd rn rm)
    → decode (word_of (add_sub_shift sub wide rd rn rm)) ≡ add_sub_shift sub wide rd rn rm
decode-add_sub_shift true true rd rn rm h = ground arith
decode-add_sub_shift true false rd rn rm h = ground arith
decode-add_sub_shift false true rd rn rm h = ground arith
decode-add_sub_shift false false rd rn rm h = ground arith

decode-mul :
    (wide : Bool) (rd rn rm : ℕ)
    → IsEncodable (mul wide rd rn rm)
    → decode (word_of (mul wide rd rn rm)) ≡ mul wide rd rn rm
decode-mul true rd rn rm h = ground arith
decode-mul false rd rn rm h = ground arith

decode-add_sub_imm :
    (sub : Bool) (rd rn imm : ℕ)
    → IsEncodable (add_sub_imm sub rd rn imm)
    → decode (word_of (add_sub_imm sub rd rn imm)) ≡ add_sub_imm sub rd rn imm
decode-add_sub_imm true rd rn imm h = ground arith
decode-add_sub_imm false rd rn imm h = ground arith

decode-movz :
    (wide : Bool) (rd hw imm : ℕ)
    → IsEncodable (movz wide rd hw imm)
    → decode (word_of (movz wide rd hw imm)) ≡ movz wide rd hw imm
decode-movz true rd hw imm h = ground arith
decode-movz false rd hw imm h = ground arith

decode-movk :
    (wide : Bool) (rd hw imm : ℕ)
    → IsEncodable (movk wide rd hw imm)
    → decode (word_of (movk wide rd hw imm)) ≡ movk wide rd hw imm
decode-movk true rd hw imm h = ground arith
decode-movk false rd hw imm h = ground arith

decode-load_store_reg :
    (t : LdStType) (wide : Bool) (rt rn rm : ℕ)
    → IsEncodable (load_store_reg t wide rt rn rm)
    → decode (word_of (load_store_reg t wide rt rn rm)) ≡ load_store_reg t wide rt rn rm
decode-load_store_reg ldr true rt rn rm h = ground arith
decode-load_store_reg ldr false rt rn rm h = ground arith
decode-load_store_reg str true rt rn rm h = ground arith
decode-load_store_reg str false rt rn rm h = ground arith

decode-load_store_imm :
    (t : LdStType) (wide : Bool) (rt rn units : ℕ)
    → IsEncodable (load_store_imm t wide rt rn units)
    → decode (word_of (load_store_imm t wide rt rn units)) ≡ load_store_imm t wide rt rn units
decode-load_store_imm ldr true rt rn units h = ground arith
decode-load_store_imm ldr false rt rn units h = ground arith
decode-load_store_imm str true rt rn units h = ground arith
decode-load_store_imm str false rt rn units h = ground arith

decode-compare_shift :
    (wide : Bool) (rn rm : ℕ)
    → IsEncodable (compare_shift wide rn rm)
    → decode (word_of (compare_shift wide rn rm)) ≡ compare_shift wide rn rm
decode-compare_shift true rn rm h = ground arith
decode-compare_shift false rn rm h = ground arith

decode-csel :
    (rd rn rm cond : ℕ)
    → IsEncodable (csel rd rn rm cond)
    → decode (word_of (csel rd rn rm cond)) ≡ csel rd rn rm cond
decode-csel rd rn rm cond h = ground arith

decode-store_zero :
    (wide : Bool) (rn units : ℕ)
    → IsEncodable (store_zero wide rn units)
    → decode (word_of (store_zero wide rn units)) ≡ store_zero wide rn units
decode-store_zero true rn units h = ground arith
decode-store_zero false rn units h = ground arith

decode-add_sub_sp :
    (sub : Bool) (imm : ℕ)
    → IsEncodable (add_sub_sp sub imm)
    → decode (word_of (add_sub_sp sub imm)) ≡ add_sub_sp sub imm
decode-add_sub_sp true imm h = ground arith
decode-add_sub_sp false imm h = ground arith

-- The words of different instructions differ, and each is decoded as its instruction.
pub decode-word_of : (i : Instruction) → IsEncodable i → decode (word_of i) ≡ i
decode-word_of (add_sub_shift sub wide rd rn rm) h = decode-add_sub_shift sub wide rd rn rm h
decode-word_of (mul wide rd rn rm) h = decode-mul wide rd rn rm h
decode-word_of (add_sub_imm sub rd rn imm) h = decode-add_sub_imm sub rd rn imm h
decode-word_of (movz wide rd hw imm) h = decode-movz wide rd hw imm h
decode-word_of (movk wide rd hw imm) h = decode-movk wide rd hw imm h
decode-word_of (load_store_reg t wide rt rn rm) h = decode-load_store_reg t wide rt rn rm h
decode-word_of (load_store_imm t wide rt rn units) h = decode-load_store_imm t wide rt rn units h
decode-word_of (compare_shift wide rn rm) h = decode-compare_shift wide rn rm h
decode-word_of (store_zero wide rn units) h = decode-store_zero wide rn units h
decode-word_of (add_sub_sp sub imm) h = decode-add_sub_sp sub imm h
decode-word_of (csel rd rn rm cond) h = decode-csel rd rn rm cond h

-- A processor that follows the manual on every word of these instructions.
abbrev pub processor : ℕ → Machine → Machine
processor w s = perform (decode w) s

pub processor-IsA64 : IsA64 processor
processor-IsA64 i s h = ap (λ (j : Instruction). perform j s) (decode-word_of i h)
