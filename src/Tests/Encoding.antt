-- ===== src/Tests/Encoding.antt =====
-- Words of the encoders, as an assembler gives them, and values refused by a field.
use tiny_wasm.Base.{◌≡◌, true, false, arith}
use tiny_wasm.Base.Int.{pos, negsuc}
use tiny_wasm.Base.Result.{ok}
use tiny_wasm.Opcode.Base.{x_reg, w_reg, s_reg, d_reg, ldr, str, pre_index, unsigned_offset}
use tiny_wasm.Opcode.Fields.{word_text}
use tiny_wasm.Opcode.Arithmetic.{encode_add_sub_shift}
use tiny_wasm.Opcode.LoadStore.{encode_ldp_stp, encode_load_store_imm, encode_load_store_reg}
use tiny_wasm.Opcode.Layout.Arithmetic.{encode_add_sub_shift-word}
use tiny_wasm.Opcode.Layout.LoadStore.{
  encode_load_store_reg-word, encode_load_store_imm-word, encode_ldp_stp-word,
}

-- add x3, x4, x5, lsl #2
encode_add_sub_shift-word_example :
    encode_add_sub_shift false x_reg 3 4 5 2 0 false false ≡ ok (word_text false 0x8b050883)
encode_add_sub_shift-word_example =
    encode_add_sub_shift-word false x_reg 3 4 5 2 0 false false (omega arith) (omega arith)
      (omega arith) (omega arith) (omega arith)

-- str x11, [x20, x21]
encode_load_store_reg-word_example :
    (encode_load_store_reg x_reg str 11 20 21 3 false ≡ ok (word_text false 0xf8356a8b))
    × (encode_load_store_reg s_reg str 11 20 21 3 false
        ≡ encode_load_store_reg w_reg str 11 20 21 3 false)
    × (encode_load_store_reg d_reg str 11 20 21 3 false
        ≡ encode_load_store_reg w_reg str 11 20 21 3 false)
encode_load_store_reg-word_example =
    encode_load_store_reg-word true str 11 20 21 3 false (omega arith) (omega arith) (omega arith)
      (omega arith)

-- ldr x5, [x0, #104]
encode_load_store_imm-word_example :
    (encode_load_store_imm x_reg ldr 5 0 (pos 104) unsigned_offset false
      ≡ ok (word_text false 0xf9403405))
    × (encode_load_store_imm s_reg ldr 5 0 (pos 104) unsigned_offset false
        ≡ encode_load_store_imm w_reg ldr 5 0 (pos 104) unsigned_offset false)
    × (encode_load_store_imm d_reg ldr 5 0 (pos 104) unsigned_offset false
        ≡ encode_load_store_imm w_reg ldr 5 0 (pos 104) unsigned_offset false)
encode_load_store_imm-word_example =
    encode_load_store_imm-word true ldr 5 0 104 false (omega arith) (omega arith) (omega arith)

-- stp x29, x30, [sp, #-32]!
encode_ldp_stp-word_example :
    (encode_ldp_stp x_reg str 29 30 31 (negsuc 31) pre_index false
      ≡ ok (word_text false 0xa9be7bfd))
    × (encode_ldp_stp s_reg str 29 30 31 (negsuc 31) pre_index false
        ≡ encode_ldp_stp w_reg str 29 30 31 (negsuc 31) pre_index false)
    × (encode_ldp_stp d_reg str 29 30 31 (negsuc 31) pre_index false
        ≡ encode_ldp_stp w_reg str 29 30 31 (negsuc 31) pre_index false)
encode_ldp_stp-word_example =
    encode_ldp_stp-word true str 29 30 31 (negsuc 31) pre_index false (omega arith) (omega arith)
      (omega arith) (λ h. cc)
