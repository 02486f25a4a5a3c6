-- ===== src/Opcode/IsWord.antt =====
-- Every encoder that returns, returns the eight digits of one word.
use tiny_wasm.Base.{ℕ, ◌≡◌, refl, sym, subst, Bool, true, false, bit, if◌then◌else◌}
use tiny_wasm.Base.Int.{ℤ}
use tiny_wasm.Base.Result.{Result, ◌>>=◌, Returns, Returns-bind, Returns-ok}
use tiny_wasm.Base.Text.{Text}
use tiny_wasm.Utils.Hex.{hex_pad, bswap32}
use tiny_wasm.Opcode.Base.{
  Arm64Opcode, set_field, common_encode, encode_nop, RegType, LdStType, EncodingMode,
}
use tiny_wasm.Opcode.Fields.{common_encode-word}
use tiny_wasm.Opcode.Arithmetic.{encode_add_sub_shift, encode_mul, encode_div, encode_add_sub_imm}
use tiny_wasm.Opcode.Compare.{encode_compare_shift, encode_compare_imm, encode_csel}
use tiny_wasm.Opcode.Mov.{encode_mov_sp, encode_mov_register, encode_movz, encode_movk}
use tiny_wasm.Opcode.Branch.{
  encode_return, encode_branch, encode_branch_condition, encode_branch_register,
}
use tiny_wasm.Opcode.LoadStore.{
  ldp_stp_mode, load_store_mode, encode_ldp_stp, encode_load_store_imm, encode_load_store_reg,
}

abbrev pub IsWord : Text → Type 0
IsWord t = (x : ℕ) × (t ≡ hex_pad 8 x)

word : (op : Arm64Opcode) → Returns IsWord (common_encode op)
word op =
    let digits = if op.small_endian then bswap32 op.inst else op.inst in
    subst (Returns IsWord) (sym (common_encode-word op.small_endian op.inst))
      (Returns-ok IsWord (hex_pad 8 digits) (digits, refl))

-- One statement of an encoder more.
before :
    (val : ℤ) (o l : ℕ) (op : Arm64Opcode) (f : Arm64Opcode → Result Text)
    → ((op' : Arm64Opcode) → Returns IsWord (f op'))
    → Returns IsWord (set_field val o l op >>= f)
before val o l op f h = Returns-bind IsWord (set_field val o l op) f h

pub encode_nop-IsWord : (e : Bool) → Returns IsWord (encode_nop e)
unfolding encode_nop
encode_nop-IsWord e = before _ _ _ _ _ λ o. word o

pub encode_add_sub_shift-IsWord :
    (sub : Bool) (r : RegType) (rd rn rm imm sh : ℕ) (cmp e : Bool)
    → Returns IsWord (encode_add_sub_shift sub r rd rn rm imm sh cmp e)
unfolding encode_add_sub_shift
encode_add_sub_shift-IsWord sub r rd rn rm imm sh cmp e = before _ _ _ _ _ λ _.
    before _ _ _ _ _ λ _. before _ _ _ _ _ λ _. before _ _ _ _ _ λ _. before _ _ _ _ _ λ _.
      before _ _ _ _ _ λ _. before _ _ _ _ _ λ _. before _ _ _ _ _ λ _. before _ _ _ _ _ λ o. word o

pub encode_mul-IsWord :
    (r : RegType) (rd rn rm : ℕ) (e : Bool) → Returns IsWord (encode_mul r rd rn rm e)
unfolding encode_mul
encode_mul-IsWord r rd rn rm e = before _ _ _ _ _ λ _.
    before _ _ _ _ _ λ _. before _ _ _ _ _ λ _. before _ _ _ _ _ λ _. before _ _ _ _ _ λ o. word o

pub encode_div-IsWord :
    (r : RegType) (sg : Bool) (rd rn rm : ℕ) (e : Bool)
    → Returns IsWord (encode_div r sg rd rn rm e)
unfolding encode_div
encode_div-IsWord r sg rd rn rm e = before _ _ _ _ _ λ _. before _ _ _ _ _ λ _.
    before _ _ _ _ _ λ _.
      before _ _ _ _ _ λ _. before _ _ _ _ _ λ _. before _ _ _ _ _ λ _. before _ _ _ _ _ λ o. word o

pub encode_add_sub_imm-IsWord :
    (r : RegType) (sub : Bool) (rd rn imm sh : ℕ) (cmp flag e : Bool)
    → Returns IsWord (encode_add_sub_imm r sub rd rn imm sh cmp flag e)
unfolding encode_add_sub_imm
encode_add_sub_imm-IsWord r sub rd rn imm sh cmp flag e = before _ _ _ _ _ λ _.
    before _ _ _ _ _ λ _. before _ _ _ _ _ λ _. before _ _ _ _ _ λ _.
      before _ _ _ _ _ λ _. before _ _ _ _ _ λ _. before _ _ _ _ _ λ _. before _ _ _ _ _ λ o. word o

pub encode_csel-IsWord :
    (r : RegType) (rd rn rm cond : ℕ) (e : Bool) → Returns IsWord (encode_csel r rd rn rm cond e)
unfolding encode_csel
encode_csel-IsWord r rd rn rm cond e = before _ _ _ _ _ λ _. before _ _ _ _ _ λ _.
    before _ _ _ _ _ λ _. before _ _ _ _ _ λ _. before _ _ _ _ _ λ _. before _ _ _ _ _ λ o. word o

pub encode_mov_register-IsWord :
    (r : RegType) (rd rm : ℕ) (e : Bool) → Returns IsWord (encode_mov_register r rd rm e)
unfolding encode_mov_register
encode_mov_register-IsWord r rd rm e = before _ _ _ _ _ λ _.
    before _ _ _ _ _ λ _. before _ _ _ _ _ λ _. before _ _ _ _ _ λ _. before _ _ _ _ _ λ o. word o

pub encode_movz-IsWord :
    (rd imm : ℕ) (r : RegType) (sh : ℕ) (e : Bool) → Returns IsWord (encode_movz rd imm r sh e)
unfolding encode_movz
encode_movz-IsWord rd imm r sh e = before _ _ _ _ _ λ _.
    before _ _ _ _ _ λ _. before _ _ _ _ _ λ _. before _ _ _ _ _ λ _. before _ _ _ _ _ λ o. word o

pub encode_movk-IsWord :
    (rd imm : ℕ) (r : RegType) (sh : ℕ) (e : Bool) → Returns IsWord (encode_movk rd imm r sh e)
unfolding encode_movk
encode_movk-IsWord rd imm r sh e = before _ _ _ _ _ λ _.
    before _ _ _ _ _ λ _. before _ _ _ _ _ λ _. before _ _ _ _ _ λ _. before _ _ _ _ _ λ o. word o

pub encode_return-IsWord : (rn : ℕ) (e : Bool) → Returns IsWord (encode_return rn e)
unfolding encode_return
encode_return-IsWord rn e = before _ _ _ _ _ λ _. before _ _ _ _ _ λ o. word o

pub encode_branch-IsWord : (imm : ℤ) (link e : Bool) → Returns IsWord (encode_branch imm link e)
unfolding encode_branch
encode_branch-IsWord imm link e =
    before _ _ _ _ _ λ _. before _ _ _ _ _ λ _. before _ _ _ _ _ λ o. word o

pub encode_branch_condition-IsWord :
    (imm : ℤ) (cond : ℕ) (e : Bool) → Returns IsWord (encode_branch_condition imm cond e)
unfolding encode_branch_condition
encode_branch_condition-IsWord imm cond e =
    before _ _ _ _ _ λ _. before _ _ _ _ _ λ _. before _ _ _ _ _ λ o. word o

pub encode_branch_register-IsWord :
    (rn : ℕ) (link e : Bool) → Returns IsWord (encode_branch_register rn link e)
unfolding encode_branch_register
encode_branch_register-IsWord rn link e =
    before _ _ _ _ _ λ _. before _ _ _ _ _ λ _. before _ _ _ _ _ λ o. word o

pub encode_load_store_reg-IsWord :
    (r : RegType) (t : LdStType) (rt rn rm opt : ℕ) (e : Bool)
    → Returns IsWord (encode_load_store_reg r t rt rn rm opt e)
unfolding encode_load_store_reg
encode_load_store_reg-IsWord r t rt rn rm opt e = before _ _ _ _ _ λ _. before _ _ _ _ _ λ _.
    before _ _ _ _ _ λ _. before _ _ _ _ _ λ _. before _ _ _ _ _ λ _. before _ _ _ _ _ λ _.
      before _ _ _ _ _ λ _. before _ _ _ _ _ λ _. before _ _ _ _ _ λ _. before _ _ _ _ _ λ o. word o

pub encode_compare_shift-IsWord :
    (r : RegType) (rn rm imm sh : ℕ) (e : Bool)
    → Returns IsWord (encode_compare_shift r rn rm imm sh e)
unfolding encode_compare_shift
encode_compare_shift-IsWord r rn rm imm sh e =
    encode_add_sub_shift-IsWord true r 31 rn rm imm sh true e

pub encode_compare_imm-IsWord :
    (r : RegType) (rn imm : ℕ) (sh e : Bool) → Returns IsWord (encode_compare_imm r rn imm sh e)
unfolding encode_compare_imm
encode_compare_imm-IsWord r rn imm sh e =
    encode_add_sub_imm-IsWord r true 31 rn imm (bit sh) true true e

pub encode_mov_sp-IsWord :
    (r : RegType) (rd rn : ℕ) (e : Bool) → Returns IsWord (encode_mov_sp r rd rn e)
unfolding encode_mov_sp
encode_mov_sp-IsWord r rd rn e = encode_add_sub_imm-IsWord r false rd rn 0 0 false false true

pub encode_ldp_stp-IsWord :
    (r : RegType) (t : LdStType) (rt rt2 rn : ℕ) (imm : ℤ) (mode : EncodingMode) (e : Bool)
    → Returns IsWord (encode_ldp_stp r t rt rt2 rn imm mode e)
unfolding encode_ldp_stp
encode_ldp_stp-IsWord r t rt rt2 rn imm mode e = before _ _ _ _ _ λ _. before _ _ _ _ _ λ o.
    Returns-bind IsWord (ldp_stp_mode mode o) _ λ _.
      before _ _ _ _ _ λ _. before _ _ _ _ _ λ _. before _ _ _ _ _ λ _. before _ _ _ _ _ λ o. word o

pub encode_load_store_imm-IsWord :
    (r : RegType) (t : LdStType) (rt rn : ℕ) (imm : ℤ) (mode : EncodingMode) (e : Bool)
    → Returns IsWord (encode_load_store_imm r t rt rn imm mode e)
unfolding encode_load_store_imm
encode_load_store_imm-IsWord r t rt rn imm mode e = before _ _ _ _ _ λ _. before _ _ _ _ _ λ _.
    before _ _ _ _ _ λ _. before _ _ _ _ _ λ _. before _ _ _ _ _ λ o.
      Returns-bind IsWord (load_store_mode r imm mode o) _
        λ _. before _ _ _ _ _ λ _. before _ _ _ _ _ λ o. word o
