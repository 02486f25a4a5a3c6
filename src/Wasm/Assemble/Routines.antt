-- ===== src/Wasm/Assemble/Routines.antt =====
-- The routines of include/Wasm/CommonHeader.hpp are finished words.
use tiny_wasm.Base.{ℕ, true, false, ◌++◌}
use tiny_wasm.Base.Int.{pos}
use tiny_wasm.Base.Result.{Returns, Returns-bind}
use tiny_wasm.Base.Text.{Text, text}
use tiny_wasm.Opcode.Base.{w_reg, x_reg, LdStType, str, ldr, signed_offset, unsigned_offset}
use tiny_wasm.Opcode.IsWord
use tiny_wasm.Wasm.Types.{cond_table, at}
use tiny_wasm.Wasm.Process.{pair_at, saved_pairs, get_set_jmp_instr, get_long_jmp_instr}
use tiny_wasm.Wasm.Assemble.Laid.{IsCode, IsCode-append}
use tiny_wasm.Wasm.Assemble.Codes.{IsCode-of_word, then-IsCode, done-IsCode}

pair-IsCode : (t : LdStType) (a b o : ℕ) → Returns IsCode (pair_at t a b o)
pair-IsCode t a b o =
    IsCode-of_word _ (IsWord.encode_ldp_stp-IsWord x_reg t a b 0 (pos o) signed_offset true)

-- Two pieces.
join : (a b : Text) → IsCode a → IsCode b → IsCode (a ++ b)
join = IsCode-append

saved_pairs-IsCode : (t : LdStType) → Returns IsCode (saved_pairs t)
unfolding saved_pairs
saved_pairs-IsCode t = then-IsCode _ _ (pair-IsCode t 19 20 0) λ a ha.
    then-IsCode _ _ (pair-IsCode t 21 22 16) λ b hb.
      then-IsCode _ _ (pair-IsCode t 23 24 32) λ c hc.
        then-IsCode _ _ (pair-IsCode t 25 26 48) λ d hd.
          then-IsCode _ _ (pair-IsCode t 27 28 64) λ e he.
            then-IsCode _ _ (pair-IsCode t 29 30 80) λ f hf.
              done-IsCode _ (join _ _ ha (join _ _ hb (join _ _ hc (join _ _ hd (join _ _ he hf)))))

pub set_jmp-IsCode : Returns IsCode get_set_jmp_instr
unfolding get_set_jmp_instr
set_jmp-IsCode = then-IsCode _ _ (saved_pairs-IsCode str) λ a ha.
    then-IsCode _ _ (IsCode-of_word _ (IsWord.encode_mov_sp-IsWord x_reg 2 31 true)) λ b hb.
      then-IsCode _ _
        (IsCode-of_word _
          (IsWord.encode_load_store_imm-IsWord x_reg str 2 0 (pos 104) unsigned_offset true))
        λ c hc.
          then-IsCode _ _ (IsCode-of_word _ (IsWord.encode_movz-IsWord 0 0 w_reg 0 true)) λ d hd.
            then-IsCode _ _ (IsCode-of_word _ (IsWord.encode_return-IsWord 30 true))
              λ e he. done-IsCode _ (join _ _ ha (join _ _ hb (join _ _ hc (join _ _ hd he))))

pub long_jmp-IsCode : Returns IsCode get_long_jmp_instr
unfolding get_long_jmp_instr
long_jmp-IsCode = then-IsCode _ _ (saved_pairs-IsCode ldr) λ a ha.
    then-IsCode _ _
      (IsCode-of_word _
        (IsWord.encode_load_store_imm-IsWord x_reg ldr 5 0 (pos 104) unsigned_offset true))
      λ b hb.
        then-IsCode _ _ (IsCode-of_word _ (IsWord.encode_mov_sp-IsWord x_reg 31 5 true)) λ c hc.
          then-IsCode _ _ (IsCode-of_word _ (IsWord.encode_compare_imm-IsWord x_reg 1 0 false true))
            λ d hd.
              then-IsCode _ _ (IsCode-of_word _ (IsWord.encode_movz-IsWord 0 1 x_reg 0 true))
                λ e he. Returns-bind IsCode (at cond_table (text "ne")) _ λ v.
                  then-IsCode _ _ (IsCode-of_word _ (IsWord.encode_csel-IsWord x_reg 0 1 0 v true))
                    λ f hf.
                      then-IsCode _ _
                        (IsCode-of_word _ (IsWord.encode_branch_register-IsWord 30 false true))
                        λ g hg. done-IsCode _ (
                          join _ _ ha (
                            join _ _ hb (join _ _ hc (join _ _ hd (join _ _ he (join _ _ hf hg))))))
