-- ===== src/Opcode/Layout/LoadStore.antt =====
-- The words of include/Opcode/LoadStore.hpp, field by field.
use tiny_wasm.Base.{
  ℕ, ◌+◌, ◌-◌, ◌*◌, ◌≢◌, ◌∙◌, ap, true, refl, ◌/◌, ◌^◌, ◌<◌, ◌≡◌, Bool, false, arith, bit, bit-lt,
  if◌then◌else◌,
}
use native.Mathlib.Nat.{mod-lt, one-le-pow}
use tiny_wasm.Base.Int.{ℤ, pos, negsuc, low_bits, signed, exceeds, shift_right}
use tiny_wasm.Base.Result.{Result, ok, ◌>>=◌}
use tiny_wasm.Base.Text.{Text}
use tiny_wasm.Opcode.Base.{
  EncodingMode, post_index, pre_index, signed_offset, unsigned_offset, LdStType, RegType, is_x,
  x_reg, w_reg, s_reg, d_reg, is_ldr, opcode_at, Arm64Opcode,
}
use tiny_wasm.Opcode.Fields.{put, put_masked, Fits, field_of, finish, word_text}
use tiny_wasm.Opcode.LoadStore.{
  scaled, ldp_stp_mode, encode_ldp_stp, encode_load_store_imm, encode_load_store_reg,
}

-- The fields that the encoder fills for any kind of register: it asks only whether it is an X register.
pub encode_load_store_reg-fields :
    (r : RegType) (t : LdStType) (rt rn rm opt : ℕ) (e : Bool)
    → rt < 32
    → rn < 32
    → rm < 32
    → opt < 8
    → encode_load_store_reg r t rt rn rm opt e
      ≡ ok (
          word_text e (
            1 * 2 ^ 31
            + bit (is_x r) * 2 ^ 30
            + 0b111 * 2 ^ 27
            + bit (is_ldr t) * 2 ^ 22
            + 1 * 2 ^ 21
            + rm * 2 ^ 16
            + opt * 2 ^ 13
            + 1 * 2 ^ 11
            + rn * 2 ^ 5
            + rt))
unfolding encode_load_store_reg
encode_load_store_reg-fields r t rt rn rm opt e ht hn hm ho =
    let hx = bit-lt (is_x r) in
    let hl = bit-lt (is_ldr t) in
    put 1 _ _ _ _ _ _ (omega arith) (
      put 1 _ _ _ _ _ _ (omega arith) (
        put 3 _ _ _ _ _ _ (omega arith) (
          put 1 _ _ _ _ _ _ (omega arith) (
            put 1 _ _ _ _ _ _ (omega arith) (
              put 3 _ _ _ _ _ _ (omega arith) (
                put 1 _ _ _ _ _ _ (omega arith) (
                  put 5 _ _ _ _ _ _ (omega arith) (
                    put 5 _ _ _ _ _ _ (omega arith)
                      (put 5 _ _ _ _ _ _ (omega arith) (finish _ _ _ (omega arith)))))))))))

-- The unsigned offset in units, within its twelve bits.
scaled_units :
    (r : RegType) (imm : ℕ)
    → imm / (if is_x r then 8 else 4) < 4096
    → low_bits (scaled r (pos imm)) 16 ≡ imm / (if is_x r then 8 else 4)
scaled_units x_reg imm h = omega arith
scaled_units _ imm h = omega arith

pub encode_load_store_imm-fields :
    (r : RegType) (t : LdStType) (rt rn imm : ℕ) (e : Bool)
    → rt < 32
    → rn < 32
    → imm / (if is_x r then 8 else 4) < 4096
    → encode_load_store_imm r t rt rn (pos imm) unsigned_offset e
      ≡ ok (
          word_text e (
            1 * 2 ^ 31
            + bit (is_x r) * 2 ^ 30
            + 0b111 * 2 ^ 27
            + 0b01 * 2 ^ 24
            + bit (is_ldr t) * 2 ^ 22
            + imm / (if is_x r then 8 else 4) * 2 ^ 10
            + rn * 2 ^ 5
            + rt))
unfolding encode_load_store_imm
encode_load_store_imm-fields r t rt rn imm e ht hn hi =
    let hx = bit-lt (is_x r) in
    let hl = bit-lt (is_ldr t) in
    let hu = scaled_units r imm hi in
    put 1 _ _ _ _ _ _ (omega arith) (
      put 1 _ _ _ _ _ _ (omega arith) (
        put 3 _ _ _ _ _ _ (omega arith) (
          put 1 _ _ _ _ _ _ (omega arith) (
            put 1 _ _ _ _ _ _ (omega arith) (
              put 12 _ _ _ _ _ _ (omega arith) (
                put 5 _ _ _ _ _ _ (omega arith)
                  (put 5 _ _ _ _ _ _ (omega arith) (finish _ _ _ (omega arith)))))))))

-- Two's complement of `w` bits.
low_bits-lt : (z : ℤ) (w : ℕ) → low_bits z w < 2 ^ w
low_bits-lt (pos n) w = mod-lt n (one-le-pow w 2 (omega arith))
low_bits-lt (negsuc n) w = omega (arith, mod-lt n (one-le-pow w 2 (omega arith)))

-- The seven bits of an offset that fits an `int8_t` after scaling.
imm7_field : (z : ℤ) → field_of (signed 8 (low_bits z 8)) 7 ≡ low_bits z 7
imm7_field (pos n) = ground arith
imm7_field (negsuc n) = ground arith

imm7_within : (n : ℕ) → n < 256 → exceeds (signed 8 n) (2 ^ 7 - 1) ≡ false
imm7_within n h = ground arith

-- The bits of the addressing modes that LDP and STP have.
abbrev pub mode_code : EncodingMode → ℕ
mode_code post_index = 0b1010001
mode_code pre_index = 0b1010011
mode_code signed_offset = 0b1010010
mode_code unsigned_offset = 0

mode_code-lt : (mode : EncodingMode) → mode_code mode < 128
mode_code-lt post_index = omega arith
mode_code-lt _ = omega arith

put_mode :
    (mode : EncodingMode) (e : Bool) (w : ℕ) (k : Arm64Opcode → Result Text) {t : Result Text}
    → mode ≢ unsigned_offset
    → Fits (mode_code mode) 23 32 7 w
    → k (opcode_at e (w + mode_code mode * 2 ^ 23)) ≡ t
    → (ldp_stp_mode mode (opcode_at e w) >>= k) ≡ t
put_mode post_index e w k h f rest = put 7 _ _ _ _ _ k f rest
put_mode pre_index e w k h f rest = put 7 _ _ _ _ _ k f rest
put_mode signed_offset e w k h f rest = put 7 _ _ _ _ _ k f rest
put_mode unsigned_offset e w k h f rest = absurd (h refl)

encode_ldp_stp-fields :
    (r : RegType) (t : LdStType) (rt rt2 rn : ℕ) (imm : ℤ) (mode : EncodingMode) (e : Bool)
    → rt < 32
    → rt2 < 32
    → rn < 32
    → mode ≢ unsigned_offset
    → encode_ldp_stp r t rt rt2 rn imm mode e
      ≡ ok (
          word_text e (
            bit (is_x r) * 2 ^ 31
            + mode_code mode * 2 ^ 23
            + bit (is_ldr t) * 2 ^ 22
            + low_bits (scaled r imm) 7 * 2 ^ 15
            + rt2 * 2 ^ 10
            + rn * 2 ^ 5
            + rt))
unfolding encode_ldp_stp
encode_ldp_stp-fields r t rt rt2 rn imm mode e ht h2 hn hm =
    let hx = bit-lt (is_x r) in
    let hl = bit-lt (is_ldr t) in
    let hc = mode_code-lt mode in
    let z = scaled r imm in
    let hz = imm7_field z in
    let hlow = low_bits-lt z 7 in
    let hin = imm7_within (low_bits z 8) (low_bits-lt z 8) in
    put 1 _ _ _ _ _ _ (omega arith) (
      put 1 _ _ _ _ _ _ (omega arith) (
        put_mode mode _ _ _ hm (omega arith) (
          put_masked 7 _ _ _ _ _ _ hin (omega arith) (
            put 5 _ _ _ _ _ _ (omega arith) (
              put 5 _ _ _ _ _ _ (omega arith)
                (put 5 _ _ _ _ _ _ (omega arith) (finish _ _ _ (omega arith))))))))

-- X or W.
abbrev pub general : Bool → RegType
general true = x_reg
general false = w_reg

abbrev pub register_bytes : Bool → ℕ
register_bytes true = 8
register_bytes false = 4

-- LDR and STR of X and W registers with a register offset, with registers and option in range: the size, the
-- kind of access, the option and the registers stand at their places. For an S or a D register the
-- encoder gives the same text as for the W register of that number.
pub encode_load_store_reg-word :
    (wide : Bool) (t : LdStType) (rt rn rm opt : ℕ) (e : Bool)
    → rt < 32
    → rn < 32
    → rm < 32
    → opt < 8
    → (encode_load_store_reg (general wide) t rt rn rm opt e
        ≡ ok (
            word_text e (
              (2 + bit wide) * 2 ^ 30
              + 0b111000 * 2 ^ 24
              + bit (is_ldr t) * 2 ^ 22
              + 2 ^ 21
              + rm * 2 ^ 16
              + opt * 2 ^ 13
              + 0b10 * 2 ^ 10
              + rn * 2 ^ 5
              + rt)))
      × (encode_load_store_reg s_reg t rt rn rm opt e
          ≡ encode_load_store_reg w_reg t rt rn rm opt e)
      × (encode_load_store_reg d_reg t rt rn rm opt e
          ≡ encode_load_store_reg w_reg t rt rn rm opt e)
unfolding encode_load_store_reg
encode_load_store_reg-word true t rt rn rm opt e ht hn hm ho = (
  encode_load_store_reg-fields x_reg t rt rn rm opt e ht hn hm ho
      ∙ ap (λ w. ok (word_text e w)) (omega arith),
  refl,
  refl,
)
encode_load_store_reg-word false t rt rn rm opt e ht hn hm ho = (
  encode_load_store_reg-fields w_reg t rt rn rm opt e ht hn hm ho
      ∙ ap (λ w. ok (word_text e w)) (omega arith),
  refl,
  refl,
)

-- LDR and STR of X and W registers with an offset of 0 or more, with registers in range and fewer than 4096
-- units: the word holds the offset in units of the size of the register; a part below one unit is
-- dropped. For an S or a D register the encoder gives the same text as for the W register of that
-- number, its unit of four bytes included.
pub encode_load_store_imm-word :
    (wide : Bool) (t : LdStType) (rt rn imm : ℕ) (e : Bool)
    → rt < 32
    → rn < 32
    → imm / register_bytes wide < 4096
    → (encode_load_store_imm (general wide) t rt rn (pos imm) unsigned_offset e
        ≡ ok (
            word_text e (
              (2 + bit wide) * 2 ^ 30
              + 0b111001 * 2 ^ 24
              + bit (is_ldr t) * 2 ^ 22
              + imm / register_bytes wide * 2 ^ 10
              + rn * 2 ^ 5
              + rt)))
      × (encode_load_store_imm s_reg t rt rn (pos imm) unsigned_offset e
          ≡ encode_load_store_imm w_reg t rt rn (pos imm) unsigned_offset e)
      × (encode_load_store_imm d_reg t rt rn (pos imm) unsigned_offset e
          ≡ encode_load_store_imm w_reg t rt rn (pos imm) unsigned_offset e)
unfolding encode_load_store_imm
encode_load_store_imm-word true t rt rn imm e ht hn hi = (
  encode_load_store_imm-fields x_reg t rt rn imm e ht hn hi
      ∙ ap (λ w. ok (word_text e w)) (omega arith),
  refl,
  refl,
)
encode_load_store_imm-word false t rt rn imm e ht hn hi = (
  encode_load_store_imm-fields w_reg t rt rn imm e ht hn hi
      ∙ ap (λ w. ok (word_text e w)) (omega arith),
  refl,
  refl,
)

-- LDP and STP of X and W registers in the modes that the encoder accepts, with registers in range: the word
-- has the mode, the kind of access and the registers, and the offset in units of the size of the
-- register, by its low seven bits. For S and D registers the encoder gives the same text as for
-- the W registers of these numbers.
pub encode_ldp_stp-word :
    (wide : Bool) (t : LdStType) (rt rt2 rn : ℕ) (imm : ℤ) (mode : EncodingMode) (e : Bool)
    → rt < 32
    → rt2 < 32
    → rn < 32
    → mode ≢ unsigned_offset
    → (encode_ldp_stp (general wide) t rt rt2 rn imm mode e
        ≡ ok (
            word_text e (
              bit wide * 2 ^ 31
              + mode_code mode * 2 ^ 23
              + bit (is_ldr t) * 2 ^ 22
              + low_bits (shift_right imm (2 + bit wide)) 7 * 2 ^ 15
              + rt2 * 2 ^ 10
              + rn * 2 ^ 5
              + rt)))
      × (encode_ldp_stp s_reg t rt rt2 rn imm mode e ≡ encode_ldp_stp w_reg t rt rt2 rn imm mode e)
      × (encode_ldp_stp d_reg t rt rt2 rn imm mode e ≡ encode_ldp_stp w_reg t rt rt2 rn imm mode e)
unfolding encode_ldp_stp
encode_ldp_stp-word true t rt rt2 rn imm mode e ht h2 hn hm =
    (encode_ldp_stp-fields x_reg t rt rt2 rn imm mode e ht h2 hn hm, refl, refl)
encode_ldp_stp-word false t rt rt2 rn imm mode e ht h2 hn hm =
    (encode_ldp_stp-fields w_reg t rt rt2 rn imm mode e ht h2 hn hm, refl, refl)
