-- ===== src/Wasm/Operands/Conditions.antt =====
-- The conditions that the compiler picks for the comparisons.
use tiny_wasm.Base.{bits_of, ℕ, ◌^◌, ◌<◌, ◌≡◌, arith, Bool, true, false}
use tiny_wasm.Base.Text.{Text, text}
use tiny_wasm.A64.{holds, subtract_flags}
use tiny_wasm.Wasm.Operands.{
  Comparison, eq, ne, lt_s, lt_u, gt_s, gt_u, le_s, le_u, ge_s, ge_u, relates,
}

abbrev pub condition : Comparison → Text
condition eq = text "eq"
condition ne = text "ne"
condition lt_s = text "lt"
condition lt_u = text "cc"
condition gt_s = text "gt"
condition gt_u = text "hi"
condition le_s = text "le"
condition le_u = text "ls"
condition ge_s = text "ge"
condition ge_u = text "cs"

abbrev pub condition_code : Comparison → ℕ
condition_code eq = 0
condition_code ne = 1
condition_code lt_s = 11
condition_code lt_u = 3
condition_code gt_s = 12
condition_code gt_u = 8
condition_code le_s = 13
condition_code le_u = 9
condition_code ge_s = 10
condition_code ge_u = 2

abbrev Agrees : Comparison → Bool → Type 0
Agrees op wide =
    (a b : ℕ)
    → a < 2 ^ bits_of wide
    → b < 2 ^ bits_of wide
    → holds (condition_code op) (subtract_flags (bits_of wide) a b) ≡ relates op (bits_of wide) a b

-- For each comparison of two integers of the same width, the condition that the compiler picks holds
-- of the flags of their subtraction exactly when the comparison holds.
pub holds-condition_code : (op : Comparison) (wide : Bool) → Agrees op wide
unfolding holds
holds-condition_code eq true a b ha hb = ground arith
holds-condition_code eq false a b ha hb = ground arith
holds-condition_code ne true a b ha hb = ground arith
holds-condition_code ne false a b ha hb = ground arith
holds-condition_code lt_s true a b ha hb = ground arith
holds-condition_code lt_s false a b ha hb = ground arith
holds-condition_code lt_u true a b ha hb = ground arith
holds-condition_code lt_u false a b ha hb = ground arith
holds-condition_code gt_s true a b ha hb = ground arith
holds-condition_code gt_s false a b ha hb = ground arith
holds-condition_code gt_u true a b ha hb = ground arith
holds-condition_code gt_u false a b ha hb = ground arith
holds-condition_code le_s true a b ha hb = ground arith
holds-condition_code le_s false a b ha hb = ground arith
holds-condition_code le_u true a b ha hb = ground arith
holds-condition_code le_u false a b ha hb = ground arith
holds-condition_code ge_s true a b ha hb = ground arith
holds-condition_code ge_s false a b ha hb = ground arith
holds-condition_code ge_u true a b ha hb = ground arith
holds-condition_code ge_u false a b ha hb = ground arith
