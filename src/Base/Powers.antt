-- ===== src/Base/Powers.antt =====
-- Powers of two.
use Prim.Native.Nat.{ℕ, zero, suc, ◌+◌, ◌*◌, ◌/◌, ◌%◌, ◌^◌, ◌<◌, ◌≤◌}
use mathlib.Core.Path.{◌≡◌, sym, ap, ◌∙◌}
use native.Mathlib.Nat.{
  pow-succ', mod-lt, mul-le-mul_right, div-add-mod', mul-add-mod_self_left, mod-eq_of_lt,
}
use native.Mathlib.Omega.{arith}

pub power_add : (s k : ℕ) → 2 ^ (s + k) ≡ 2 ^ s * 2 ^ k
power_add zero k = let here : 2 ^ (0 + k) ≡ 2 ^ k = ap (λ n. 2 ^ n) (omega arith) in omega arith
power_add (suc s) k =
    let step : 2 ^ (suc s + k) ≡ 2 * 2 ^ (s + k) =
      ap (λ n. 2 ^ n) (omega arith) ∙ pow-succ' 2 (s + k) in
    grind (arith, step, power_add s k, pow-succ' 2 s)

-- A remainder in two parts.
pub mod_split : (b p u : ℕ) → 0 < b → 0 < p → u % (b * p) ≡ u / p % b * p + u % p
mod_split b p u hb hp =
    let q = u / p in
    let rest = q % b * p + u % p in
    let small : u % p < p = mod-lt u hp in
    let digit : q % b + 1 ≤ b = mod_below q b hb in
    let below : (q % b + 1) * p ≤ b * p = mul-le-mul_right p digit in
    let fits : rest < b * p = grind (arith, below, small) in
    let whole : u ≡ b * p * (q / b) + rest =
      parts (u / p) (q / b) (q % b) (sym (div-add-mod' u p)) (sym (div-add-mod' q b)) in
    ap (λ x. x % (b * p)) whole ∙ (mul-add-mod_self_left (b * p) (q / b) rest ∙ mod-eq_of_lt fits)
  where
    mod_below : (q b : ℕ) → 0 < b → q % b + 1 ≤ b
    mod_below q b h = omega (arith, mod-lt q h)

    parts : (q h d : ℕ) → u ≡ q * p + u % p → q ≡ h * b + d → u ≡ b * p * h + (d * p + u % p)
    parts q h d e f = e ∙ (ap (λ x. x * p + u % p) f ∙ grind arith)
