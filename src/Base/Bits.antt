-- ===== src/Base/Bits.antt =====
-- `|` of a field into a word whose bits there are clear is a sum, and `&` with ones a remainder.
mod Digit
use Prim.Native.Nat.{ℕ, zero, suc, ◌+◌, ◌-◌, ◌*◌, ◌/◌, ◌%◌, ◌^◌, ◌<◌, bit_or, bit_and}
use mathlib.Core.Path.{◌≡◌, sym, ap, ◌∙◌, subst}
use native.Mathlib.Nat.{pow-suc, one-le-pow, div-add-mod', mod-lt, pow-succ', div-div-eq-div-mul}
use native.Mathlib.Omega.{arith}
use Digit.{or_digit, and_digit, or-zero, and-zero}

-- A power of two taken out of a product.
double : (q k : ℕ) → q * 2 ^ suc k ≡ 2 * (q * 2 ^ k)
double q k = omega (arith, ap (λ (t : ℕ). q * t) (pow-suc 2 k))

-- A field below clear bits.
or-low : (m q v : ℕ) → v < 2 ^ m → bit_or (q * 2 ^ m) v ≡ q * 2 ^ m + v
or-low zero q v h = ground (arith, or-zero q)
or-low (suc m) q v h =
    ground (
      arith,
      or_digit (q * 2 ^ suc m) v,
      double q m,
      or-low m q (v / 2) (omega (arith, pow-suc 2 m)),
    )

-- Bits below the field stay as they are.
or-shift : (o a r b : ℕ) → r < 2 ^ o → bit_or (a * 2 ^ o + r) (b * 2 ^ o) ≡ bit_or a b * 2 ^ o + r
or-shift zero a r b h = ground arith
or-shift (suc o) a r b h = ground (
  arith,
  or_digit (a * 2 ^ suc o + r) (b * 2 ^ suc o),
  double a o,
  double b o,
  double (bit_or a b) o,
  or-shift o a (r / 2) b (omega (arith, pow-suc 2 o)),
)

module _ (o m hi lo v : ℕ) (small : lo < 2 ^ o) (fits : v < 2 ^ m) where
  or-parts : bit_or (hi * 2 ^ m * 2 ^ o + lo) (v * 2 ^ o) ≡ hi * 2 ^ m * 2 ^ o + lo + v * 2 ^ o
  or-parts = rw (or-shift o (hi * 2 ^ m) lo v small, or-low m hi v fits) (grind arith)

-- A value of `m` bits put at offset `o`, where the word has none of these bits.
pub or-field :
    (o m w v : ℕ) → v < 2 ^ m → w / 2 ^ o % 2 ^ m ≡ 0 → bit_or w (v * 2 ^ o) ≡ w + v * 2 ^ o
or-field o m w v fits clear =
    let small : w % 2 ^ o < 2 ^ o = mod-lt w (one-le-pow o 2 (omega arith)) in
    let hi = w / 2 ^ o / 2 ^ m in
    let top : hi * 2 ^ m ≡ w / 2 ^ o = omega (arith, div-add-mod' (w / 2 ^ o) (2 ^ m)) in
    let whole : hi * 2 ^ m * 2 ^ o + w % 2 ^ o ≡ w =
      ap (λ t. t * 2 ^ o + w % 2 ^ o) top ∙ div-add-mod' w (2 ^ o) in
    subst (λ x. bit_or x (v * 2 ^ o) ≡ x + v * 2 ^ o) whole
      (or-parts o m hi (w % 2 ^ o) v small fits)

and-parts : (k q r : ℕ) → r < 2 ^ k → bit_and (q * 2 ^ k + r) (2 ^ k - 1) ≡ r
and-parts zero q r h = ground (arith, and-zero (q * 1 + r))
and-parts (suc k) q r h = ground (
  arith,
  and_digit (q * 2 ^ suc k + r) (2 ^ suc k - 1),
  double q k,
  pow-suc 2 k,
  one-le-pow k 2,
  and-parts k q (r / 2) (omega (arith, pow-suc 2 k)),
)

-- A mask of `k` ones.
pub and-mask : (k a : ℕ) → bit_and a (2 ^ k - 1) ≡ a % 2 ^ k
and-mask k a =
    let small : a % 2 ^ k < 2 ^ k = mod-lt a (one-le-pow k 2 (omega arith)) in
    subst (λ x. bit_and x (2 ^ k - 1) ≡ a % 2 ^ k) (div-add-mod' a (2 ^ k))
      (and-parts k (a / 2 ^ k) (a % 2 ^ k) small)

and_even : (x k : ℕ) → bit_and x (2 * k) ≡ bit_and (x / 2) k * 2
and_even x k =
    let half : 2 * k / 2 ≡ k = omega arith in
    let even : 2 * k % 2 ≡ 0 = omega arith in and_digit x (2 * k) ∙ rw (half, even) (omega arith)

-- One bit.
pub and-power : (n x : ℕ) → bit_and x (2 ^ n) ≡ x / 2 ^ n % 2 * 2 ^ n
and-power zero x = and-mask 1 x ∙ omega arith
and-power (suc n) x =
    let p = 2 ^ n in
    let halved : x / (2 * p) ≡ x / 2 / p = sym (div-div-eq-div-mul x 2 p) in
    rw (pow-succ' 2 n, halved)
      (and_even x p ∙ (ap (λ t. t * 2) (and-power n (x / 2)) ∙ grind arith))
