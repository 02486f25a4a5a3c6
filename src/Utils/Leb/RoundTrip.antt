-- ===== src/Utils/Leb/RoundTrip.antt =====
-- What the decoders of LEB128 give.
use native.Mathlib.Nat.{
  mul-le-mul, mul-le-mul_right, pow-le-pow_right, mod-eq_of_lt, div-eq_of_lt, pow-succ',
}
use tiny_wasm.Base.{
  ℕ, zero, suc, ◌+◌, ◌-◌, ◌*◌, ◌/◌, ◌^◌, ◌%◌, ◌<◌, ◌≤◌, ◌≡◌, refl, ap, ◌∙◌, List, [], ◌∷◌, bit_or,
  bit_and, ltb, leb, lt→ltb, leb-false, Bool, true, false, if◌then◌else◌, arith,
}
use tiny_wasm.Base.Bits.{or-field, and-mask, and-power}
use tiny_wasm.Base.Result.{ok}
use tiny_wasm.Base.Powers.{power_add}
use tiny_wasm.Utils.Leb.{shifted_group, mask_of, continues, unsigned_groups, decode_uleb128}

-- LEB128 of a number of at most `n` groups of seven bits.
abbrev pub encode_uleb128 : ℕ → ℕ → List ℕ
encode_uleb128 zero v = []
encode_uleb128 (suc n) v =
    let rest = encode_uleb128 n (v / 128) in if ltb v 128 then v ∷ [] else (v % 128 + 128) ∷ rest

group : (x shift : ℕ) → shift ≤ 21 → x < 256 → shifted_group x shift ≡ ok (x % 128 * 2 ^ shift)
unfolding shifted_group
group x shift h hx =
    let small : 2 ^ shift ≤ 2 ^ 21 = pow-le-pow_right (omega arith) h in
    let low : bit_and x 127 ≡ x % 128 = and-mask 7 x in
    let bound : x % 128 * 2 ^ shift ≤ 127 * 2 ^ 21 = mul-le-mul {n₂ = 127} (omega arith) small in
    rw low (ground arith)

continues-ge : (x : ℕ) → 128 ≤ x → x < 256 → continues x ≡ true
continues-ge x h hx = rw (and-power 7 x) (ground arith)

pub continues-lt : (x : ℕ) → x < 128 → continues x ≡ false
continues-lt x h = rw (and-power 7 x) (ground arith)

-- A group is put behind the bits of the result.
placed :
    (result v shift : ℕ)
    → result < 2 ^ shift
    → v < 128
    → bit_or result (v * 2 ^ shift) ≡ result + v * 2 ^ shift
placed result v shift hr hv =
    let clear : result / 2 ^ shift ≡ 0 = div-eq_of_lt hr in
    or-field shift 7 result v hv (ap (λ q. q % 2 ^ 7) clear)

last_group :
    (v result shift : ℕ)
    → v < 128
    → shift ≤ 21
    → result < 2 ^ shift
    → unsigned_groups (v ∷ []) result shift ≡ ok (result + v * 2 ^ shift)
unfolding unsigned_groups
last_group v result shift hv hs hr =
    rw (group v shift hs (omega arith), continues-lt v hv, mod-eq_of_lt hv)
      (ap ok (placed result v shift hr hv))

first_group :
    (v : ℕ) (rest : List ℕ) (result shift : ℕ)
    → shift ≤ 21
    → result < 2 ^ shift
    → unsigned_groups ((v % 128 + 128) ∷ rest) result shift
      ≡ unsigned_groups rest (result + v % 128 * 2 ^ shift) (shift + 7)
unfolding unsigned_groups
first_group v rest result shift hs hr =
    let low : (v % 128 + 128) % 128 ≡ v % 128 = omega arith in
    rw
      (
        group (v % 128 + 128) shift hs (omega arith),
        continues-ge (v % 128 + 128) (omega arith) (omega arith),
        low,
        placed result (v % 128) shift hr (omega arith),
      )
      refl

joined :
    (result p n q r v : ℕ) → n ≡ 128 * p → v ≡ 128 * q + r → result + r * p + q * n ≡ result + v * p
joined result p n q r v e f = rw (e, f) (grind arith)

-- The loop from the group at `shift` on, below which the result has its bits.
unsigned_groups-encode_uleb128 :
    (n v result shift : ℕ)
    → v < 128 ^ suc n
    → shift + 7 * n ≤ 21
    → result < 2 ^ shift
    → unsigned_groups (encode_uleb128 (suc n) v) result shift ≡ ok (result + v * 2 ^ shift)
unsigned_groups-encode_uleb128 zero v result shift hv hs hr =
    rw (lt→ltb v 128 (omega arith)) (last_group v result shift (omega arith) (omega arith) hr)
unsigned_groups-encode_uleb128 (suc n) v result shift hv hs hr =
    let p = 2 ^ shift in
    let next : 2 ^ (shift + 7) ≡ 128 * p = power_add shift 7 ∙ omega arith in
    let size = pow-succ' 128 (suc n) in
    let fits : v / 128 < 128 ^ suc n = omega arith in
    let bound : v % 128 ≤ 127 = omega arith in
    let small : result + v % 128 * p < 2 ^ (shift + 7) = omega (arith, mul-le-mul_right p bound) in
    let more =
      unsigned_groups-encode_uleb128 n (v / 128) (result + v % 128 * p) (shift + 7) fits
        (omega arith) small in
    one_of (leb 128 v) refl more
  where
    one_of :
        (t : Bool)
        → leb 128 v ≡ t
        → unsigned_groups
            (encode_uleb128 (suc n) (v / 128))
            (result + v % 128 * 2 ^ shift)
            (shift + 7)
          ≡ ok (result + v % 128 * 2 ^ shift + v / 128 * 2 ^ (shift + 7))
        → unsigned_groups (encode_uleb128 (suc (suc n)) v) result shift
          ≡ ok (result + v * 2 ^ shift)
    one_of false e more =
        rw (lt→ltb v 128 (ground arith)) (last_group v result shift (ground arith) (omega arith) hr)
    one_of true e more =
        let big : ltb v 128 ≡ false = ground arith in
        rw big (
          first_group v (encode_uleb128 (suc n) (v / 128)) result shift (omega arith) hr
          ∙ (more
              ∙ ap ok (
                  joined result (2 ^ shift) (2 ^ (shift + 7)) (v / 128) (v % 128) v
                    (power_add shift 7 ∙ omega arith) (omega arith))))

-- A number of at most 28 bits that fits in `bits` bits, with `bits` below 64, is decoded from its LEB128.
pub decode_uleb128-encode_uleb128 :
    (v bits : ℕ)
    → v < 2 ^ 28
    → v < 2 ^ bits
    → bits < 64
    → decode_uleb128 (encode_uleb128 4 v) bits ≡ ok v
unfolding decode_uleb128 mask_of
decode_uleb128-encode_uleb128 v bits hv hb h =
    let loop = unsigned_groups-encode_uleb128 3 v 0 0 (omega arith) (omega arith) (omega arith) in
    let low = and-mask bits v ∙ mod-eq_of_lt hb in
    rw (loop, leb-false 64 bits h) (ap ok (ap (λ r. bit_and r (2 ^ bits - 1)) (omega arith) ∙ low))
