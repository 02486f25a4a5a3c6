-- ===== src/Utils/Binary/Digits.antt =====
-- Texts of bits, and the numbers that they stand for.
use mathlib.Core.List.{append_assoc, append-nil}
use native.Mathlib.Nat.{pow-succ', div-div-eq-div-mul, one-le-pow}
use tiny_wasm.Base.{
  ℕ, zero, suc, ◌+◌, ◌-◌, ◌*◌, ◌/◌, ◌%◌, ◌^◌, ◌≤◌, ◌<◌, ◌≡◌, refl, ap, sym, ◌∙◌, [], ◌∷◌, ◌++◌,
  length, take, drop, lt→ltb, le→leb, some, arith,
}
use tiny_wasm.Base.Powers.{power_add, mod_split}
use tiny_wasm.Base.Result.{ok}
use tiny_wasm.Base.Text.{Text}
use tiny_wasm.Utils.Hex.{hex_char, hex_pad}
use tiny_wasm.Utils.Binary.{
  nibbles, nibble_in, or_bad_input, hex_to_binary_from, hex_to_binary, bitset_from, get_bits,
  bits_below, to_binary_string, format_from, format_binary_string,
}

-- The lowest `n` bits of a number, the highest first.
abbrev pub binary : ℕ → ℕ → Text
binary zero v = []
binary (suc n) v = (b'0' + v / 2 ^ n % 2) ∷ binary n v

nibble : (n : ℕ) → n < 16 → nibble_in nibbles (hex_char n) ≡ some (binary 4 n)
unfolding nibble_in hex_char
nibble n h = ground arith

shifted : (w s k : ℕ) → w / 2 ^ (k + s) ≡ w / 2 ^ s / 2 ^ k
shifted w s k =
    ap (λ m. w / m) (ap (λ n. 2 ^ n) (omega arith) ∙ power_add s k)
    ∙ sym (div-div-eq-div-mul w (2 ^ s) (2 ^ k))

drop-binary : (j n m w : ℕ) → n ≡ j + m → drop j (binary n w) ≡ binary m w
drop-binary zero n m w e = ap (λ i. binary i w) (omega arith)
drop-binary (suc j) zero m w e = absurd (omega arith)
drop-binary (suc j) (suc n) m w e = drop-binary j n m w (omega arith)

take-binary : (k n s w : ℕ) → n ≡ k + s → take k (binary n w) ≡ binary k (w / 2 ^ s)
take-binary zero n s w e = refl
take-binary (suc k) zero s w e = absurd (omega arith)
take-binary (suc k) (suc n) s w e =
    let here : w / 2 ^ n ≡ w / 2 ^ s / 2 ^ k = ap (λ i. w / 2 ^ i) (omega arith) ∙ shifted w s k in
    rw (here, take-binary k n s w (omega arith)) refl

-- One more bit.
next_bit : (k u : ℕ) → u % 2 ^ suc k ≡ u / 2 ^ k % 2 * 2 ^ k + u % 2 ^ k
next_bit k u =
    ap (λ m. u % m) (pow-succ' 2 k)
    ∙ mod_split 2 (2 ^ k) u (omega arith) (one-le-pow k 2 (omega arith))

bitset_from-binary : (k v u : ℕ) → bitset_from v (binary k u) ≡ ok (v * 2 ^ k + u % 2 ^ k)
unfolding bitset_from
bitset_from-binary zero v u = ap ok (omega arith)
bitset_from-binary (suc k) v u =
    one_bit (u / 2 ^ k % 2) refl (bitset_from-binary k (v * 2) u)
      (bitset_from-binary k (v * 2 + 1) u)
  where
    odd : (p q r m : ℕ) → q ≡ 2 * p → m ≡ 1 * p + r → (v * 2 + 1) * p + r ≡ v * q + m
    odd p q r m e f = rw (e, f) (grind arith)

    one_bit :
        (d : ℕ)
        → u / 2 ^ k % 2 ≡ d
        → bitset_from (v * 2) (binary k u) ≡ ok (v * 2 * 2 ^ k + u % 2 ^ k)
        → bitset_from (v * 2 + 1) (binary k u) ≡ ok ((v * 2 + 1) * 2 ^ k + u % 2 ^ k)
        → bitset_from v (binary (suc k) u) ≡ ok (v * 2 ^ suc k + u % 2 ^ suc k)
    one_bit zero e low high = rw e (low ∙ ap ok (grind (arith, next_bit k u, pow-succ' 2 k, e)))
    one_bit (suc zero) e low high = rw e (
        high
        ∙ ap ok (
            odd (2 ^ k) (2 ^ suc k) (u % 2 ^ k) (u % 2 ^ suc k) (pow-succ' 2 k)
              (next_bit k u ∙ ap (λ b. b * 2 ^ k + u % 2 ^ k) e)))
    one_bit (suc (suc d)) e low high = absurd (omega arith)

length-binary : (n w : ℕ) → length (binary n w) ≡ n
length-binary zero w = refl
length-binary (suc n) w = ap suc (length-binary n w)

take_short : (n k w : ℕ) → k ≤ n → take n (binary k w) ≡ binary k w
take_short zero zero w h = refl
take_short zero (suc k) w h = absurd (omega arith)
take_short (suc n) zero w h = refl
take_short (suc n) (suc k) w h =
    ap (λ t. (b'0' + w / 2 ^ k % 2) ∷ t) (take_short n k w (omega arith))

-- Of a text of the bits of a number, with at most 32 of them asked for and all of them in the text,
-- `GetBits` gives the number that these bits are.
pub get_bits-binary :
    (n w start end : ℕ)
    → end < n
    → start ≤ end
    → end - start < 32
    → get_bits (binary n w) start end ≡ ok (w / 2 ^ start % 2 ^ (end - start + 1))
unfolding get_bits
get_bits-binary n w start end inside order few =
    let k = end - start + 1 in
    let size = length-binary n w in
    let dropped : drop (n - end - 1) (binary n w) ≡ binary (end + 1) w =
      drop-binary (n - end - 1) n (end + 1) w (omega arith) in
    let taken = take-binary k (end + 1) start w (omega arith) in
    let short = take_short 32 k (w / 2 ^ start) (omega arith) in
    rw (size, lt→ltb end n inside, le→leb start end order, dropped, taken, short)
      (bitset_from-binary k 0 (w / 2 ^ start) ∙ ap ok (omega arith))

-- Four times a number.
abbrev pub four_times : ℕ → ℕ
four_times zero = zero
four_times (suc n) = suc (suc (suc (suc (four_times n))))

power_sixteen : (n : ℕ) → 16 ^ n ≡ 2 ^ four_times n
power_sixteen zero = refl
power_sixteen (suc n) =
    let m = four_times n in
    omega (
      arith,
      power_sixteen n,
      pow-succ' 16 n,
      pow-succ' 2 m,
      pow-succ' 2 (suc m),
      pow-succ' 2 (suc (suc m)),
      pow-succ' 2 (suc (suc (suc m))),
    )

nibble-binary :
    (n w : ℕ)
    → binary 4 (w / 16 ^ n % 16) ++ (binary (four_times n) w) ≡ binary (four_times (suc n)) w
nibble-binary n w =
    let m = four_times n in
    let p : w / 16 ^ n ≡ w / 2 ^ m = ap (λ q. w / q) (power_sixteen n) in
    let one : w / 2 ^ suc m ≡ w / 2 ^ m / 2 = ap (λ i. w / 2 ^ i) (omega arith) ∙ shifted w m 1 in
    let two : w / 2 ^ suc (suc m) ≡ w / 2 ^ m / 4 =
      ap (λ i. w / 2 ^ i) (omega arith) ∙ shifted w m 2 in
    let three : w / 2 ^ suc (suc (suc m)) ≡ w / 2 ^ m / 8 =
      ap (λ i. w / 2 ^ i) (omega arith) ∙ shifted w m 3 in
    rw (p, one, two, three) (digits (w / 2 ^ m) (binary m w))
  where
    digits :
        (x : ℕ) (t : Text)
        → binary 4 (x % 16) ++ t
          ≡ (b'0' + x / 8 % 2) ∷ (b'0' + x / 4 % 2) ∷ (b'0' + x / 2 % 2) ∷ (b'0' + x % 2) ∷ t
    digits x t =
        let a : x % 16 / 8 % 2 ≡ x / 8 % 2 = omega arith in
        let b : x % 16 / 4 % 2 ≡ x / 4 % 2 = omega arith in
        let c : x % 16 / 2 % 2 ≡ x / 2 % 2 = omega arith in
        let d : x % 16 / 1 % 2 ≡ x % 2 = omega arith in rw (a, b, c, d) refl

hex_to_binary_from-hex_pad :
    (n w : ℕ) (result : Text)
    → hex_to_binary_from result (hex_pad n w) ≡ result ++ binary (four_times n) w
unfolding hex_to_binary_from hex_pad
hex_to_binary_from-hex_pad zero w result = sym (append-nil result)
hex_to_binary_from-hex_pad (suc n) w result =
    let bits = binary 4 (w / 16 ^ n % 16) in
    ap (λ o. or_bad_input o (λ b. hex_to_binary_from (result ++ b) (hex_pad n w)))
      (nibble (w / 16 ^ n % 16) (omega arith))
    ∙ (hex_to_binary_from-hex_pad n w (result ++ bits)
        ∙ (append_assoc result bits (binary (four_times n) w)
            ∙ ap (λ t. result ++ t) (nibble-binary n w)))

-- `HexToBinary` of a number written in `n` hexadecimal digits is its lowest four times `n` bits.
pub hex_to_binary-hex_pad : (n w : ℕ) → hex_to_binary (hex_pad n w) ≡ binary (four_times n) w
hex_to_binary-hex_pad n w = hex_to_binary_from-hex_pad n w []

-- For every word, `toBinaryString` prints what `formatBinaryString` makes of the bits that
-- `HexToBinary` reads from the digits of the word.
pub to_binary_string-format_binary_string :
    (w : ℕ) → to_binary_string w ≡ format_binary_string (hex_to_binary (hex_pad 8 w))
unfolding bits_below format_from
to_binary_string-format_binary_string w = rw (hex_to_binary-hex_pad 8 w) refl
