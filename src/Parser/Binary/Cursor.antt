-- ===== src/Parser/Binary/Cursor.antt =====
-- Bytes at a place of the text that `readBinary` makes.
use tiny_wasm.Base.{
  ℕ, zero, suc, ◌+◌, ◌*◌, ◌/◌, ◌%◌, ◌^◌, ◌≤◌, ◌<◌, ◌≡◌, refl, sym, ap, subst, ◌∙◌, false, List, [],
  ◌∷◌, ◌++◌, length, length-drop, take, drop, take-append, drop-append, arith, ltb,
}
use tiny_wasm.Base.Result.{ok, ◌>>=◌}
use tiny_wasm.Base.Text.{substr, substr_from}
use tiny_wasm.Utils.Parse.{stoul16, hex_value, take_digit}
use tiny_wasm.Utils.Lower.{lower_char, lower_pad, read_binary}
use tiny_wasm.Utils.Lower.RoundTrip.{AreBytes, hex_char_to_int-lower_char, length-read_binary}
use tiny_wasm.Parser.{byte_at}

stoul16-lower_pad : (b : ℕ) → b < 256 → stoul16 (lower_pad 2 b) ≡ ok b
unfolding stoul16 hex_value lower_pad
stoul16-lower_pad b h =
    let low = hex_char_to_int-lower_char (b / 16 ^ 0 % 16) (omega arith) in
    ap (λ r. r >>= λ d. ok (hex_value d (lower_char (b / 16 ^ 0 % 16) ∷ [])))
      (hex_char_to_int-lower_char (b / 16 ^ 1 % 16) (omega arith))
    ∙ (ap (λ r. ok (take_digit (b / 16 ^ 1 % 16) r (λ a. a))) low ∙ ap ok (omega arith))

drop-nil : (k : ℕ) → drop {A = ℕ} k [] ≡ []
drop-nil zero = refl
drop-nil (suc k) = refl

take-nil : (k : ℕ) → take {A = ℕ} k [] ≡ []
take-nil zero = refl
take-nil (suc k) = refl

drop-read_binary : (k : ℕ) (bs : List ℕ) → drop (2 * k) (read_binary bs) ≡ read_binary (drop k bs)
unfolding read_binary lower_pad
drop-read_binary zero bs = refl
drop-read_binary (suc k) [] = drop-nil (2 * suc k)
drop-read_binary (suc k) (b ∷ bs) =
    let two : 2 * suc k ≡ suc (suc (2 * k)) = omega arith in
    ap (λ n. drop n (read_binary (b ∷ bs))) two ∙ drop-read_binary k bs

take-read_binary : (k : ℕ) (bs : List ℕ) → take (2 * k) (read_binary bs) ≡ read_binary (take k bs)
unfolding read_binary lower_pad
take-read_binary zero bs = refl
take-read_binary (suc k) [] = take-nil (2 * suc k)
take-read_binary (suc k) (b ∷ bs) =
    let two : 2 * suc k ≡ suc (suc (2 * k)) = omega arith in
    ap (λ n. take n (read_binary (b ∷ bs))) two
    ∙ ap (λ t. lower_char (b / 16 ^ 1 % 16) ∷ lower_char (b / 16 ^ 0 % 16) ∷ t)
        (take-read_binary k bs)

drop-drop : (k n : ℕ) (bs : List ℕ) → drop (k + n) bs ≡ drop n (drop k bs)
drop-drop zero n bs = let same : 0 + n ≡ n = omega arith in ap (λ i. drop i bs) same
drop-drop (suc k) n [] = drop-nil (suc k + n) ∙ sym (drop-nil n)
drop-drop (suc k) n (b ∷ bs) =
    let same : suc k + n ≡ suc (k + n) = omega arith in
    ap (λ i. drop i (b ∷ bs)) same ∙ drop-drop k n bs

abbrev first : List ℕ → ℕ
first [] = 0
first (b ∷ bs) = b

byte-lt : (bs : List ℕ) (k b : ℕ) (ys : List ℕ) → AreBytes bs → drop k bs ≡ b ∷ ys → b < 256
byte-lt [] k b ys h e = absurd (omega (arith, ap length (sym (drop-nil k) ∙ e)))
byte-lt (c ∷ bs) zero b ys (small, h) e = subst (λ x. x < 256) (ap first e) small
byte-lt (c ∷ bs) (suc k) b ys (small, h) e = byte-lt bs k b ys h e

-- The bytes `ys` stand from place `k` on.
abbrev pub At : List ℕ → ℕ → List ℕ → Type 0
At bs k ys = drop k bs ≡ ys

module _ (bs : List ℕ) where
  pub At-next : (k b : ℕ) (ys : List ℕ) → At bs k (b ∷ ys) → At bs (k + 1) ys
  At-next k b ys h = drop-drop k 1 bs ∙ ap (drop 1) h

  pub At-behind : (k : ℕ) (xs ys : List ℕ) → At bs k (xs ++ ys) → At bs (k + length xs) ys
  At-behind k xs ys h =
      drop-drop k (length xs) bs ∙ (ap (drop (length xs)) h ∙ drop-append (length xs) xs ys refl)

  pub At-inside : (k b : ℕ) (ys : List ℕ) → At bs k (b ∷ ys) → k < length bs
  At-inside k b ys h = omega (arith, length-drop k bs, ap length h)

  pub At-AreBytes : (k : ℕ) (xs ys : List ℕ) → AreBytes bs → At bs k (xs ++ ys) → AreBytes xs
  At-AreBytes k [] ys small h = tt
  At-AreBytes k (x ∷ xs) ys small h = (
    byte-lt bs k x (xs ++ ys) small h,
    At-AreBytes (k + 1) xs ys small (At-next k x (xs ++ ys) h),
  )

  pub substr-At :
      (k : ℕ) (xs ys : List ℕ)
      → k ≤ length bs
      → At bs k (xs ++ ys)
      → substr (read_binary bs) (2 * k) (2 * length xs) ≡ ok (read_binary xs)
  substr-At k xs ys inside h =
      let past : ltb (length (read_binary bs)) (2 * k) ≡ false =
        ground (arith, length-read_binary bs) in
      rw past (
        ap ok (
          ap (take (2 * length xs)) (drop-read_binary k bs ∙ ap read_binary h)
          ∙ (take-read_binary (length xs) (xs ++ ys)
              ∙ ap read_binary (take-append (length xs) xs ys refl))))

  pub substr-At_byte :
      (k b : ℕ) (ys : List ℕ)
      → At bs k (b ∷ ys)
      → substr (read_binary bs) (2 * k) 2 ≡ ok (lower_pad 2 b)
  unfolding read_binary lower_pad
  substr-At_byte k b ys h =
      let inside = At-inside k b ys h in substr-At k (b ∷ []) ys (omega arith) h

  pub byte_at-At :
      (k b : ℕ) (ys : List ℕ)
      → AreBytes bs
      → At bs k (b ∷ ys)
      → byte_at (read_binary bs) (2 * k) ≡ ok b
  byte_at-At k b ys small h =
      ap (λ r. r >>= stoul16) (substr-At_byte k b ys h)
      ∙ stoul16-lower_pad b (byte-lt bs k b ys small h)

  pub substr_from-At :
      (k : ℕ) (ys : List ℕ)
      → k ≤ length bs
      → At bs k ys
      → substr_from (read_binary bs) (2 * k) ≡ ok (read_binary ys)
  substr_from-At k ys inside h =
      let past : ltb (length (read_binary bs)) (2 * k) ≡ false =
        ground (arith, length-read_binary bs) in
      rw past (ap ok (drop-read_binary k bs ∙ ap read_binary h))
