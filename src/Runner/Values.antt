-- ===== src/Runner/Values.antt =====
-- The values of a command.
use tiny_wasm.Base.{
  ℕ, zero, suc, ◌+◌, ◌-◌, ◌*◌, ◌/◌, ◌%◌, ◌^◌, ◌<◌, ◌≡◌, refl, ap, ◌∙◌, Bool, true, false, [], ◌∷◌,
  ◌++◌, ltb, if◌then◌else◌, arith, length, length-append, take, take-append, lt→ltb,
}
use tiny_wasm.Base.Decimal.{digits, to_string}
use tiny_wasm.Base.Int.{signed}
use tiny_wasm.Base.Result.{ok}
use tiny_wasm.Base.Text.{Text, text}
use tiny_wasm.Wasm.Types.{WasmValue, int32, int64}
use tiny_wasm.Runner.{is_digit, decimal_value, stoul10, unquote, set_param}

AreDigits : Text → Type 0
AreDigits [] = Unit
AreDigits (c ∷ s) = (is_digit c ≡ true) × AreDigits s

AreDigits-append : (s : Text) (d : ℕ) → d < 10 → AreDigits s → AreDigits (s ++ (b'0' + d) ∷ [])
unfolding AreDigits
AreDigits-append [] d h all = (ground arith, tt)
AreDigits-append (c ∷ s) d h (one, all) = (one, AreDigits-append s d h all)

decimal_value-append :
    (s : Text) (acc d : ℕ)
    → d < 10
    → AreDigits s
    → decimal_value acc (s ++ (b'0' + d) ∷ []) ≡ decimal_value acc s * 10 + d
unfolding decimal_value AreDigits
decimal_value-append [] acc d h all = ground arith
decimal_value-append (c ∷ s) acc d h (one, all) =
    rw one (decimal_value-append s (acc * 10 + (c - b'0')) d h all)

-- What is said of the text of a number.
Writes : Text → ℕ → Type 0
Writes s n = AreDigits s × (decimal_value 0 s ≡ n)

one_digit : (n : ℕ) → n < 10 → Writes ((b'0' + n) ∷ []) n
unfolding decimal_value AreDigits Writes
one_digit n h = ((ground arith, tt), ground arith)

more_digits : (s : Text) (n : ℕ) → Writes s (n / 10) → Writes (s ++ (b'0' + n % 10) ∷ []) n
unfolding Writes
more_digits s n (all, e) = (
  AreDigits-append s (n % 10) (omega arith) all,
  decimal_value-append s 0 (n % 10) (omega arith) all ∙ (ap (λ v. v * 10 + n % 10) e ∙ omega arith),
)

-- The digits of a number, with enough fuel.
digits-Writes : (fuel n : ℕ) → n < fuel → Writes (digits fuel n) n
unfolding digits
digits-Writes zero n h = absurd (omega arith)
digits-Writes (suc fuel) n h = size (ltb n 10) refl (digits-Writes fuel (n / 10))
  where
    size :
        (t : Bool)
        → ltb n 10 ≡ t
        → (n / 10 < fuel → Writes (digits fuel (n / 10)) (n / 10))
        → Writes (if t then (b'0' + n) ∷ [] else digits fuel (n / 10) ++ (b'0' + n % 10) ∷ []) n
    size true e rest = one_digit n (ground arith)
    size false e rest = more_digits (digits fuel (n / 10)) n (rest (ground arith))

stoul10-Writes : (s : Text) (n : ℕ) → 0 < length s → n < 2 ^ 64 → Writes s n → stoul10 s ≡ ok n
unfolding stoul10 Writes AreDigits
stoul10-Writes [] n p h w = absurd (omega arith)
stoul10-Writes (c ∷ s) n p h ((one, all), e) = rw (one, e, lt→ltb n (2 ^ 64) h) refl

length-digits : (fuel n : ℕ) → 0 < fuel → 0 < length (digits fuel n)
unfolding digits
length-digits zero n h = absurd (omega arith)
length-digits (suc fuel) n h =
    size (ltb n 10) (length-append (digits fuel (n / 10)) ((b'0' + n % 10) ∷ []))
  where
    size :
        (t : Bool)
        → length (digits fuel (n / 10) ++ (b'0' + n % 10) ∷ []) ≡ length (digits fuel (n / 10)) + 1
        → 0 < length (if t then (b'0' + n) ∷ [] else digits fuel (n / 10) ++ (b'0' + n % 10) ∷ [])
    size true e = omega arith
    size false e = omega arith

stoul10-to_string : (n : ℕ) → n < 2 ^ 64 → stoul10 (to_string n) ≡ ok n
unfolding to_string
stoul10-to_string n h =
    stoul10-Writes (digits (suc n) n) n (length-digits (suc n) n (omega arith)) h
      (digits-Writes (suc n) n (omega arith))

-- A text between quotes.
abbrev pub quoted : Text → Text
quoted s = b'"' ∷ (s ++ b'"' ∷ [])

unquote-quoted : (s : Text) → unquote (quoted s) ≡ ok s
unquote-quoted s =
    let size = length-append s (b'"' ∷ []) in
    let inside : ltb (length (quoted s)) 1 ≡ false = ground arith in
    rw inside (
      ap ok (
        ap (λ n. take n (s ++ b'"' ∷ [])) (omega arith)
        ∙ take-append (length s) s (b'"' ∷ []) refl))

-- A parameter is set from the decimal text of a number, in quotes: of an i32 below 2 ^ 32, or of an i64
-- below 2 ^ 64, it becomes the signed integer with the bits of the number, whatever it was before.
pub set_param-to_string :
    (v : WasmValue)
    → ((n : ℕ)
        → n < 2 ^ 32
        → set_param (text "i32") (quoted (to_string n)) v ≡ ok (int32 (signed 32 n)))
      × ((n : ℕ)
          → n < 2 ^ 64
          → set_param (text "i64") (quoted (to_string n)) v ≡ ok (int64 (signed 64 n)))
unfolding set_param
set_param-to_string v = (
  (λ n h.
      rw (unquote-quoted (to_string n), stoul10-to_string n (omega arith))
        (ap (λ m. ok (int32 (signed 32 m))) (omega arith))),
  (λ n h. rw (unquote-quoted (to_string n), stoul10-to_string n h) refl),
)
