-- ===== src/Opcode/Fields.antt =====
-- What `set_field` does to a word whose bits in the field are clear, and the text of a word.
use native.Mathlib.Nat.{mod-eq_of_lt, one-le-pow}
use tiny_wasm.Base.{
  ℕ, ◌+◌, ◌-◌, ◌*◌, ◌/◌, ◌%◌, ◌^◌, ◌≤◌, ◌<◌, ◌≡◌, refl, ap, subst, ◌∙◌, Bool, arith, ltb-false,
  false, true, if◌then◌else◌,
}
use tiny_wasm.Base.Int.{ℤ, pos, low_bits, exceeds}
use tiny_wasm.Base.Bits.{or-field, and-mask}
use tiny_wasm.Base.Result.{Result, ok, ◌>>=◌}
use tiny_wasm.Base.Text.{Text}
use tiny_wasm.Utils.Hex.{hex_pad, to_hex_string, bswap32}
use tiny_wasm.Opcode.Base.{Arm64Opcode, opcode_at, set_field, common_encode}

-- The field that `set_field` puts in, as a remainder.
abbrev pub field_of : ℤ → ℕ → ℕ
field_of val l = low_bits val 64 % 2 ^ l

-- A value that is not above the limit, at a place where the word is clear.
set_field-clear :
    (val : ℤ) (o l m : ℕ) (e : Bool) (w : ℕ)
    → exceeds val (2 ^ l - 1) ≡ false
    → field_of val l < 2 ^ m
    → w / 2 ^ o % 2 ^ m ≡ 0
    → w + field_of val l * 2 ^ o < 2 ^ 32
    → set_field val o l (opcode_at e w) ≡ ok (opcode_at e (w + field_of val l * 2 ^ o))
unfolding set_field
set_field-clear val o l m e w within fits clear room =
    rw (within, and-mask l (low_bits val 64), or-field o m w (field_of val l) fits clear)
      (ap (λ t. ok (opcode_at e t)) (mod-eq_of_lt room))

field_of-pos : (v l : ℕ) → v ≤ 2 ^ l - 1 → v < 2 ^ 32 → field_of (pos v) l ≡ v
field_of-pos v l limit small =
    let top : 1 ≤ 2 ^ l = one-le-pow l 2 (omega arith) in
    let low : v % 2 ^ 64 ≡ v = omega arith in ap (λ t. t % 2 ^ l) low ∙ mod-eq_of_lt (omega arith)

-- A value of `m` bits, with `m` at most the length of the field.
pub set_field-pos :
    (v o l m : ℕ) (e : Bool) (w : ℕ)
    → v < 2 ^ m
    → v ≤ 2 ^ l - 1
    → v < 2 ^ 32
    → w / 2 ^ o % 2 ^ m ≡ 0
    → w + v * 2 ^ o < 2 ^ 32
    → set_field (pos v) o l (opcode_at e w) ≡ ok (opcode_at e (w + v * 2 ^ o))
set_field-pos v o l m e w fits limit small clear room =
    let p = field_of-pos v l limit small in
    subst
      (λ x.
        x < 2 ^ m
        → w + x * 2 ^ o < 2 ^ 32
        → set_field (pos v) o l (opcode_at e w) ≡ ok (opcode_at e (w + x * 2 ^ o)))
      p
      (λ f r. set_field-clear (pos v) o l m e w (ltb-false _ _ limit) (rw p fits) clear (rw p room))
      fits room

-- What a field of `m` bits asks of the word it is put into.
abbrev pub Fits : ℕ → ℕ → ℕ → ℕ → ℕ → Type 0
Fits v o l m w =
    (v < 2 ^ m)
    × (v ≤ 2 ^ l - 1)
    × (v < 2 ^ 32)
    × (w / 2 ^ o % 2 ^ m ≡ 0)
    × (w + v * 2 ^ o < 2 ^ 32)

-- One statement of an encoder, and then the rest.
pub put :
    (m v o l : ℕ) (e : Bool) (w : ℕ) (k : Arm64Opcode → Result Text) {t : Result Text}
    → Fits v o l m w
    → k (opcode_at e (w + v * 2 ^ o)) ≡ t
    → (set_field (pos v) o l (opcode_at e w) >>= k) ≡ t
put m v o l e w k h rest = ap (λ r. r >>= k) (set_field-pos v o l m e w h.0 h.1 h.2 h.3 h.4) ∙ rest

-- The same for a value that may be negative.
pub put_masked :
    (m : ℕ) (val : ℤ) (o l : ℕ) (e : Bool) (w : ℕ) (k : Arm64Opcode → Result Text) {t : Result Text}
    → exceeds val (2 ^ l - 1) ≡ false
    → (field_of val l < 2 ^ m) × (w / 2 ^ o % 2 ^ m ≡ 0) × (w + field_of val l * 2 ^ o < 2 ^ 32)
    → k (opcode_at e (w + field_of val l * 2 ^ o)) ≡ t
    → (set_field val o l (opcode_at e w) >>= k) ≡ t
put_masked m val o l e w k within h rest =
    ap (λ r. r >>= k) (set_field-clear val o l m e w within h.0 h.1 h.2) ∙ rest

-- The eight digits of a finished word.
abbrev pub word_text : Bool → ℕ → Text
word_text e w = hex_pad 8 (if e then bswap32 w else w)

pub common_encode-word : (e : Bool) (w : ℕ) → common_encode (opcode_at e w) ≡ ok (word_text e w)
unfolding common_encode to_hex_string hex_pad
common_encode-word true w = refl
common_encode-word false w = refl

-- The end of an encoder.
pub finish : (e : Bool) (w v : ℕ) → w ≡ v → common_encode (opcode_at e w) ≡ ok (word_text e v)
finish e w v h = common_encode-word e w ∙ ap (λ t. ok (word_text e t)) h
