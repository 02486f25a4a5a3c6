-- ===== src/Utils/Leb/Last.antt =====
-- The last byte of a signed LEB128.
use tiny_wasm.Base.{
  ℕ, ◌+◌, ◌<◌, ◌≡◌, refl, ap, List, [], ◌∷◌, ◌++◌, bit_or, bit_and, Bool, true, false,
  if◌then◌else◌,
}
use tiny_wasm.Base.Result.{Result, ok, err, ◌>>=◌}
use tiny_wasm.Utils.Leb.{
  shifted_group, mask_of, continues, extend_sign, signed_groups, decode_sleb128,
}
use tiny_wasm.Utils.Leb.RoundTrip.{continues-lt}

bind_same : (m : Result ℕ) (f g : ℕ → Result ℕ) → ((a : ℕ) → f a ≡ g a) → (m >>= f) ≡ (m >>= g)
bind_same (ok a) f g h = h a
bind_same (err e) f g h = refl

choose_same :
    (t : Bool) (x y a b : Result ℕ) → x ≡ y → a ≡ b → (if t then x else a) ≡ (if t then y else b)
choose_same true x y a b h g = h
choose_same false x y a b h g = g

signed_groups-last :
    (groups : List ℕ) (b c result shift bits : ℕ)
    → b < 128
    → c < 128
    → bit_and b 0x40 ≡ bit_and c 0x40
    → signed_groups (groups ++ b ∷ []) result shift bits
      ≡ signed_groups (groups ++ c ∷ []) result shift bits
unfolding signed_groups extend_sign
signed_groups-last [] b c result shift bits hb hc e =
    rw (continues-lt b hb, continues-lt c hc, e) refl
signed_groups-last (g ∷ groups) b c result shift bits hb hc e =
    choose_same (continues g) _ _ _ _
      (bind_same (shifted_group g shift) _ _
        λ group. signed_groups-last groups b c (bit_or result group) (shift + 7) bits hb hc e)
      refl

-- Of a last byte below 128, `decodeSLEB128` reads the bit of the sign and nothing else: two last bytes
-- with the same bit give the same number, whatever bytes stand before them.
pub decode_sleb128-last :
    (groups : List ℕ) (b c bits : ℕ)
    → b < 128
    → c < 128
    → bit_and b 0x40 ≡ bit_and c 0x40
    → decode_sleb128 (groups ++ b ∷ []) bits ≡ decode_sleb128 (groups ++ c ∷ []) bits
unfolding decode_sleb128
decode_sleb128-last groups b c bits hb hc e =
    ap (λ m. m >>= λ result. mask_of bits >>= λ mask. ok (bit_and result mask))
      (signed_groups-last groups b c 0 0 bits hb hc e)
