-- ===== src/Utils/Leb.antt =====
-- include/Utils.h: the decoders of LEB128.
pub mod RoundTrip
pub mod Last
use tiny_wasm.Base.{
  ℕ, suc, ◌+◌, ◌-◌, ◌*◌, ◌^◌, ◌%◌, List, [], ◌∷◌, bit_or, bit_and, ltb, leb, ◌==◌, Bool, true,
  false, not, ◌&&◌, if◌then◌else◌,
}
use tiny_wasm.Base.Result.{Result, ok, err, undefined, ◌>>=◌}

-- `(input & 0x7f) << shift` as an `int`, which becomes a 64-bit number with its sign; a shift by the
-- width is undefined.
unfoldable pub shifted_group : ℕ → ℕ → Result ℕ
shifted_group input shift =
    let v = bit_and input 0x7f * 2 ^ shift % 2 ^ 32 in
    if leb 32 shift then err undefined else ok (if leb (2 ^ 31) v then v + (2 ^ 64 - 2 ^ 32) else v)

-- `(1UL << bits) - 1`.
unfoldable pub mask_of : ℕ → Result ℕ
mask_of bits = if leb 64 bits then err undefined else ok (2 ^ bits - 1)

abbrev pub continues : ℕ → Bool
continues input = not (bit_and input 0x80 == 0)

unfoldable pub unsigned_groups : List ℕ → ℕ → ℕ → Result ℕ
unsigned_groups [] result shift = ok result
unsigned_groups (input ∷ inputs) result shift = shifted_group input shift >>= λ group.
    let rest = unsigned_groups inputs (bit_or result group) (shift + 7) in
    if continues input then rest else ok (bit_or result group)

unfoldable pub decode_uleb128 : List ℕ → ℕ → Result ℕ
decode_uleb128 inputs bits = do
  result ← unsigned_groups inputs 0 0
  mask ← mask_of bits
  ok (bit_and result mask)

-- Behind the loop: `inputs[i]` is not there when every byte continues.
unfoldable pub extend_sign : List ℕ → ℕ → ℕ → ℕ → Result ℕ
extend_sign inputs result shift bits = if ltb shift bits then go inputs else ok result
  where
    go : List ℕ → Result ℕ
    go [] = err undefined
    go (input ∷ inputs) =
        if bit_and input 0x40 == 0
        then ok result
        else if leb 64 shift
        then err undefined
        else ok (bit_or result (2 ^ 64 - 2 ^ shift))

-- The loop ends before the byte that does not continue, whose seven bits are left out.
unfoldable pub signed_groups : List ℕ → ℕ → ℕ → ℕ → Result ℕ
signed_groups [] result shift bits = extend_sign [] result shift bits
signed_groups (input ∷ inputs) result shift bits =
    let rest = shifted_group input shift >>= λ group.
    signed_groups inputs (bit_or result group) (shift + 7) bits in
    if continues input then rest else extend_sign (input ∷ inputs) result shift bits

unfoldable pub decode_sleb128 : List ℕ → ℕ → Result ℕ
decode_sleb128 inputs bits = do
  result ← signed_groups inputs 0 0 bits
  mask ← mask_of bits
  ok (bit_and result mask)
