-- ===== src/Utils/Hex/Length.antt =====
-- The number of digits.
use tiny_wasm.Base.{ℕ, zero, suc, ◌≡◌, refl, ap, length}
use tiny_wasm.Utils.Hex.{hex_pad}

pub length-hex_pad : (n v : ℕ) → length (hex_pad n v) ≡ n
unfolding hex_pad
length-hex_pad zero v = refl
length-hex_pad (suc n) v = ap suc (length-hex_pad n v)
