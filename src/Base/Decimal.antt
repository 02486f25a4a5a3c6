-- ===== src/Base/Decimal.antt =====
-- `std::to_string` of a number that is not negative.
use tiny_wasm.Base.Tests.{ltb, if◌then◌else◌}
use tiny_wasm.Base.Text.{Text}
use Prim.Native.Nat.{ℕ, zero, suc, ◌+◌, ◌/◌, ◌%◌}
use mathlib.Core.List.{[], ◌∷◌, ◌++◌}

-- The fuel bounds the number of digits.
unfoldable pub digits : ℕ → ℕ → Text
digits zero n = []
digits (suc fuel) n =
    let rest = digits fuel (n / 10) in
    if ltb n 10 then (b'0' + n) ∷ [] else rest ++ (b'0' + n % 10) ∷ []

-- A number has at most as many digits as one more than its value.
unfoldable pub to_string : ℕ → Text
unfolding digits
to_string n = digits (suc n) n
