-- ===== src/Base/Text.antt =====
-- `std::string` as the list of its bytes.
use Prim.Native.Nat.{ℕ}
use Prim.Native.Char.{code}
use Prim.Native.String.{String}
use mathlib.Core.Bool.{Bool, true, false, ◌&&◌}
use mathlib.Core.List.{List, [], ◌∷◌, ◌++◌}
use tiny_wasm.Base.Tests.{ltb, ◌==◌, if◌then◌else◌}
use tiny_wasm.Base.Lists.{length, take, drop}
use tiny_wasm.Base.Result.{Result, ok, err, out_of_range}

abbrev pub Text : Type 0
Text = List ℕ

-- A literal of the source.
abbrev pub text : String → Text
text String.[] = []
text (String.◌∷◌ c s) = code c ∷ text s

abbrev pub text_eq : Text → Text → Bool
text_eq [] [] = true
text_eq [] (y ∷ ys) = false
text_eq (x ∷ xs) [] = false
text_eq (x ∷ xs) (y ∷ ys) = (x == y) && text_eq xs ys

-- `s.substr(pos)`.
abbrev pub substr_from : Text → ℕ → Result Text
substr_from s p = if ltb (length s) p then err out_of_range else ok (drop p s)

-- `s.substr(pos, count)`.
abbrev pub substr : Text → ℕ → ℕ → Result Text
substr s p n = if ltb (length s) p then err out_of_range else ok (take n (drop p s))

-- `s.replace(pos, count, t)`.
abbrev pub replace : Text → ℕ → ℕ → Text → Result Text
replace s p n t =
    if ltb (length s) p then err out_of_range else ok (take p s ++ (t ++ drop n (drop p s)))
