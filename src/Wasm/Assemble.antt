-- ===== src/Wasm/Assemble.antt =====
-- What include/Wasm/Branch.hpp works on, seen as a list of instructions: words that are finished,
-- and branches by the name of their label.
pub mod FixUp
pub mod Laid
pub mod Codes
pub mod Emits
pub mod Loop
pub mod Routines
pub mod Whole
pub mod Present
pub mod AnyOrder
pub mod Landing
pub mod Finished
use tiny_wasm.Base.{ℕ, suc, ◌+◌, ◌*◌, List, [], ◌∷◌, ◌++◌}
use tiny_wasm.Base.Result.{Result, ok, ◌>>=◌}
use tiny_wasm.Base.Text.{Text, text}
use tiny_wasm.Utils.Hex.{hex_pad}
use tiny_wasm.Wasm.Branch.{encode_fixed, displacement}

pub data Item : Type 0 where
  word : ℕ → Item
  branch : Text → Text → Item

-- The text while the branches are open.
abbrev pub item_text : Item → Text
item_text (word x) = hex_pad 8 x
item_text (branch l b) = text "FFFFFFFF"

abbrev pub items_text : List Item → Text
items_text [] = []
items_text (i ∷ is) = item_text i ++ items_text is

-- The branches, with the places of their digits, from item number `n` on.
abbrev pub entries : ℕ → List Item → List (Text × (ℕ × Text))
entries n [] = []
entries n (word x ∷ is) = entries (suc n) is
entries n (branch l b ∷ is) = (l, (n * 8, b)) ∷ entries (suc n) is

-- The finished text: at each place the word itself, or the branch from there to its label.
abbrev pub item_fixed : List (Text × ℕ) → ℕ → Item → Result Text
item_fixed labels n (word x) = ok (hex_pad 8 x)
item_fixed labels n (branch l b) = encode_fixed b (displacement labels l (n * 8))

abbrev pub items_fixed : List (Text × ℕ) → ℕ → List Item → Result Text
items_fixed labels n [] = ok []
items_fixed labels n (i ∷ is) = do
  t ← item_fixed labels n i
  ts ← items_fixed labels (suc n) is
  ok (t ++ ts)
