-- ===== src/Tests/Loading.antt =====
-- Text that is loaded as bytes, and branches that land.
use tiny_wasm.Base.{
  ◌≡◌, refl, inl, inr, ◌+◌, ◌*◌, ◌/◌, ◌%◌, ◌^◌, true, bit, List, [], ◌∷◌, ◌++◌, arith, ℕ,
}
use tiny_wasm.Base.Int.{sub_ℕ, signed}
use tiny_wasm.Base.Result.{ok}
use tiny_wasm.Base.Text.{Text, text}
use tiny_wasm.Utils.Hex.{hex_pad, to_hex_string, hex_char, bswap32}
use tiny_wasm.Opcode.Base.{set_field, common_encode}
use tiny_wasm.Opcode.Fields.{word_text}
use tiny_wasm.Opcode.Branch.{encode_branch, encode_branch_condition}
use tiny_wasm.Wasm.Types.{index_or, at}
use tiny_wasm.Wasm.Branch.{encode_fixed, fix_up_all}
use tiny_wasm.Wasm.Assemble.{Item, word, branch, items_text, items_fixed, entries}
use tiny_wasm.Wasm.Assemble.AnyOrder.{Entry, IsAmong, fix_up_all-Lands}
use tiny_wasm.Wasm.Assemble.Laid.{AreLabels}
use tiny_wasm.Wasm.Assemble.Landing.{Lands, encode_branch-lands, encode_branch_condition-lands}
use tiny_wasm.Wasm.Execute.{get_function_pointer}
use tiny_wasm.Wasm.Execute.Loading.{
  get_function_pointer-program_text, get_function_pointer-bytes_text,
}

-- ret
get_function_pointer-program_text_example :
    get_function_pointer (word_text true 0xd65f03c0 ++ []) ≡ ok (0xc0 ∷ 0x03 ∷ 0x5f ∷ 0xd6 ∷ [])
get_function_pointer-program_text_example = get_function_pointer-program_text (0xd65f03c0 ∷ [])

get_function_pointer-bytes_text_example :
    get_function_pointer (hex_pad 2 192 ++ (hex_pad 2 3 ++ [])) ≡ ok (192 ∷ 3 ∷ [])
get_function_pointer-bytes_text_example =
    get_function_pointer-bytes_text (192 ∷ 3 ∷ []) (omega arith, (omega arith, tt))

entry_at : index_or ((text "entry", 40) ∷ []) (text "entry") 0 ≡ 5 * 8
unfolding index_or
entry_at = refl

encode_branch-lands_example :
    (w : ℕ) × (encode_branch (sub_ℕ 5 7) true true ≡ ok (word_text true w))
    × (w / 2 ^ 26 ≡ bit true * 32 + 0b101)
    × (signed 26 (w % 2 ^ 26) ≡ sub_ℕ 5 7)
encode_branch-lands_example = encode_branch-lands 5 7 true (omega arith) (omega arith)

encode_branch_condition-lands_example :
    (w : ℕ) × (encode_branch_condition (sub_ℕ 9 7) 1 true ≡ ok (word_text true w))
    × (w / 2 ^ 24 ≡ 0b01010100)
    × (w % 16 ≡ 1)
    × (signed 19 (w / 2 ^ 5 % 2 ^ 19) ≡ sub_ℕ 9 7)
encode_branch_condition-lands_example =
    encode_branch_condition-lands 9 7 1 (omega arith) (omega arith) (omega arith)

-- A function that branches over one instruction and back to it.
abbrev over_and_back : List Item
over_and_back =
    branch (text "after") (text "b") ∷ word 0x1f2003d5 ∷ branch (text "entry") (text "bne") ∷ []

abbrev two_labels : List (Text × ℕ)
two_labels = (text "entry", 8) ∷ (text "after", 16) ∷ []

abbrev backwards : List Entry
backwards = (text "entry", (16, text "bne")) ∷ (text "after", (0, text "b")) ∷ []

-- b +8, nop, b.ne -4
abbrev both_ways : Text
both_ways = text "020000141F2003D5E1FFFF54"

both_ways-fixed : items_fixed two_labels 0 over_and_back ≡ ok both_ways
unfolding encode_fixed encode_branch encode_branch_condition index_or at set_field hex_pad hex_char
    to_hex_string bswap32 common_encode
both_ways-fixed = refl

backwards-inside : (x : Entry) → IsAmong x backwards → IsAmong x (entries 0 over_and_back)
backwards-inside x (inl e) = inr (inl e)
backwards-inside x (inr (inl e)) = inl e
backwards-inside x (inr (inr h)) = absurd h

backwards-all : (x : Entry) → IsAmong x (entries 0 over_and_back) → IsAmong x backwards
backwards-all x (inl e) = inr (inl e)
backwards-all x (inr (inl e)) = inl e
backwards-all x (inr (inr h)) = absurd h

two_labels-AreLabels : AreLabels 3 two_labels
two_labels-AreLabels = ((1, refl, omega arith), ((2, refl, omega arith), tt))

fix_up_all-Lands_example :
    (fix_up_all two_labels backwards (items_text over_and_back) ≡ ok both_ways)
    × Lands two_labels 0 over_and_back both_ways
fix_up_all-Lands_example =
    fix_up_all-Lands two_labels over_and_back both_ways backwards (omega arith) two_labels-AreLabels
      both_ways-fixed backwards-inside backwards-all
