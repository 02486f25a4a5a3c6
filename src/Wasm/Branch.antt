-- ===== src/Wasm/Branch.antt =====
-- include/Wasm/Branch.hpp: branches are inserted as eight digits F and fixed up at the end.
pub mod Labels
use tiny_wasm.Base.{ℕ, List, [], ◌∷◌, ◌++◌, true, false, if◌then◌else◌, length}
use tiny_wasm.Base.Int.{ℤ, sub_ℕ, trunc_div}
use tiny_wasm.Base.Result.{Result, ok, ◌>>=◌}
use tiny_wasm.Base.Text.{Text, text, text_eq, substr_from, replace}
use tiny_wasm.Opcode.Branch.{encode_branch, encode_branch_condition}
use tiny_wasm.Wasm.Types.{cond_table, at, index_or}
use tiny_wasm.Wasm.Function.{WasmFunction}

-- `insert` of an unordered map: a key that is there keeps its value.
unfoldable pub insert_new : Text → ℕ → List (Text × ℕ) → List (Text × ℕ)
insert_new k v [] = (k, v) ∷ []
insert_new k v ((j, w) ∷ m) = if text_eq j k then (j, w) ∷ m else (j, w) ∷ insert_new k v m

unfoldable pub fake_insert_branch : Text → Text → WasmFunction → WasmFunction
fake_insert_branch label branch_str fn =
    let cur_location = length fn.wasm_instructions in
    record fn {
      wasm_instructions = fn.wasm_instructions ++ text "FFFFFFFF";
      fake_insert_map = fn.fake_insert_map ++ (label, (cur_location, branch_str)) ∷ [];
    }

unfoldable pub insert_label : Text → WasmFunction → WasmFunction
insert_label label fn = record fn {
  label_map = insert_new label (length fn.wasm_instructions) fn.label_map;
}

-- The three arms of the loop body of `fixUpfakeBranch`.
unfoldable pub encode_fixed : Text → ℤ → Result Text
encode_fixed branch_str offset =
    if text_eq branch_str (text "b")
    then encode_branch offset false true
    else if text_eq branch_str (text "bl")
    then encode_branch offset true true
    else do
      cond_str ← substr_from branch_str 1
      cond ← at cond_table cond_str
      encode_branch_condition offset cond true

-- `label_map[x.first]` is 0 for a label that was not inserted.
abbrev pub displacement : List (Text × ℕ) → Text → ℕ → ℤ
displacement labels label origin = trunc_div (sub_ℕ (index_or labels label 0) origin) 8

-- One round of the loop.
unfoldable pub fix_up_one : List (Text × ℕ) → Text × (ℕ × Text) → Text → Result Text
fix_up_one labels (label, (origin, branch_str)) instrs = do
  fixed ← encode_fixed branch_str (displacement labels label origin)
  replace instrs origin 8 fixed

-- The source visits the table in the order of a hash, which is a list of its entries in some order; the
-- table here has the order of insertion. Wasm/Assemble/AnyOrder is about the other orders.
unfoldable pub fix_up_all : List (Text × ℕ) → List (Text × (ℕ × Text)) → Text → Result Text
fix_up_all labels [] instrs = ok instrs
fix_up_all labels (x ∷ xs) instrs = do
  instrs' ← fix_up_one labels x instrs
  fix_up_all labels xs instrs'

unfoldable pub fix_up_fake_branch : WasmFunction → Result WasmFunction
fix_up_fake_branch fn = do
  instrs ← fix_up_all fn.label_map fn.fake_insert_map fn.wasm_instructions
  ok (record fn { wasm_instructions = instrs })
