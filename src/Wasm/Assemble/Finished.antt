-- ===== src/Wasm/Assemble/Finished.antt =====
-- The finished text of `processCodeVec`, and where its branches lead.
use tiny_wasm.Base.{
  ℕ, suc, ◌*◌, ◌^◌, ◌<◌, ◌≡◌, refl, sym, ap, ◌∙◌, subst, List, [], ◌∷◌, ◌++◌, length, length-append,
  arith,
}
use tiny_wasm.Base.Result.{Result, ok, err, ◌>>=◌, bind-returned}
use tiny_wasm.Base.Text.{Text}
use tiny_wasm.Wasm.Types.{at}
use tiny_wasm.Wasm.Function.{WasmFunction}
use tiny_wasm.Wasm.Branch.{fix_up_all, fix_up_fake_branch}
use tiny_wasm.Wasm.Process.{generate, process_code_vec}
use tiny_wasm.Wasm.Assemble.{Item, items_text, entries, item_fixed, items_fixed}
use tiny_wasm.Wasm.Assemble.FixUp.{fix_up_all-entries}
use tiny_wasm.Wasm.Assemble.Laid.{Source, source, IsLaid, AreLabels}
use tiny_wasm.Wasm.Assemble.Whole.{generate-IsLaid}
use tiny_wasm.Wasm.Assemble.Present.{HasLabels, all_routines, generate-HasLabels}
use tiny_wasm.Wasm.Assemble.AnyOrder.{length-item_fixed}
use tiny_wasm.Wasm.Assemble.Landing.{Lands, items_fixed-Lands}

-- No text, no open branches and no labels, as the parser makes a function and `resetAfterExecution`
-- leaves it. The other fields are free: the variables and their tables, and the control stack.
abbrev pub IsCleared : WasmFunction → Type 0
IsCleared fn = (fn.wasm_instructions ≡ []) × (fn.fake_insert_map ≡ []) × (fn.label_map ≡ [])

-- The instructions of a function, each finished at its place.
pub record IsFinished (fn : WasmFunction) : Type 0 where
  pub items : List Item
  pub branches : fn.fake_insert_map ≡ entries 0 items
  pub labels_between : AreLabels (length items) fn.label_map
  pub fixed : items_fixed fn.label_map 0 items ≡ ok fn.wasm_instructions

none_there : (l : Text) (v : ℕ) → at [] l ≡ ok v → ⊥
unfolding at
none_there l v h = cc

cleared-IsLaid : (fn : WasmFunction) → IsCleared fn → IsLaid (source fn, []) fn
cleared-IsLaid fn (a, b, c) = record {
  items = [];
  instrs_eq = a;
  fakes_eq = b;
  labels_between = subst (AreLabels 0) (sym c) tt;
  code_eq = refl;
  labels_kept = λ l v h. absurd (none_there l v h);
}

bind-ok : (m : Result Text) → (m >>= ok) ≡ m
bind-ok (ok a) = refl
bind-ok (err e) = refl

finish_laid :
    (cv : Source) (g fn' : WasmFunction)
    → IsLaid (cv, []) g
    → fix_up_fake_branch g ≡ ok fn'
    → IsFinished fn' × (source fn' ≡ cv)
unfolding fix_up_fake_branch
finish_laid cv g fn' laid h =
    let (t, whole, done) =
      bind-returned (fix_up_all g.label_map g.fake_insert_map g.wasm_instructions) _ h in
    let same : record g { wasm_instructions = t } ≡ fn' = cc in
    let start : fix_up_all g.label_map (entries 0 laid.items) (items_text laid.items) ≡ ok t =
      rw (← laid.fakes_eq, ← laid.instrs_eq) whole in
    subst (λ (f : WasmFunction). IsFinished f × (source f ≡ cv)) same
      (
        record {
          items = laid.items;
          branches = laid.fakes_eq;
          labels_between = laid.labels_between;
          fixed =
              sym (bind-ok (items_fixed g.label_map 0 laid.items))
              ∙ (sym (fix_up_all-entries g.label_map laid.items 0 [] refl) ∙ start);
        },
        laid.code_eq,
      )

-- The instructions of the finished text.
pub process_code_vec-IsFinished :
    (fn fn' : WasmFunction)
    → IsCleared fn
    → process_code_vec fn ≡ ok fn'
    → IsFinished fn' × (source fn' ≡ source fn)
unfolding process_code_vec
process_code_vec-IsFinished fn fn' fresh h =
    let (g, made, fixed) = bind-returned (generate fn) fix_up_fake_branch h in
    finish_laid (source fn) g fn'
      (generate-IsLaid (source fn, []) fn (cleared-IsLaid fn fresh) g made) fixed

length-items_fixed :
    (labels : List (Text × ℕ)) (is : List Item) (n : ℕ) (t : Text)
    → items_fixed labels n is ≡ ok t
    → length t ≡ length is * 8
length-items_fixed labels [] n t h = let e : [] ≡ t = cc in sym (ap length e)
length-items_fixed labels (i ∷ is) n t h =
    let (one, first, more) = bind-returned (item_fixed labels n i) _ h in
    let (ts, made, last) = bind-returned (items_fixed labels (suc n) is) _ more in
    let joined : one ++ ts ≡ t = cc in
    omega (
      arith,
      ap length joined,
      length-append one ts,
      length-item_fixed labels n i one first,
      length-items_fixed labels is (suc n) ts made,
    )

fix_up_fake_branch-labels :
    (g fn' : WasmFunction) → fix_up_fake_branch g ≡ ok fn' → g.label_map ≡ fn'.label_map
unfolding fix_up_fake_branch
fix_up_fake_branch-labels g fn' h =
    let (t, whole, done) =
      bind-returned (fix_up_all g.label_map g.fake_insert_map g.wasm_instructions) _ h in
    let same : record g { wasm_instructions = t } ≡ fn' = cc in
    ap (λ (f : WasmFunction). f.label_map) same

-- When `processCodeVec` returns on a function without text, open branches and labels, and the text has fewer
-- than 2 ^ 18 instructions, there is a list of instructions such that: the recorded branches are exactly
-- its branches, and the labels stand between its instructions; the labels of the routines and of the entry
-- and the end of the function, all six, are there; the text is these instructions one by one, each
-- branch as the word of B, BL or B with its condition whose displacement, in two's complement,
-- leads from its own place to the place of its label, where a label that is not there counts as the
-- first instruction; and the wasm code and the loading of the parameters are unchanged.
pub process_code_vec-Lands :
    (fn fn' : WasmFunction)
    → IsCleared fn
    → process_code_vec fn ≡ ok fn'
    → length fn'.wasm_instructions < 8 * 2 ^ 18
    → (is : List Item) × (fn'.fake_insert_map ≡ entries 0 is)
      × AreLabels (length is) fn'.label_map
      × HasLabels fn'.label_map all_routines
      × Lands fn'.label_map 0 is fn'.wasm_instructions
      × (source fn' ≡ source fn)
unfolding process_code_vec
process_code_vec-Lands fn fn' cleared h short =
    let (g, made, fixed) = bind-returned (generate fn) fix_up_fake_branch h in
    let (finished, same) = process_code_vec-IsFinished fn fn' cleared h in
    let is = finished.items in
    let labels = fn'.label_map in
    (
      is,
      finished.branches,
      finished.labels_between,
      subst (λ m. HasLabels m all_routines) (fix_up_fake_branch-labels g fn' fixed)
          (generate-HasLabels (source fn, []) fn (cleared-IsLaid fn cleared) g made),
      items_fixed-Lands labels (length is) is 0 fn'.wasm_instructions finished.labels_between
          (omega (arith, length-items_fixed labels is 0 fn'.wasm_instructions finished.fixed))
          (omega arith) finished.fixed,
      same,
    )
