-- ===== src/Wasm/Assemble/Present.antt =====
-- The labels of the routines that `processCodeVec` puts around the code of a function.
use tiny_wasm.Base.{ℕ, ◌≡◌, refl, true, List, [], ◌∷◌, length, Bool-cases, inl, inr}
use tiny_wasm.Base.Result.{Result, ok, Returns, Returns-bind, Returns-bind_with, Returns-ok}
use tiny_wasm.Base.Text.{Text, text, text_eq}
use tiny_wasm.Wasm.Types.{at}
use tiny_wasm.Wasm.Function.{WasmFunction, append_instr, construct_full_instr}
use tiny_wasm.Wasm.Branch.{insert_new, insert_label, fake_insert_branch}
use tiny_wasm.Wasm.Jit.{jiting_wasm_code}
use tiny_wasm.Wasm.Process.{store_return_code, runtime_prologue, generate}
use tiny_wasm.Wasm.Initialize.{local_var_initialize}
use tiny_wasm.Wasm.Assemble.Laid.{
  Start, source, IsLaid, Extends, insert_new-Extends, insert_label-IsLaid,
}
use tiny_wasm.Wasm.Assemble.Loop.{jit_loop-IsLaid}
use tiny_wasm.Wasm.Assemble.Whole.{
  Placed, store_return_code-IsLaid, wrapper_setjmp-IsLaid, main_entry_finalize-IsLaid,
  main_entry_initialize-IsLaid, runtime_prologue-IsLaid, declare_locals-IsLaid,
}

abbrev pub HasLabel : List (Text × ℕ) → Text → Type 0
HasLabel m l = (v : ℕ) × (at m l ≡ ok v)

abbrev pub HasLabels : List (Text × ℕ) → List Text → Type 0
HasLabels m [] = Unit
HasLabels m (l ∷ ls) = HasLabel m l × HasLabels m ls

HasLabels-Extends :
    (old new : List (Text × ℕ)) (ls : List Text)
    → Extends old new
    → HasLabels old ls
    → HasLabels new ls
HasLabels-Extends old new [] e h = tt
HasLabels-Extends old new (l ∷ ls) e ((v, h), hs) =
    ((v, e l v h), HasLabels-Extends old new ls e hs)

-- The label itself is there behind its insertion, for a text that equals itself.
insert_new-HasLabel :
    (l : Text) (w : ℕ) (m : List (Text × ℕ)) → text_eq l l ≡ true → HasLabel (insert_new l w m) l
unfolding insert_new at
insert_new-HasLabel l w [] e = (w, rw e refl)
insert_new-HasLabel l w ((j, u) ∷ m) e = elim (Bool-cases (text_eq j l)) [
  | inl f ↦ (u, rw (f, f) refl)
  | inr f ↦ let (v, h) = insert_new-HasLabel l w m e in (v, rw (f, f) h)
]

insert_label-HasLabels :
    (l : Text) (ls : List Text) (fn : WasmFunction)
    → text_eq l l ≡ true
    → HasLabels fn.label_map ls
    → HasLabels (insert_label l fn).label_map (l ∷ ls)
unfolding insert_label
insert_label-HasLabels l ls fn e h =
    let w = length fn.wasm_instructions in
    (
      insert_new-HasLabel l w fn.label_map e,
      HasLabels-Extends fn.label_map (insert_new l w fn.label_map) ls
          (insert_new-Extends l w fn.label_map) h,
    )

-- What only appends code leaves the labels.
appends :
    (ls : List Text) (e : Result Text) (fn : WasmFunction)
    → HasLabels fn.label_map ls
    → Returns (λ (g : WasmFunction). HasLabels g.label_map ls) (append_instr e fn)
unfolding append_instr
appends ls e fn h =
    Returns-bind (λ (g : WasmFunction). HasLabels g.label_map ls) e _
      λ t. Returns-ok (λ (g : WasmFunction). HasLabels g.label_map ls) (construct_full_instr t fn) h

branches :
    (ls : List Text) (l b : Text) (fn : WasmFunction)
    → HasLabels fn.label_map ls
    → HasLabels (fake_insert_branch l b fn).label_map ls
unfolding fake_insert_branch
branches ls l b fn h = h

stores_code :
    (ls : List Text) (c : ℕ) (fn : WasmFunction)
    → HasLabels fn.label_map ls
    → Returns (λ (g : WasmFunction). HasLabels g.label_map ls) (store_return_code c fn)
unfolding store_return_code
stores_code ls c fn h =
    let P = λ (g : WasmFunction). HasLabels g.label_map ls in
    Returns-bind_with P P _ _ (appends ls _ fn h) λ f1 h1. appends ls _ f1 h1

abbrev in_routines : List Text
in_routines = text "raiseException" ∷ text "longjmp" ∷ text "preparelongjmp" ∷ text "setjmp" ∷ []

abbrev pub all_routines : List Text
all_routines = text "finalize" ∷ text "entry" ∷ in_routines

runtime_prologue-HasLabels :
    (fn : WasmFunction)
    → Returns (λ (g : WasmFunction). HasLabels g.label_map in_routines) (runtime_prologue fn)
unfolding runtime_prologue
runtime_prologue-HasLabels fn =
    let P = λ (ls : List Text) (g : WasmFunction). HasLabels g.label_map ls in
    let a = text "setjmp" ∷ [] in
    let b = text "preparelongjmp" ∷ a in
    let c = text "longjmp" ∷ b in
    let d = in_routines in
    Returns-bind_with (P d) (P a) _ _
      (appends a _ _ (insert_label-HasLabels (text "setjmp") [] _ refl tt))
      λ f1 h1.
        Returns-bind_with (P d) (P b) _ _
          (appends b _ _ (insert_label-HasLabels (text "preparelongjmp") a f1 refl h1))
          λ f2 h2. Returns-bind_with (P d) (P b) _ _ (appends b _ f2 h2) λ f3 h3.
            Returns-bind_with (P d) (P b) _ _ (appends b _ f3 h3) λ f4 h4.
              Returns-bind_with (P d) (P c) _ _
                (appends c _ _
                  (insert_label-HasLabels (text "longjmp") b _ refl (branches b _ _ f4 h4)))
                λ f5 h5.
                  Returns-bind_with (P d) (P d) _ _
                    (appends d _ _ (insert_label-HasLabels (text "raiseException") c f5 refl h5))
                    λ f6 h6. Returns-bind_with (P d) (P d) _ _ (appends d _ f6 h6) λ f7 h7.
                      Returns-bind_with (P d) (P d) _ _ (stores_code d 1 f7 h7)
                        λ f8 h8. Returns-ok (P d) _ (branches d _ _ f8 h8)

-- Laid out, with some labels.
abbrev Marked : Start → List Text → WasmFunction → Type 0
Marked cv ls fn = IsLaid cv fn × HasLabels fn.label_map ls

-- What keeps the layout keeps the labels that are there.
marks :
    (cv : Start) (ls : List Text) (fn : WasmFunction) (m : Result WasmFunction)
    → ((cv' : Start) → IsLaid cv' fn → Returns (IsLaid cv') m)
    → Marked cv ls fn
    → Returns (Marked cv ls) m
marks cv ls fn m keeps (laid, h) g made =
    let again : IsLaid (source fn, fn.label_map) fn = record {
      items = laid.items;
      instrs_eq = laid.instrs_eq;
      fakes_eq = laid.fakes_eq;
      labels_between = laid.labels_between;
      code_eq = refl;
      labels_kept = λ l v e. e;
    } in
    let after = keeps (source fn, fn.label_map) again g made in
    (keeps cv laid g made, HasLabels-Extends fn.label_map g.label_map ls after.labels_kept h)

pub generate-HasLabels :
    (cv : Start) (fn : WasmFunction)
    → IsLaid cv fn
    → Returns (λ (g : WasmFunction). HasLabels g.label_map all_routines) (generate fn)
unfolding generate local_var_initialize jiting_wasm_code
generate-HasLabels cv fn laid =
    let P = λ (g : WasmFunction). HasLabels g.label_map all_routines in
    let inner = text "entry" ∷ in_routines in
    let Q = Marked cv inner in
    Returns-bind_with P (Placed cv) _ _
      (declare_locals-IsLaid cv fn.local_var_declare_count 0 fn laid)
      λ p l0.
        Returns-bind_with P (Marked cv in_routines) _ _
          (λ g made.
            (runtime_prologue-IsLaid cv p.1 l0 g made, runtime_prologue-HasLabels p.1 g made))
          λ f1 (l1, h1).
            let entry = insert_label (text "entry") f1 in
            Returns-bind_with P Q _ _
              (marks cv inner entry _ (λ c l. main_entry_initialize-IsLaid c entry l)
                (
                  insert_label-IsLaid cv f1 l1 (text "entry"),
                  insert_label-HasLabels (text "entry") in_routines f1 refl h1,
                ))
              λ f2 m2.
                Returns-bind_with P Q _ _
                  (marks cv inner f2 _ (λ c l. wrapper_setjmp-IsLaid c f2 l) m2)
                  λ f3 m3.
                    Returns-bind_with P Q _ _
                      (marks cv inner f3 _ (λ c l. jit_loop-IsLaid c _ p.0 _ l) m3)
                      λ f4 m4.
                        Returns-bind_with P Q _ _
                          (marks cv inner f4 _ (λ c l. store_return_code-IsLaid c f4 l 0) m4)
                          λ f5 m5.
                            let last = insert_label (text "finalize") f5 in
                            λ g made.
                              (marks cv all_routines last _
                                (λ c l. main_entry_finalize-IsLaid c last l)
                                (
                                  insert_label-IsLaid cv f5 m5.0 (text "finalize"),
                                  insert_label-HasLabels (text "finalize") inner f5 refl m5.1,
                                )
                                g made).1
