-- ===== src/Wasm/Assemble/Laid.antt =====
-- The invariant of the text under construction: whole instructions, the table of branches in
-- their order, and labels between instructions. Each primitive update keeps it.
use mathlib.Core.List.{append_assoc, append-nil}
use tiny_wasm.Base.{
  ℕ, suc, ◌+◌, ◌*◌, ◌≤◌, ◌≡◌, refl, sym, ap, ◌∙◌, subst, List, [], ◌∷◌, ◌++◌, arith, length,
  length-append, Bool-cases, inl, inr,
}
use tiny_wasm.Base.Result.{Result, ok, Returns, Returns-bind_with, Returns-ok}
use tiny_wasm.Base.Text.{Text, text, text_eq}
use tiny_wasm.Opcode.IsWord.{IsWord}
use tiny_wasm.Utils.Hex.{hex_pad}
use tiny_wasm.Utils.Hex.Length.{length-hex_pad}
use tiny_wasm.Wasm.Types.{at}
use tiny_wasm.Wasm.Function.{WasmFunction, append_instr, construct_full_instr}
use tiny_wasm.Wasm.Branch.{fake_insert_branch, insert_label, insert_new}
use tiny_wasm.Wasm.Assemble.{Item, word, branch, item_text, items_text, entries}

-- Every label stands in front of one of the first `n` instructions, or behind them.
abbrev pub AreLabels : ℕ → List (Text × ℕ) → Type 0
AreLabels n [] = Unit
AreLabels n ((l, v) ∷ m) = ((j : ℕ) × (v ≡ j * 8) × (j ≤ n)) × AreLabels n m

-- What the compiler only reads: the wasm code, and the text that loads the parameters.
abbrev pub Source : Type 0
Source = List Text × Text

abbrev pub source : WasmFunction → Source
source fn = (fn.code_vec, fn.pre_instructions_for_param_loading)

-- Every label of `old` stands in `new` where it was.
abbrev pub Extends : List (Text × ℕ) → List (Text × ℕ) → Type 0
Extends old new = (l : Text) (v : ℕ) → at old l ≡ ok v → at new l ≡ ok v

-- What the function was when the text began: its source, and the labels that it had.
abbrev pub Start : Type 0
Start = Source × List (Text × ℕ)

pub record Laid (cv : Start) (instrs : Text) (fakes : List (Text × (ℕ × Text)))
    (labels : List (Text × ℕ)) (code : Source) : Type 0 where
  pub items : List Item
  pub instrs_eq : instrs ≡ items_text items
  pub fakes_eq : fakes ≡ entries 0 items
  pub labels_between : AreLabels (length items) labels
  pub code_eq : code ≡ cv.0
  pub labels_kept : Extends cv.1 labels

abbrev pub IsLaid : Start → WasmFunction → Type 0
IsLaid cv fn = Laid cv fn.wasm_instructions fn.fake_insert_map fn.label_map (source fn)

-- Text that is some finished words.
abbrev pub IsCode : Text → Type 0
IsCode t = (ws : List Item) × (t ≡ items_text ws) × ((n : ℕ) → entries n ws ≡ [])

items_text-append : (xs ys : List Item) → items_text (xs ++ ys) ≡ items_text xs ++ items_text ys
items_text-append [] ys = refl
items_text-append (x ∷ xs) ys =
    rw (items_text-append xs ys) (sym (append_assoc (item_text x) (items_text xs) (items_text ys)))

entries-append :
    (xs ys : List Item) (n : ℕ) → entries n (xs ++ ys) ≡ entries n xs ++ entries (n + length xs) ys
entries-append [] ys n = ap (λ k. entries k ys) (omega arith)
entries-append (word x ∷ xs) ys n =
    entries-append xs ys (suc n) ∙ ap (λ k. entries (suc n) xs ++ entries k ys) (omega arith)
entries-append (branch l b ∷ xs) ys n =
    ap (λ r. (l, (n * 8, b)) ∷ r)
      (entries-append xs ys (suc n) ∙ ap (λ k. entries (suc n) xs ++ entries k ys) (omega arith))

pub length-item_text : (x : Item) → length (item_text x) ≡ 8
length-item_text (word x) = length-hex_pad 8 x
length-item_text (branch l b) = refl

pub length-items_text : (xs : List Item) → length (items_text xs) ≡ length xs * 8
length-items_text [] = refl
length-items_text (x ∷ xs) = omega (
  arith,
  length-append {0} (item_text x) (items_text xs),
  length-item_text x,
  length-items_text xs,
)

AreLabels-mono : (m : List (Text × ℕ)) (a b : ℕ) → a ≤ b → AreLabels a m → AreLabels b m
AreLabels-mono [] a b h p = tt
AreLabels-mono ((l, v) ∷ m) a b h ((j, e, q), p) = ((j, e, omega arith), AreLabels-mono m a b h p)

insert_new-AreLabels :
    (l : Text) (j n : ℕ) (m : List (Text × ℕ))
    → j ≤ n
    → AreLabels n m
    → AreLabels n (insert_new l (j * 8) m)
unfolding insert_new
insert_new-AreLabels l j n [] h p = ((j, refl, h), tt)
insert_new-AreLabels l j n ((k, v) ∷ m) h (q, p) = elim (Bool-cases (text_eq k l)) [
  | inl e ↦ rw e (q, p)
  | inr e ↦ rw e (q, insert_new-AreLabels l j n m h p)
]

pub insert_new-Extends : (l : Text) (w : ℕ) (m : List (Text × ℕ)) → Extends m (insert_new l w m)
unfolding insert_new at
insert_new-Extends l w [] k v h = absurd (cc)
insert_new-Extends l w ((j, u) ∷ m) k v h = elim (Bool-cases (text_eq j l)) [
  | inl e ↦ rw e h
  | inr e ↦ rw e (elim (Bool-cases (text_eq j k)) [
    | inl f ↦ rw f (rw f at h)
    | inr f ↦ rw f (insert_new-Extends l w m k v (rw f at h))
  ])
]

pub IsCode-word : (t : Text) → IsWord t → IsCode t
IsCode-word t (x, e) = (word x ∷ [], e ∙ sym (append-nil (hex_pad 8 x)), λ n. refl)

pub IsCode-append : (s t : Text) → IsCode s → IsCode t → IsCode (s ++ t)
IsCode-append s t (xs, e, f) (ys, g, h) = (
  xs ++ ys,
  rw (e, g) (sym (items_text-append xs ys)),
  λ n. rw (entries-append xs ys n, f n, h) refl,
)

pub IsCode-nil : IsCode []
IsCode-nil = ([], refl, λ n. refl)

module _ (cv : Start) (fn : WasmFunction) (laid : IsLaid cv fn) where
  size : length fn.wasm_instructions ≡ length laid.items * 8
  size = ap length laid.instrs_eq ∙ length-items_text laid.items

  -- More items at the end.
  grow :
      (ws : List Item) (t : Text) (fs : List (Text × (ℕ × Text)))
      → t ≡ items_text ws
      → fs ≡ entries (length laid.items) ws
      → Laid cv (fn.wasm_instructions ++ t) (fn.fake_insert_map ++ fs) fn.label_map (source fn)
  grow ws t fs e f = record {
    items = laid.items ++ ws;
    instrs_eq = rw (laid.instrs_eq, e) (sym (items_text-append laid.items ws));
    fakes_eq =
        rw (laid.fakes_eq, f)
          (ap (λ k. entries 0 laid.items ++ entries k ws) (omega arith)
            ∙ sym (entries-append laid.items ws 0));
    labels_between =
        AreLabels-mono fn.label_map (length laid.items) (length (laid.items ++ ws))
          (omega (arith, length-append {0} laid.items ws)) laid.labels_between;
    code_eq = laid.code_eq;
    labels_kept = laid.labels_kept;
  }

  pub construct_full_instr-IsLaid : (t : Text) → IsCode t → IsLaid cv (construct_full_instr t fn)
  construct_full_instr-IsLaid t (ws, e, f) =
      subst (λ fs. Laid cv (fn.wasm_instructions ++ t) fs fn.label_map (source fn))
        (append-nil fn.fake_insert_map) (grow ws t [] e (sym (f (length laid.items))))

  pub append_instr-IsLaid :
      (e : Result Text) → Returns IsCode e → Returns (IsLaid cv) (append_instr e fn)
  unfolding append_instr
  append_instr-IsLaid e h =
      Returns-bind_with (IsLaid cv) IsCode e _ h
        λ t c. Returns-ok (IsLaid cv) _ (construct_full_instr-IsLaid t c)

  pub fake_insert_branch-IsLaid : (l b : Text) → IsLaid cv (fake_insert_branch l b fn)
  unfolding fake_insert_branch
  fake_insert_branch-IsLaid l b =
      grow (branch l b ∷ []) (text "FFFFFFFF") ((l, (length fn.wasm_instructions, b)) ∷ []) refl
        (ap (λ k. (l, (k, b)) ∷ []) size)

  pub insert_label-IsLaid : (l : Text) → IsLaid cv (insert_label l fn)
  unfolding insert_label
  insert_label-IsLaid l = record {
    items = laid.items;
    instrs_eq = laid.instrs_eq;
    fakes_eq = laid.fakes_eq;
    labels_between = rw size (
        insert_new-AreLabels l (length laid.items) (length laid.items) fn.label_map (omega arith)
          laid.labels_between);
    code_eq = laid.code_eq;
    labels_kept = λ k v h.
        insert_new-Extends l (length fn.wasm_instructions) fn.label_map k v
          (laid.labels_kept k v h);
  }
