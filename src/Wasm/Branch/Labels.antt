-- ===== src/Wasm/Branch/Labels.antt =====
-- What `insertLabel` does to the labels that are there.
use tiny_wasm.Base.{ℕ, ◌≡◌, List, [], ◌∷◌, Bool, Bool-cases, inl, inr}
use tiny_wasm.Base.Result.{Result, ok, ◌>>=◌, Returns, Returns-bind, Returns-bind_with, Returns-ok}
use tiny_wasm.Base.Text.{Text, text, text_eq}
use tiny_wasm.Opcode.Base.{RegType}
use tiny_wasm.Wasm.Types.{at}
use tiny_wasm.Wasm.Function.{WasmFunction, append_instr, construct_full_instr}
use tiny_wasm.Wasm.Branch.{insert_new, insert_label, fake_insert_branch}
use tiny_wasm.Wasm.Emit.{emit_div}

insert_new-keeps :
    (k j : Text) (w v : ℕ) (m : List (Text × ℕ)) → at m j ≡ ok v → at (insert_new k w m) j ≡ ok v
unfolding insert_new at
insert_new-keeps k j w v [] h = cc
insert_new-keeps k j w v ((l, u) ∷ m) h = elim (Bool-cases (text_eq l k)) [
  | inl e ↦ rw e h
  | inr e ↦ rw e (elim (Bool-cases (text_eq l j)) [
    | inl f ↦ rw f (rw f at h)
    | inr f ↦ rw f (insert_new-keeps k j w v m (rw f at h))
  ])
]

-- The place of a label.
abbrev pub LabelAt : Text → ℕ → WasmFunction → Type 0
LabelAt j v fn = at fn.label_map j ≡ ok v

module _ (j : Text) (v : ℕ) where
  appends :
      (e : Result Text) (fn : WasmFunction)
      → LabelAt j v fn
      → Returns (LabelAt j v) (append_instr e fn)
  unfolding append_instr
  appends e fn h =
      Returns-bind (LabelAt j v) e _ λ t. Returns-ok (LabelAt j v) (construct_full_instr t fn) h

  appended :
      (e : Result Text) (fn : WasmFunction) (k : WasmFunction → Result WasmFunction)
      → LabelAt j v fn
      → ((f : WasmFunction) → LabelAt j v f → Returns (LabelAt j v) (k f))
      → Returns (LabelAt j v) (append_instr e fn >>= k)
  appended e fn k h rest =
      Returns-bind_with (LabelAt j v) (LabelAt j v) (append_instr e fn) k (appends e fn h) rest

  -- A division leaves every label that is there where it is, the label normal_div of an earlier
  -- division included.
  pub emit_div-keeps :
      (r : RegType) (sg : Bool) (fn : WasmFunction)
      → at fn.label_map j ≡ ok v
      → Returns (LabelAt j v) (emit_div r sg fn)
  unfolding emit_div fake_insert_branch insert_label
  emit_div-keeps r sg fn h = appended _ fn _ h λ f1 h1. appended _ _ _ h1 λ f2 h2.
      appended _ f2 _ h2 λ f3 h3. appended _ _ _ h3 λ f4 h4.
        appended _ f4 _ h4
          λ f5 h5. appends _ _ (insert_new-keeps (text "normal_div") j _ v f5.label_map h5)
