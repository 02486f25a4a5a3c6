-- ===== src/Wasm/Statements/Simulation/Accesses.antt =====
-- Every statement on a machine.
use mathlib.Core.Option.{some-injective, none-ne-some}
use tiny_wasm.Base.{
  ℕ, ◌≤◌, ◌<◌, ◌≡◌, refl, sym, ap, subst, ◌∙◌, Bool, true, false, List, [], ◌∷◌, length, arith,
  get_elem?, get_elem?-lt, get_elem?-some, set, Option, some, none, if◌then◌else◌,
}
use tiny_wasm.A64.{Machine}
use tiny_wasm.A64.Code.{perform_all}
use tiny_wasm.Wasm.Operands.{Entry, Operator, evaluate, same_type}
use tiny_wasm.Wasm.Operands.Emitted.{code_of}
use tiny_wasm.Wasm.Operands.Stacked.{Stacked}
use tiny_wasm.Wasm.Operands.Simulation.Operators.{code_of-Leaves}
use tiny_wasm.Wasm.Statements.{
  State, Statement, operator, access, Access, local_get, local_set, local_tee, execute, with_stack,
  fetch, assign, take_top, copy_top,
}
use tiny_wasm.Wasm.Statements.Emitted.{Layout, get_code}
use tiny_wasm.Wasm.Statements.Emitted.Bytes.{code_of_access, access_at, code_of_statement}
use tiny_wasm.Wasm.Statements.Frame.{Framed, Framed-at, Framed-length}
use tiny_wasm.Wasm.Statements.Simulation.Assignments.{set-Results, tee-Results}
use tiny_wasm.Wasm.Statements.Simulation.{Place, IsPlaced, Holds, Results, Framed-Kept, get-Results}

same_type_sound : (a b : Bool) → same_type a b ≡ true → a ≡ b
same_type_sound true true h = refl
same_type_sound false false h = refl
same_type_sound true false h = cc
same_type_sound false true h = cc

-- What `assign` gives.
assign-some :
    (n : ℕ) (o : Option Entry) (v : Entry) (rest vs : List Entry) (τ : State)
    → assign n o v rest vs ≡ some τ
    → (old : Entry) × (o ≡ some old)
      × (old.0 ≡ v.0)
      × (record { variables = set vs n v; stack = rest } ≡ τ)
assign-some n none v rest vs τ h = absurd (none-ne-some τ h)
assign-some n (some old) v rest vs τ h = typed (same_type old.0 v.0) refl h
  where
    typed :
        (t : Bool)
        → same_type old.0 v.0 ≡ t
        → (if t then some (record { variables = set vs n v; stack = rest }) else none) ≡ some τ
        → (old' : Entry) × (some old ≡ some old')
          × (old'.0 ≡ v.0)
          × (record { variables = set vs n v; stack = rest } ≡ τ)
    typed true e h = (old, refl, same_type_sound old.0 v.0 e, some-injective _ _ h)
    typed false e h = absurd (none-ne-some τ h)

module _ (p : Place) (layout : Layout) (placed : IsPlaced p layout) (s : Machine) where
  operator-Results :
      (op : Operator) (σ τ : State)
      → Holds p layout s σ
      → execute (operator op) σ ≡ some τ
      → length σ.stack ≤ p.limit
      → length τ.stack ≤ p.limit
      → Results p layout (code_of op) s τ
  operator-Results op σ τ h run few few' = which (evaluate op σ.stack) refl run
    where
      which :
          (o : Option (List Entry))
          → evaluate op σ.stack ≡ o
          → with_stack o σ ≡ some τ
          → Results p layout (code_of op) s τ
      which none e run = absurd (none-ne-some τ run)
      which (some fs) e run =
          let same : record σ { stack = fs } ≡ τ = some-injective _ _ run in
          let (stacked, kept) =
            code_of-Leaves p.base p.limit op s σ.stack fs placed.room e few
              (subst (λ t. length t.stack ≤ p.limit) (sym same) few') h.0 in
          subst (Results p layout (code_of op) s) same (
            (
              stacked,
              kept.1 ∙ h.1,
              Framed-Kept p layout placed s (perform_all (code_of op) s) σ.variables kept h.2,
            ),
            ((λ b out off. kept.0 b out), kept.2),
          )

  -- Where a variable with a value lies.
  variable-at :
      (vs : List Entry) (n : ℕ) (old : Entry)
      → Framed p.sp layout vs s.memory
      → get_elem? vs n ≡ some old
      → (o : ℕ) × (get_elem? layout n ≡ some (old.0, o))
  variable-at vs n old framed held =
      let ((wide, o), at) =
        get_elem?-some layout n (
          omega
            (arith, Framed-length p.sp layout vs s.memory framed, get_elem?-lt vs n old held)) in
      let (type, _, _) = Framed-at p.sp layout vs s.memory n (wide, o) old framed at held in
      (o, at ∙ ap (λ w. some (w, o)) type)

  get_statement :
      (n : ℕ) (σ τ : State)
      → Holds p layout s σ
      → fetch (get_elem? σ.variables n) σ ≡ some τ
      → length τ.stack ≤ p.limit
      → Results p layout (access_at local_get (get_elem? layout n)) s τ
  get_statement n σ τ h run few = which (get_elem? σ.variables n) refl run
    where
      which :
          (o : Option Entry)
          → get_elem? σ.variables n ≡ o
          → fetch o σ ≡ some τ
          → Results p layout (access_at local_get (get_elem? layout n)) s τ
      which none e run = absurd (none-ne-some τ run)
      which (some v) e run =
          let same : record σ { stack = v ∷ σ.stack } ≡ τ = some-injective _ _ run in
          let (o, at) = variable-at σ.variables n v h.2 e in
          let fits : length σ.stack < p.limit =
            subst (λ t. length t.stack ≤ p.limit) (sym same) few in
          subst (λ l. Results p layout (access_at local_get l) s τ) (sym at)
            (subst (Results p layout (get_code v.0 o) s) same
              (get-Results p layout placed s σ n o v.1 v.0 h at e fits))

  -- The two that take the top of the stack.
  assign_statement :
      (a : Access) (n : ℕ) (v : Entry) (es : List Entry) (rest : Bool → List Entry)
      (vs : List Entry) (τ : State)
      → ((wide : Bool) (o : ℕ)
          → get_elem? layout n ≡ some (wide, o)
          → Stacked p.base s ((wide, v.1) ∷ es)
          → Results p layout
              (code_of_access a wide o)
              s
              (record { variables = set vs n (wide, v.1); stack = rest wide }))
      → Stacked p.base s (v ∷ es)
      → Framed p.sp layout vs s.memory
      → assign n (get_elem? vs n) v (rest v.0) vs ≡ some τ
      → Results p layout (access_at a (get_elem? layout n)) s τ
  assign_statement a n v es rest vs τ code stacked framed run =
      let (old, held, type, same) = assign-some n (get_elem? vs n) v (rest v.0) vs τ run in
      let (o, at) = variable-at vs n old framed held in
      let at' : get_elem? layout n ≡ some (v.0, o) = at ∙ ap (λ w. some (w, o)) type in
      subst (λ l. Results p layout (access_at a l) s τ) (sym at')
        (subst (Results p layout (code_of_access a v.0 o) s) same (code v.0 o at' stacked))

  access-Results :
      (a : Access) (n : ℕ) (σ τ : State)
      → Holds p layout s σ
      → execute (access a n) σ ≡ some τ
      → length σ.stack ≤ p.limit
      → length τ.stack ≤ p.limit
      → Results p layout (access_at a (get_elem? layout n)) s τ
  access-Results local_get n σ τ h run few few' = get_statement n σ τ h run few'
  access-Results local_set n σ τ (stacked, e, framed) run few few' =
      which σ.stack refl stacked few run
    where
      which :
          (es : List Entry)
          → σ.stack ≡ es
          → Stacked p.base s es
          → length es ≤ p.limit
          → take_top n es σ ≡ some τ
          → Results p layout (access_at local_set (get_elem? layout n)) s τ
      which [] q stacked few run = absurd (none-ne-some τ run)
      which (v ∷ es) q stacked few run =
          assign_statement local_set n v es (λ w. es) σ.variables τ
            (λ wide o at top.
              set-Results p layout placed s σ.variables es n o v.1 wide few at top e framed)
            stacked framed run
  access-Results local_tee n σ τ (stacked, e, framed) run few few' =
      which σ.stack refl stacked few run
    where
      which :
          (es : List Entry)
          → σ.stack ≡ es
          → Stacked p.base s es
          → length es ≤ p.limit
          → copy_top n es σ ≡ some τ
          → Results p layout (access_at local_tee (get_elem? layout n)) s τ
      which [] q stacked few run = absurd (none-ne-some τ run)
      which (v ∷ es) q stacked few run =
          assign_statement local_tee n v es (λ w. (w, v.1) ∷ es) σ.variables τ
            (λ wide o at top.
              tee-Results p layout placed s σ.variables es n o v.1 wide few at top e framed)
            stacked framed run

  pub statement-Results :
      (st : Statement) (σ τ : State)
      → Holds p layout s σ
      → execute st σ ≡ some τ
      → length σ.stack ≤ p.limit
      → length τ.stack ≤ p.limit
      → Results p layout (code_of_statement layout st) s τ
  statement-Results (operator op) σ τ h run few few' = operator-Results op σ τ h run few few'
  statement-Results (access a n) σ τ h run few few' = access-Results a n σ τ h run few few'
