-- ===== src/Wasm/Statements/Simulation/Assignments.antt =====
-- The code that pops a value into a variable, or copies it there.
use tiny_wasm.Base.{
  ℕ, ◌<◌, ◌≡◌, sym, ap, subst, ◌∙◌, Bool, false, List, ◌∷◌, ◌++◌, length, arith, get_elem?, set,
  some,
}
use tiny_wasm.Opcode.Base.{str}
use tiny_wasm.A64.{Machine, Instruction, perform, add_sub_imm}
use tiny_wasm.A64.Code.{perform_all, perform_all-append}
use tiny_wasm.Wasm.Operands.{Entry}
use tiny_wasm.Wasm.Operands.Emitted.{pop_code}
use tiny_wasm.Wasm.Operands.Stacked.{Slots, Stacked, pop_code-Stacked}
use tiny_wasm.Wasm.Statements.{State}
use tiny_wasm.Wasm.Statements.Emitted.{Layout, access_code, set_code, tee_code, top_code}
use tiny_wasm.Wasm.Statements.Frame.{Framed}
use tiny_wasm.Wasm.Statements.Simulation.{Place, IsPlaced, Holds, KeepsRest, Results, assign-Holds}

pub KeepsRest-trans :
    (p : Place) (s t u : Machine) → KeepsRest p s t → KeepsRest p t u → KeepsRest p s u
KeepsRest-trans p s t u (m, r) (m', r') =
    ((λ b out off. m' b out off ∙ m b out off), λ n h g. r' n h g ∙ r n h g)

pub Results-append :
    (p : Place) (layout : Layout) (xs ys : List Instruction) (s : Machine) (σ : State)
    → KeepsRest p s (perform_all xs s)
    → Results p layout ys (perform_all xs s) σ
    → Results p layout (xs ++ ys) s σ
Results-append p layout xs ys s σ k (h, g) =
    subst (λ t. Holds p layout t σ × KeepsRest p s t) (sym (perform_all-append xs ys s))
      (h, KeepsRest-trans p s (perform_all xs s) (perform_all ys (perform_all xs s)) k g)

module _ (p : Place) (layout : Layout) (placed : IsPlaced p layout) (s : Machine)
    (vs es : List Entry) (n o v : ℕ) (wide : Bool) (fits : length es < p.limit)
    (at : get_elem? layout n ≡ some (wide, o)) (stacked : Stacked p.base s ((wide, v) ∷ es))
    (e : s.sp ≡ p.sp) (framed : Framed p.sp layout vs s.memory) where
  pub set-Results :
      Results p layout (set_code wide o) s (record { variables = set vs n (wide, v); stack = es })
  set-Results =
      let t = perform_all (pop_code wide 11) s in
      let (popped, x, small, memory, sp, others) =
        pop_code-Stacked p.base p.limit placed.room s es wide v 11 (omega arith) fits stacked in
      Results-append p layout (pop_code wide 11) (access_code str wide o) s
        (record { variables = set vs n (wide, v); stack = es })
        ((λ b out off. ap (λ m. m b) memory), λ k h g. others k (omega arith) g)
        (assign-Holds p layout placed t (record { variables = vs; stack = es }) es n o v wide popped
          (omega arith) (sp ∙ e) (subst (Framed p.sp layout vs) (sym memory) framed) at x small)

  pub tee-Results :
      Results p layout
        (tee_code wide o)
        s
        (record { variables = set vs n (wide, v); stack = (wide, v) ∷ es })
  tee-Results =
      let t = perform_all (pop_code wide 11) s in
      let u = perform (add_sub_imm false 21 21 8) t in
      let ((b, q, _), x, small, memory, sp, others) =
        pop_code-Stacked p.base p.limit placed.room s es wide v 11 (omega arith) fits stacked in
      let room = placed.room in
      let memory' : u.memory ≡ s.memory = memory in
      let again : Stacked p.base u ((wide, v) ∷ es) =
        (b, (omega arith), subst (Slots p.base ((wide, v) ∷ es)) (sym memory') stacked.2) in
      Results-append p layout (top_code wide) (access_code str wide o) s
        (record { variables = set vs n (wide, v); stack = (wide, v) ∷ es })
        ((λ b out off. ap (λ m. m b) memory), λ k h g. ground (arith, others k (omega arith) g))
        (assign-Holds p layout placed u (record { variables = vs; stack = (wide, v) ∷ es })
          ((wide, v) ∷ es) n o v wide again fits (sp ∙ e)
          (subst (Framed p.sp layout vs) (sym memory') framed) at x small)
