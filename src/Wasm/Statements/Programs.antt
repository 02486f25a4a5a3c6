-- ===== src/Wasm/Statements/Programs.antt =====
-- Statements one after the other: the rounds of the compiler's loop on their bytes, and the run of the words
-- that it appends.
use mathlib.Core.Option.{bind}
use tiny_wasm.Base.{ℕ, List, [], ◌∷◌, length, Option, some, none, leb, if◌then◌else◌}
use tiny_wasm.Base.Text.{Text}
use tiny_wasm.Wasm.Statements.{State, Statement, execute}

-- The statements in their order, as long as no more than `limit` entries are on the stack.
abbrev pub bounded_state : ℕ → State → Option State
bounded_state limit σ = if leb (length σ.stack) limit then some σ else none

abbrev pub execute_all : ℕ → List Statement → State → Option State
execute_all limit [] σ = some σ
execute_all limit (st ∷ sts) σ =
    bind (execute st σ) λ τ. bind (bounded_state limit τ) (execute_all limit sts)
