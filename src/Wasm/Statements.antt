-- ===== src/Wasm/Statements.antt =====
-- The operators of WebAssembly and its accesses to variables, as its specification gives them: the
-- variables of a function are its parameters and then its locals.
pub mod Emitted
pub mod Frame
pub mod Loop
pub mod Programs
pub mod Prologue
pub mod Epilogue
pub mod Simulation
use tiny_wasm.Base.{ℕ, List, [], ◌∷◌, Option, some, none, get_elem?, set, Bool, if◌then◌else◌}
use tiny_wasm.Wasm.Operands.{Entry, Operator, evaluate, same_type}

pub data Access : Type 0 where
  local_get local_set local_tee : Access

pub data Statement : Type 0 where
  operator : Operator → Statement
  access : Access → ℕ → Statement

-- The values of the variables, and the stack.
pub record State : Type 0 where
  pub variables : List Entry
  pub stack : List Entry

abbrev pub fetch : Option Entry → State → Option State
fetch none σ = none
fetch (some v) σ = some (record σ { stack = v ∷ σ.stack })

-- The top of the stack has the type of the variable, `old`; `rest` is what is left on the stack.
abbrev pub assign : ℕ → Option Entry → Entry → List Entry → List Entry → Option State
assign n none v rest vs = none
assign n (some old) v rest vs =
    if same_type old.0 v.0 then some (record { variables = set vs n v; stack = rest }) else none

abbrev pub with_stack : Option (List Entry) → State → Option State
with_stack none σ = none
with_stack (some es) σ = some (record σ { stack = es })

abbrev pub take_top : ℕ → List Entry → State → Option State
take_top n [] σ = none
take_top n (v ∷ es) σ = assign n (get_elem? σ.variables n) v es σ.variables

abbrev pub copy_top : ℕ → List Entry → State → Option State
copy_top n [] σ = none
copy_top n (v ∷ es) σ = assign n (get_elem? σ.variables n) v (v ∷ es) σ.variables

abbrev pub access_variable : Access → ℕ → State → Option State
access_variable local_get n σ = fetch (get_elem? σ.variables n) σ
access_variable local_set n σ = take_top n σ.stack σ
access_variable local_tee n σ = copy_top n σ.stack σ

abbrev pub execute : Statement → State → Option State
execute (operator op) σ = with_stack (evaluate op σ.stack) σ
execute (access a n) σ = access_variable a n σ
