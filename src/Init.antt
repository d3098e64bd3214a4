-- ===== src/Init.antt =====
-- kern/init.c: the operations that initialise the kernel, sorted by their dependencies and run. An
-- operation is a number, `deps` has the dependencies of each, `fn` its function, and the section of the
-- operations is a list. A failed assertion is `none`, and so is a halted processor.
pub mod Count
pub mod Visit
pub mod Scan
pub mod Run
pub mod Setup
mod Tests
use x.Prelude.{
  ℕ, zero, suc, ◌+◌, ◌-◌, ◌%◌, Bool, true, false, not, ◌&&◌, ◌||◌, List, [], ◌∷◌, Option, none,
  some, ◌==◌, if◌then◌else◌, update, length, ◌>>=◌,
}

pub record Dep : Type 0 where
  pub op : ℕ
  pub required : Bool

pub data OpState : Type 0 where
  unlinked pending complete : OpState

abbrev pub is_unlinked : OpState → Bool
is_unlinked unlinked = true
is_unlinked pending = false
is_unlinked complete = false

abbrev pub is_pending : OpState → Bool
is_pending unlinked = false
is_pending pending = true
is_pending complete = false

abbrev pub is_complete : OpState → Bool
is_complete unlinked = false
is_complete pending = false
is_complete complete = true

-- the members of the operations, the stack of the sort, and the list that it makes, with its size
pub record Sort : Type 0 where
  pub nr_parents : ℕ → ℕ
  pub states : ℕ → OpState
  pub stack : List ℕ
  pub ops : List ℕ
  pub size : ℕ

-- the loop of `init_op_init`, on `unsigned char` counts
pub add_parents : List Dep → (ℕ → ℕ) → Option (ℕ → ℕ)
add_parents [] nr_parents = some nr_parents
add_parents (dep ∷ deps) nr_parents =
    let n = (nr_parents dep.op + 1) % 256 in
    let rest = add_parents deps (update nr_parents dep.op n) in if n == 0 then none else rest

pub bootstrap : (ℕ → List Dep) → List ℕ → (ℕ → ℕ) → Option (ℕ → ℕ)
bootstrap deps [] nr_parents = some nr_parents
bootstrap deps (op ∷ section) nr_parents =
    add_parents (deps op) nr_parents >>= bootstrap deps section

-- `init_scan_roots`
pub scan_roots : (ℕ → ℕ) → List ℕ → List ℕ → List ℕ
scan_roots nr_parents [] stack = stack
scan_roots nr_parents (op ∷ section) stack =
    scan_roots nr_parents section (if nr_parents op == 0 then op ∷ stack else stack)

pub add_pending_op : Sort → ℕ → Option Sort
add_pending_op s op =
    if is_unlinked (s.states op)
    then some
        (record s { states = update s.states op pending; ops = op ∷ s.ops; size = s.size + 1 })
    else none

-- what `init_op_visit` does for a dependency
abbrev pub drop_parent : Sort → ℕ → Sort
drop_parent s op = record s {
  nr_parents = update s.nr_parents op (s.nr_parents op - 1);
  stack = if s.nr_parents op - 1 == 0 then op ∷ s.stack else s.stack;
}

pub visit : List Dep → Sort → Option Sort
visit [] s = some s
visit (dep ∷ deps) s =
    let rest = visit deps (drop_parent s dep.op) in if s.nr_parents dep.op == 0 then none else rest

-- The loop of `init_scan_ops`, on fuel.
pub scan : (ℕ → List Dep) → ℕ → Sort → Option Sort
scan deps zero s = none
scan deps (suc fuel) s = elim (s.stack) [
  | [] ↦ some s
  | op ∷ stack ↦
      add_pending_op (record s { stack = stack }) op >>= visit (deps op) >>= scan deps fuel
]

pub scan_ops : (ℕ → List Dep) → ℕ → List ℕ → (ℕ → ℕ) → (ℕ → OpState) → Option Sort
scan_ops deps fuel section nr_parents states =
    scan deps fuel (record {
      nr_parents = nr_parents;
      states = states;
      stack = scan_roots nr_parents section [];
      ops = [];
      size = 0;
    })
    >>= λ s. if s.size == length section then some s else none

-- the loop of `init_op_ready`
pub ready : (ℕ → OpState) → (ℕ → ℕ) → List Dep → Bool
ready states errors [] = true
ready states errors (dep ∷ deps) =
    if not (is_complete (states dep.op)) || (dep.required && not (errors dep.op == 0))
    then false
    else ready states errors deps

pub record Ran : Type 0 where
  pub states : ℕ → OpState
  pub errors : ℕ → ℕ

-- `init_op_run`
pub run_op : (ℕ → List Dep) → (ℕ → ℕ) → Ran → ℕ → Option Ran
run_op deps fn r op =
    if is_pending (r.states op)
    then some (record {
      states = update r.states op complete;
      errors = if ready r.states r.errors (deps op) then update r.errors op (fn op) else r.errors;
    })
    else none

pub run_ops : (ℕ → List Dep) → (ℕ → ℕ) → List ℕ → Ran → Option Ran
run_ops deps fn [] r = some r
run_ops deps fn (op ∷ ops) r = run_op deps fn r op >>= run_ops deps fn ops

-- `EAGAIN`, the error that `INIT_OP_DEFINE` gives an operation before it runs
abbrev pub initial_error : ℕ
initial_error = 2

-- `init_setup`, with the members of the operations as `INIT_OP_DEFINE` sets them
pub setup : (ℕ → List Dep) → (ℕ → ℕ) → List ℕ → Option Ran
setup deps fn section = bootstrap deps section (λ op. 0) >>= λ nr_parents.
    scan_ops deps (length section + 1) section nr_parents (λ op. unlinked) >>= λ s.
    run_ops deps fn s.ops (record { states = s.states; errors = λ op. initial_error })
