-- ===== src/Safety/Scope.antt =====
-- The abstract view of the extension's tables, and what a proof about a computation is relative to.
use tcldtrace.Prelude.{ℕ, ◌+◌, ◌≡◌, none, some, [], Dict, lookup, insert, erase}
use tcldtrace.State.{ProgramData, World}

-- What the commands keep in the interpreter: the two tables and the two counters, without the
-- structures, the results and libdtrace.
pub record View : Type 0 where
  pub handles : Dict ℕ
  pub programs : Dict ProgramData
  pub next_id : ℕ
  pub next_pid : ℕ

abbrev pub view : {D : Type 0} → World D → View
view w = record {
  handles = w.handles;
  programs = w.programs;
  next_id = w.next_free_id;
  next_pid = w.next_free_pid;
}

-- The three changes of the tables: a handle under the next number, a handle taken with all programs,
-- and a program under the next number.
abbrev pub added : View → View
added v = record v { handles = insert v.next_id v.next_id v.handles; next_id = v.next_id + 1 }

abbrev pub dropped : ℕ → View → View
dropped a v = record v { handles = erase a v.handles; programs = [] }

abbrev pub registered_for : ℕ → ℕ → View → View
registered_for a compiled v = record v {
  programs = insert v.next_pid (record { compiled = compiled; hd = a }) v.programs;
  next_pid = v.next_pid + 1;
}

-- What a proof about a computation is relative to: what a panic or something undefined proves, what is known of the tables,
-- and how many references on each object are owed to others than the entries of the handles.
pub record Scope : Type 1 where
  pub panics : Type 0
  pub frame : View → Type 0
  pub owed : ℕ → ℕ

-- A frame that the changes of the tables cannot leave.
pub record IsClosed (F : View → Type 0) : Type 0 where
  pub adds : (v : View) → F v → lookup v.next_id v.handles ≡ none → F (added v)
  pub drops : (v : View) (a : ℕ) → F v → lookup a v.handles ≡ some a → F (dropped a v)
  pub registers :
      (v : View) (a compiled : ℕ)
      → F v
      → lookup a v.handles ≡ some a
      → lookup v.next_pid v.programs ≡ none
      → F (registered_for a compiled v)
