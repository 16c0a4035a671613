-- ===== src/Safety/Laws.antt =====
-- What the extension relies on in its environment, as hypotheses: that libdtrace reaches the state of
-- the extension only by calling back, and that a Tcl function finds a word at a position of its table.
use tcldtrace.Prelude.{length, ℕ, ◌<◌, ◌≡◌, Option, List, Bytes}
use tcldtrace.State.{Obj, parsed, Value, World, M}
use tcldtrace.Api.{Env, ProbeDesc, StmtDesc, Call, Reply}
use tcldtrace.Safety.Scope.{Scope, IsClosed}
use tcldtrace.Safety.Invariant.{Post, Inv}

-- A predicate on the state that a change of libdtrace's own state cannot touch.
abbrev pub IsOwn : {D : Type 0} → (World D → Type 0) → Type 0
IsOwn {D} P = (w : World D) (d : D) → P w → P (record w { lib = d })

-- What a function that serves events leaves, where the function that it calls leaves it.
abbrev pub Serves : {D A : Type 0} → ((Call → M D Reply) → M D A) → Type 1
Serves {D} serve =
    (s : Scope) (call : Call → M D Reply) (P : World D → Type 0)
    → IsOwn P
    → ((c : Call) (w : World D) → P w → Post s (λ _. P) (call c w))
    → (w : World D) → P w
    → Post s (λ _. P) (serve call w)

pub record Laws {D : Type 0} (env : Env D) : Type 1 where
  pub sleep_keeps : (h : ℕ) → Serves (env.dtrace_sleep h)
  pub work_keeps : (h : ℕ) → Serves (env.dtrace_work h)
  pub print_keeps : (h : ℕ) → Serves (env.dtrace_aggregate_print h)
  pub stmt_iter_keeps :
      (s : Scope) (h program : ℕ) (call : StmtDesc → Option ℕ → M D (Option ℕ)) (last : Option ℕ)
      (P : World D → Type 0)
      → IsOwn P
      → ((st : StmtDesc) (l : Option ℕ) (w : World D) → P w → Post s (λ _. P) (call st l w))
      → (w : World D) → P w
      → Post s (λ _. P) (env.dtrace_stmt_iter h program call last w)
  pub probe_iter_keeps :
      (s : Scope) (h : ℕ) (pdesc : ProbeDesc) (call : ProbeDesc → M D Reply) (P : World D → Type 0)
      → IsOwn P
      → ((d : ProbeDesc) (w : World D) → P w → Post s (λ _. P) (call d w))
      → (w : World D) → P w
      → Post s (λ _. P) (env.dtrace_probe_iter h pdesc call w)
  -- `Tcl_GetIndexFromObj` gives a position in its table.
  pub index_within :
      (o : Obj) (table : List Bytes) (what : Bytes) (k : ℕ)
      → env.get_index o table what ≡ parsed k
      → k < length table

-- The scripts that callbacks evaluate keep the invariant and change the tables as the commands do.
abbrev pub IsOrderly : {D : Type 0} → Env D → Type 1
IsOrderly {D} env =
    (s : Scope)
    → s.panics
    → IsClosed s.frame
    → (objv : List Value) (w : World D) → Inv s w
    → Post s (λ _. Inv s) (env.eval_objv objv w)
