-- ===== src/Footprint.antt =====
-- What a command may touch: the one structure that its word names, the libdtrace handle of that
-- structure, and the interpreter's result; and what follows for the handles that are open.
pub mod Helpers
pub mod Commands
pub mod Subjects
pub mod Touching
pub mod Owners
pub mod Entries
pub mod Opening
pub mod Leaks
pub mod Serving
pub mod Called
pub mod Scripted
pub mod Nesting
pub mod Independence
use tcldtrace.Prelude.{
  ℕ, ◌+◌, ◌≡◌, refl, none, some, List, Bytes, ℤ, lookup, insert, lookup-insert, Bool-cases, inl,
  inr, ◌==◌, arith,
}
use tcldtrace.State.{Value, HandleData, World, Out, M, done, panic, fault, bind, handle_of}
use tcldtrace.Api.{Env}

-- One call of libdtrace through a handle, with what it does to libdtrace's state.
pub data LibCall {D : Type 0} (env : Env D) (h : ℕ) (d : D) : D → Type 0 where
  setopt : (name value : Bytes) → LibCall env h d (env.dtrace_setopt h name value d).1
  handle_err : (a : ℕ) → LibCall env h d (env.dtrace_handle_err h a d).1
  handle_drop : (a : ℕ) → LibCall env h d (env.dtrace_handle_drop h a d).1
  handle_proc : (a : ℕ) → LibCall env h d (env.dtrace_handle_proc h a d).1
  handle_buffered : (a : ℕ) → LibCall env h d (env.dtrace_handle_buffered h a d).1
  strcompile :
      (source : Bytes) (words : List Bytes)
      → LibCall env h d (env.dtrace_program_strcompile h source words d).1
  program_exec : (p : ℕ) → LibCall env h d (env.dtrace_program_exec h p d).1
  program_info : (p : ℕ) → LibCall env h d (env.dtrace_program_info h p d).1
  starts : LibCall env h d (env.dtrace_go h d).1
  stops : LibCall env h d (env.dtrace_stop h d).1
  proc_grab : (pid : ℤ) → LibCall env h d (env.dtrace_proc_grab h pid d).1
  proc_create : (words : List Bytes) → LibCall env h d (env.dtrace_proc_create h words d).1
  proc_continue : (p : ℕ) → LibCall env h d (env.dtrace_proc_continue h p d)

-- What may be done, in any order and number, for the structure at an address with a libdtrace handle:
-- calls through that handle, writes to that structure that keep the handle, programs registered for
-- it, references counted, and the interpreter's result and error code set.
pub data Acts {D : Type 0} (env : Env D) (a h : ℕ) (w : World D) : World D → Type 0 where
  at_rest : Acts env a h w w
  calls :
      {v : World D} {d : D}
      → Acts env a h w v
      → LibCall env h v.lib d
      → Acts env a h w (record v { lib = d })
  writes :
      {v : World D} (hd : HandleData)
      → Acts env a h w v
      → hd.handle ≡ some h
      → Acts env a h w (record v { heap = insert a hd v.heap })
  registers :
      {v : World D} (compiled : ℕ)
      → Acts env a h w v
      → Acts env a h w (record v {
        programs = insert v.next_free_pid (record { compiled = compiled; hd = a }) v.programs;
        next_free_pid = v.next_free_pid + 1;
      })
  counts :
      {v : World D} (refs : ℕ → ℕ) → Acts env a h w v → Acts env a h w (record v { refs = refs })
  says :
      {v : World D} (result : Value) (error_code : List Bytes)
      → Acts env a h w v
      → Acts env a h w (record v { result = result; error_code = error_code })

-- The structure is live and has the handle.
abbrev pub IsHeld : {D : Type 0} → ℕ → ℕ → World D → Type 0
IsHeld a h w = (hd : HandleData) × (lookup a w.heap ≡ some hd) × (hd.handle ≡ some h)

module _ {D : Type 0} {env : Env D} {a h : ℕ} {w : World D} (open_at : IsHeld a h w) where
  pub Acts-IsHeld : {v : World D} → Acts env a h w v → IsHeld a h v
  Acts-IsHeld at_rest = open_at
  Acts-IsHeld (calls t c) = Acts-IsHeld t
  Acts-IsHeld (writes {v = v} hd t e) = (hd, ground (arith, lookup-insert a a hd v.heap), e)
  Acts-IsHeld (registers compiled t) = Acts-IsHeld t
  Acts-IsHeld (counts refs t) = Acts-IsHeld t
  Acts-IsHeld (says result error_code t) = Acts-IsHeld t

  -- What the code reads as the handle of the structure.
  pub Acts-handle_of : {v : World D} → Acts env a h w v → handle_of a v ≡ done h v
  Acts-handle_of t = let (hd, l, e) = Acts-IsHeld t in rw (l, handle_of) (rw (e, handle_of) refl)

-- What holds of a result, if there is one.
abbrev pub Ok : {D A : Type 0} → (A → World D → Type 0) → Out D A → Type 0
Ok Q (done a w) = Q a w
Ok Q (panic m) = Unit
Ok Q fault = Unit

pub Ok-bind :
    {D A B : Type 0} (Q : A → World D → Type 0) (R : B → World D → Type 0) (m : Out D A)
    (f : A → M D B)
    → Ok Q m
    → ((a : A) (w : World D) → Q a w → Ok R (f a w))
    → Ok R (bind m f)
Ok-bind Q R (done a w) f q k = k a w q
Ok-bind Q R (panic m) f q k = tt
Ok-bind Q R fault f q k = tt
