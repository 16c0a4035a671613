-- ===== src/Footprint/Nesting.antt =====
-- Scripts that nest keep the owners of libdtrace's open handles.
use tcldtrace.Prelude.{ℕ, zero, suc, Bool, List}
use tcldtrace.State.{Value, World, M}
use tcldtrace.Api.{Env}
use tcldtrace.Commands.Dispatch.{run_command}
use tcldtrace.Scripts.{Script, ends, invokes, play, evaluating, nested, reset}
use tcldtrace.Footprint.{
  LibCall, setopt, handle_err, handle_drop, handle_proc, handle_buffered, strcompile, program_exec,
  program_info, starts, stops, proc_grab, proc_create, proc_continue,
}
use tcldtrace.Footprint.Owners.{OpenLaws, OwnedIn}
use tcldtrace.Footprint.Leaks.{IsOwner, OwnedIn-IsOwner}
use tcldtrace.Footprint.Serving.{CallingLaws, IsTidy, Keeps, Keeps-bind}
use tcldtrace.Footprint.Scripted.{Session, Session-OwnedIn, run_command-Keeps}

module _ {D : Type 0} (env : Env D) (live : ℕ → D → Bool) where
  same_calls :
      (eval : List Value → M D Bool) {h : ℕ} {d d' : D}
      → LibCall (evaluating eval env) h d d'
      → LibCall env h d d'
  same_calls eval (setopt name value) = setopt name value
  same_calls eval (handle_err a) = handle_err a
  same_calls eval (handle_drop a) = handle_drop a
  same_calls eval (handle_proc a) = handle_proc a
  same_calls eval (handle_buffered a) = handle_buffered a
  same_calls eval (strcompile source words) = strcompile source words
  same_calls eval (program_exec p) = program_exec p
  same_calls eval (program_info p) = program_info p
  same_calls eval starts = starts
  same_calls eval stops = stops
  same_calls eval (proc_grab pid) = proc_grab pid
  same_calls eval (proc_create words) = proc_create words
  same_calls eval (proc_continue p) = proc_continue p

  -- The laws of libdtrace do not depend on the scripts.
  evaluating-OpenLaws :
      (eval : List Value → M D Bool) → OpenLaws env live → OpenLaws (evaluating eval env) live
  evaluating-OpenLaws eval laws = record {
    opening = laws.opening;
    failing = laws.failing;
    closing = laws.closing;
    steady = λ h k d d' c. laws.steady h k d d' (same_calls eval c);
  }

  evaluating-CallingLaws :
      (eval : List Value → M D Bool) → CallingLaws env live → CallingLaws (evaluating eval env) live
  evaluating-CallingLaws eval laws = record {
    sleep = laws.sleep;
    work = laws.work;
    print = laws.print;
    stmt_iter = laws.stmt_iter;
    probe_iter = laws.probe_iter;
  }

  play-Keeps :
      (script : Script D) (w : World D)
      → OpenLaws env live
      → CallingLaws env live
      → IsTidy env live
      → OwnedIn live w
      → Keeps live (play env script w)
  play-Keeps (ends good) w opens laws tidy o = o
  play-Keeps (invokes command objv rest) w opens laws tidy o =
      Keeps-bind live (run_command env command objv (reset w)) _
        (run_command-Keeps env live opens laws tidy command objv (reset w) o)
        λ code v q. play-Keeps (rest code v) v opens laws tidy q

module _ {D : Type 0} (env : Env D) (live : ℕ → D → Bool) (procs : List Value → Script D)
    (opens : OpenLaws env live) (laws : CallingLaws env live) where
  pub nested-OpenLaws : (depth : ℕ) → OpenLaws (nested depth procs env) live
  nested-OpenLaws zero = evaluating-OpenLaws env live _ opens
  nested-OpenLaws (suc depth) = evaluating-OpenLaws env live _ opens

  nested-CallingLaws : (depth : ℕ) → CallingLaws (nested depth procs env) live
  nested-CallingLaws zero = evaluating-CallingLaws env live _ laws
  nested-CallingLaws (suc depth) = evaluating-CallingLaws env live _ laws

  nested-IsTidy : (depth : ℕ) → IsTidy (nested depth procs env) live
  nested-IsTidy zero = λ objv w o. o
  nested-IsTidy (suc depth) = λ objv w o.
      play-Keeps (nested depth procs env) live (procs objv) w (nested-OpenLaws depth)
        (nested-CallingLaws depth) (nested-IsTidy depth) o

  pub nested-OwnedIn :
      (depth : ℕ) (w : World D) → Session (nested depth procs env) live w → OwnedIn live w
  nested-OwnedIn depth w s =
      Session-OwnedIn (nested depth procs env) live (nested-OpenLaws depth)
        (nested-CallingLaws depth) (nested-IsTidy depth) w s

  -- Where libdtrace opens and closes handles as documented, and the callbacks evaluate scripts that call
  -- whatever commands and nest to whatever depth: after any calls of commands, with whatever arguments
  -- and whether they succeed or fail, a libdtrace handle is open exactly if some live structure has
  -- it, every live structure has one, and no two have the same.
  pub nested-IsOwner :
      (depth : ℕ) (w : World D) → Session (nested depth procs env) live w → IsOwner live w
  nested-IsOwner depth w s = OwnedIn-IsOwner live w (nested-OwnedIn depth w s)
