-- ===== src/Scripts.antt =====
-- Scripts that call the commands of generic/dtrace.c and nest: a callback of a command that a script
-- calls evaluates a script in turn, and so on, to a depth that Tcl bounds.
use tcldtrace.Prelude.{ℕ, zero, suc, Bool, false, List, []}
use tcldtrace.State.{Obj, Value, World, Code, M, pure, bind, str}
use tcldtrace.Api.{Env}
use tcldtrace.Commands.Dispatch.{Command, run_command}

-- The interpreter's part before each command.
abbrev pub reset : {D : Type 0} → World D → World D
reset w = record w { result = str [] }

-- What a script does with the commands: it ends, well or not, or calls one and goes on by what that
-- returned and left.
pub data Script (D : Type 0) : Type 0 where
  ends : Bool → Script D
  invokes : Command → List Obj → (Code → World D → Script D) → Script D

module _ {D : Type 0} where
  abbrev pub play : Env D → Script D → M D Bool
  play env (ends good) w = pure good w
  play env (invokes command objv rest) w =
      bind (run_command env command objv (reset w)) (λ code v. play env (rest code v) v)

  -- The environment with other scripts.
  abbrev pub evaluating : (List Value → M D Bool) → Env D → Env D
  evaluating eval env = record env { eval_objv = eval }

  -- The scripts that the words of a callback stand for, where at most so many may nest: past that
  -- Tcl evaluates nothing and reports an error.
  abbrev pub nested : ℕ → (List Value → Script D) → Env D → Env D
  nested zero procs env = evaluating (λ objv. pure false) env
  nested (suc depth) procs env = evaluating (λ objv. play (nested depth procs env) (procs objv)) env
