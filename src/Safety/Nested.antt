-- ===== src/Safety/Nested.antt =====
-- Scripts that call the commands of generic/dtrace.c, and whose callbacks do so in turn, keep the
-- invariant.
use tcldtrace.Prelude.{ℕ, zero, suc, Bool, List, [], ◌∷◌}
use tcldtrace.State.{Obj, Value, World, Code, Out, M, done, panic, fault}
use tcldtrace.Api.{Env}
use tcldtrace.Commands.Dispatch.{Command, run_command}
use tcldtrace.Scripts.{Script, ends, invokes, play, evaluating, nested, reset}
use tcldtrace.Safety.Commands.{IsNamed}
use tcldtrace.Safety.Scope.{Scope, IsClosed, view}
use tcldtrace.Safety.Invariant.{Post, Inv, reframe}
use tcldtrace.Safety.Laws.{Laws, IsOrderly}
use tcldtrace.Safety.Options.{AllFilled}
use tcldtrace.Safety.Running.{IsCall}
use tcldtrace.Safety.Steps.{Step-frame}
use tcldtrace.Safety.Callbacks.{Kept, Kept-bind}
use tcldtrace.Safety.Stepping.{since, Anything, Stepped, run_command-Stepped}

any_filled : {X : Type 0} → X → (objv : List Obj) → AllFilled X objv
any_filled x [] = tt
any_filled x (o ∷ objv) = ((λ e. x), any_filled x objv)

-- Where whatever ends a computation abnormally is accepted, any words make a call.
pub any_IsCall : {D X : Type 0} → X → (objv : List Obj) (w : World D) → IsCall X objv w
any_IsCall x objv w = record {
  named = λ e. x;
  filled = any_filled x objv;
  id_room = λ full. x;
  pid_room = λ full. x;
}

module _ {D : Type 0} (env : Env D) (laws : Laws env) (orderly : IsOrderly env) (s : Scope)
    (p : s.panics) (closed : IsClosed s.frame) where
  run_command-Kept :
      (command : Command) (objv : List Obj) (w : World D)
      → Inv s w
      → Kept s (run_command env command objv w)
  run_command-Kept command objv w inv = framed (run_command env command objv w) (
      run_command-Stepped env laws orderly s.panics s.owed command objv w (λ _. p)
        (any_IsCall p objv w) (reframe s (since s.panics s.owed Anything) (λ f. tt) (λ n k. k) inv))
    where
      framed :
          (m : Out D Code)
          → Post
              (since s.panics s.owed Anything)
              (Stepped env laws orderly s.panics s.owed (IsNamed env objv) (view w) command)
              m
          → Kept s m
      framed (done code v) (inv', step) =
          reframe (since s.panics s.owed Anything) s
            (λ _. Step-frame s.frame closed inv.framed command code (view v) step) (λ n k. k) inv'
      framed (panic m) x = x
      framed fault x = x

  play-Kept : (script : Script D) (w : World D) → Inv s w → Kept s (play env script w)
  play-Kept (ends good) w inv = inv
  play-Kept (invokes command objv rest) w inv =
      Kept-bind s (run_command env command objv (reset w)) _
        (run_command-Kept command objv (reset w) inv) λ code v q. play-Kept (rest code v) v q

module _ {D : Type 0} (env : Env D) (procs : List Value → Script D) (laws : Laws env) where
  evaluating-Laws : (eval : List Value → M D Bool) → Laws (evaluating eval env)
  evaluating-Laws eval = record {
    sleep_keeps = laws.sleep_keeps;
    work_keeps = laws.work_keeps;
    print_keeps = laws.print_keeps;
    stmt_iter_keeps = laws.stmt_iter_keeps;
    probe_iter_keeps = laws.probe_iter_keeps;
    index_within = laws.index_within;
  }

  pub nested-Laws : (depth : ℕ) → Laws (nested depth procs env)
  nested-Laws zero = evaluating-Laws _
  nested-Laws (suc depth) = evaluating-Laws _

  pub nested-IsOrderly : (depth : ℕ) → IsOrderly (nested depth procs env)
  nested-IsOrderly zero = λ s p closed objv w inv. inv
  nested-IsOrderly (suc depth) = λ s p closed objv w inv.
      play-Kept (nested depth procs env) (nested-Laws depth) (nested-IsOrderly depth) s p closed
        (procs objv) w inv
