-- ===== src/Safety/Stepping.antt =====
-- One command as a step of the abstract machine on the tables.
use tcldtrace.Prelude.{
  ℕ, ◌≡◌, refl, true, some, List, arith, none, sym, lookup, length, leb, ◌==◌, text, subst,
}
use tcldtrace.State.{Obj, Code, World, Out, done, fault, panic, tcl_ok, tcl_error}
use tcldtrace.Api.{Env}
use tcldtrace.Commands.Open.{close, close_handle}
use tcldtrace.Commands.Programs.{compile, compile_handle}
use tcldtrace.Commands.Dispatch.{Command, run_command}
use tcldtrace.Safety.Invariant.{Post, Inv, reframe}
use tcldtrace.Safety.Laws.{Laws, IsOrderly}
use tcldtrace.Safety.Commands.{IsNamed, handle_command-Inv, compile_handle-After}
use tcldtrace.Safety.Opening.{open_command-Inv}
use tcldtrace.Safety.Closing.{close_handle-After}
use tcldtrace.Safety.Scope.{Scope, View, view, added, dropped, registered_for}
use tcldtrace.Safety.Steps.{
  Changes, here, Changes-IsClosed, Step, opened, refused, reopened, closed, kept, compiled,
  rejected, plain, scripted, IsPlain, calls_back,
}
use tcldtrace.Safety.Running.{IsCall, scripted-Inv, plain-Inv}

-- What a panic proves and what is owed, with nothing known of the tables but the steps that led to
-- them.
abbrev pub since : Type 0 → (ℕ → ℕ) → (View → Type 0) → Scope
since X owed F = record { panics = X; frame = F; owed = owed }

abbrev pub Anything : View → Type 0
Anything v = Unit

module _ {D : Type 0} (env : Env D) (laws : Laws env) (orderly : IsOrderly env) (X : Type 0)
    (owed : ℕ → ℕ) where
  -- The invariant, and that the tables are where a step of the command leads.
  abbrev pub Stepped : (ℕ → Type 0) → View → Command → Code → World D → Type 0
  Stepped names r command code w =
      Inv (since X owed Anything) w × Step names r command code (view w)

  ended :
      (names : ℕ → Type 0) (r : View) (command : Command) (m : Out D Code)
      → Post (since X owed Anything) (λ code. Inv (since X owed (Step names r command code))) m
      → Post (since X owed Anything) (Stepped names r command) m
  ended names r command (done code w) inv = (
    reframe (since X owed (Step names r command code)) (since X owed Anything) (λ f. tt) (λ n c. c)
        inv,
    inv.framed,
  )
  ended names r command (panic m) x = x
  ended names r command fault x = x

  renamed :
      (F : View → Type 0) (G : Code → View → Type 0)
      → ((code : Code) (v : View) → F v → G code v)
      → (m : Out D Code) → Post (since X owed F) (λ _. Inv (since X owed F)) m
      → Post (since X owed Anything) (λ code. Inv (since X owed (G code))) m
  renamed F G sub (done code w) inv =
      reframe (since X owed F) (since X owed (G code)) (λ f. sub code (view w) f) (λ n c. c) inv
  renamed F G sub (panic m) x = x
  renamed F G sub fault x = x

  abbrev Start : World D → Type 0
  Start w = Inv (since X owed (λ v. view w ≡ v)) w

  starting : (w : World D) → Inv (since X owed Anything) w → Start w
  starting w inv =
      reframe (since X owed Anything) (since X owed (λ v. view w ≡ v)) (λ _. refl) (λ n c. c) inv

  plain-Step :
      (command : Command)
      → IsPlain command
      → (objv : List Obj) (w : World D) → IsCall X objv w
      → Start w
      → Post
          (since X owed Anything)
          (λ code. Inv (since X owed (Step (IsNamed env objv) (view w) command code)))
          (run_command env command objv w)
  plain-Step command p objv w c inv =
      renamed (λ v. view w ≡ v) (Step (IsNamed env objv) (view w) command)
        (λ code v e. subst (Step (IsNamed env objv) (view w) command code) e (plain code p))
        (run_command env command objv w)
        (plain-Inv env laws orderly command p (since X owed (λ v. view w ≡ v)) objv w c inv)

  scripted-Step :
      (command : Command)
      → calls_back command ≡ true
      → X
      → (objv : List Obj) (w : World D) → IsCall X objv w
      → Inv (since X owed Anything) w
      → Post
          (since X owed Anything)
          (λ code. Inv (since X owed (Step (IsNamed env objv) (view w) command code)))
          (run_command env command objv w)
  scripted-Step command q x objv w c inv =
      renamed (Changes (view w)) (Step (IsNamed env objv) (view w) command)
        (λ code v changes. scripted code q changes) (run_command env command objv w)
        (scripted-Inv env laws orderly command q (since X owed (Changes (view w))) x
          (Changes-IsClosed (view w)) objv w c
          (reframe (since X owed Anything) (since X owed (Changes (view w))) (λ _. here) (λ n c. c)
            inv))

  open-Step :
      (objv : List Obj) (w : World D)
      → IsCall X objv w
      → Start w
      → Post
          (since X owed Anything)
          (λ code. Inv (since X owed (Step (IsNamed env objv) (view w) Command.opens code)))
          (run_command env Command.opens objv w)
  unfolding run_command
  open-Step objv w c inv =
      open_command-Inv env (since X owed (λ v. view w ≡ v))
        (Step (IsNamed env objv) (view w) Command.opens)
        (λ v e. subst (Step (IsNamed env objv) (view w) Command.opens tcl_error) e refused)
        (λ v e fresh. (
          subst (λ u. Step (IsNamed env objv) (view w) Command.opens tcl_ok (added u)) e
              (opened (subst (λ u. lookup u.next_id u.handles ≡ none) (sym e) fresh)),
          subst
              (λ u.
                Step (IsNamed env objv) (view w) Command.opens tcl_error
                  (dropped u.next_id (added u)))
              e (reopened (subst (λ u. lookup u.next_id u.handles ≡ none) (sym e) fresh)),
        ))
        objv w c.named c.filled c.id_room inv

  close-Step :
      (objv : List Obj) (w : World D)
      → IsCall X objv w
      → Start w
      → Post
          (since X owed Anything)
          (λ code. Inv (since X owed (Step (IsNamed env objv) (view w) Command.closes code)))
          (run_command env Command.closes objv w)
  unfolding run_command close
  close-Step objv w c inv =
      handle_command-Inv env (since X owed (λ v. view w ≡ v))
        (Step (IsNamed env objv) (view w) Command.closes)
        (λ v e. subst (Step (IsNamed env objv) (view w) Command.closes tcl_error) e kept) objv
        (text "handle") (length objv == 2) (λ _. close_handle env) w (λ h. ground arith) inv
        (λ name a w' _ names g.
          close_handle-After env (since X owed (λ v. view w ≡ v)) a
            (Step (IsNamed env objv) (view w) Command.closes)
            (λ v e l.
              subst (λ u. Step (IsNamed env objv) (view w) Command.closes tcl_ok (dropped a u)) e
                (closed a names.1 (subst (λ u. lookup a u.handles ≡ some a) (sym e) l)))
            w' g)

  compile-Step :
      (objv : List Obj) (w : World D)
      → IsCall X objv w
      → Start w
      → Post
          (since X owed Anything)
          (λ code. Inv (since X owed (Step (IsNamed env objv) (view w) Command.compiles code)))
          (run_command env Command.compiles objv w)
  unfolding run_command compile
  compile-Step objv w c inv =
      handle_command-Inv env (since X owed (λ v. view w ≡ v))
        (Step (IsNamed env objv) (view w) Command.compiles)
        (λ v e. subst (Step (IsNamed env objv) (view w) Command.compiles tcl_error) e rejected) objv
        (text "handle program ?argument0 argument1 ...?") (leb 3 (length objv))
        (λ name. compile_handle env name objv) w (λ h. ground arith) inv
        (λ name a w' h same.
          compile_handle-After env (since X owed (λ v. view w ≡ v)) a
            (Step (IsNamed env objv) (view w) Command.compiles)
            (λ v e. subst (Step (IsNamed env objv) (view w) Command.compiles tcl_error) e rejected)
            (λ v program e l fresh.
              subst
                (λ u.
                  Step (IsNamed env objv) (view w) Command.compiles tcl_ok
                    (registered_for a program u))
                e
                (compiled a program same.1 (subst (λ u. lookup a u.handles ≡ some a) (sym e) l)
                  (subst (λ u. lookup u.next_pid u.programs ≡ none) (sym e) fresh)))
            name objv w' (ground arith) (λ full. c.pid_room (omega (arith, same.0, full))))

  stepped :
      (command : Command) (objv : List Obj) (w : World D)
      → (calls_back command ≡ true → X)
      → IsCall X objv w
      → Inv (since X owed Anything) w
      → Post
          (since X owed Anything)
          (λ code. Inv (since X owed (Step (IsNamed env objv) (view w) command code)))
          (run_command env command objv w)
  stepped Command.opens objv w x c inv = open-Step objv w c (starting w inv)
  stepped Command.closes objv w x c inv = close-Step objv w c (starting w inv)
  stepped Command.compiles objv w x c inv = compile-Step objv w c (starting w inv)
  stepped Command.processes objv w x c inv =
      scripted-Step Command.processes refl (x refl) objv w c inv
  stepped Command.lists objv w x c inv = scripted-Step Command.lists refl (x refl) objv w c inv
  stepped Command.aggregates objv w x c inv =
      scripted-Step Command.aggregates refl (x refl) objv w c inv
  stepped Command.configures objv w x c inv =
      plain-Step Command.configures IsPlain.configures objv w c (starting w inv)
  stepped Command.execs objv w x c inv =
      plain-Step Command.execs IsPlain.execs objv w c (starting w inv)
  stepped Command.infos objv w x c inv =
      plain-Step Command.infos IsPlain.infos objv w c (starting w inv)
  stepped Command.goes objv w x c inv =
      plain-Step Command.goes IsPlain.goes objv w c (starting w inv)
  stepped Command.stops objv w x c inv =
      plain-Step Command.stops IsPlain.stops objv w c (starting w inv)
  stepped Command.grabs objv w x c inv =
      plain-Step Command.grabs IsPlain.grabs objv w c (starting w inv)
  stepped Command.launches objv w x c inv =
      plain-Step Command.launches IsPlain.launches objv w c (starting w inv)

  -- Every command keeps the invariant and makes a step of its own; only those that call back may
  -- panic.
  pub run_command-Stepped :
      (command : Command) (objv : List Obj) (w : World D)
      → (calls_back command ≡ true → X)
      → IsCall X objv w
      → Inv (since X owed Anything) w
      → Post
          (since X owed Anything)
          (Stepped (IsNamed env objv) (view w) command)
          (run_command env command objv w)
  run_command-Stepped command objv w x c inv =
      ended (IsNamed env objv) (view w) command (run_command env command objv w)
        (stepped command objv w x c inv)
