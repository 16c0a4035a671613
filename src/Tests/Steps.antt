-- ===== src/Tests/Steps.antt =====
-- The theorems about the tables as an abstract machine, in the states of the script.
use tcldtrace.Prelude.{◌≤◌, ◌≡◌, refl, none, some, [], ◌∷◌, arith, lookup}
use tcldtrace.State.{Obj, tcl_ok}
use tcldtrace.Commands.Dispatch.{Command, run_command}
use tcldtrace.Scripts.{reset}
use tcldtrace.Sessions.{Returns}
use tcldtrace.Tests.Setup.{env, laws}
use tcldtrace.Tests.Runs.{one, source, grab_name, compiled_world, compiled_Reach, procs, scripted}
use tcldtrace.Misuse.Unknown.{looks_in}
use tcldtrace.Footprint.Touching.{Touched, run_command-Touched}
use tcldtrace.Safety.Commands.{IsNamed}
use tcldtrace.Safety.Scope.{view}
use tcldtrace.Safety.Steps.{Step}
use tcldtrace.Safety.Reachable.{Reach-held, run_command-Step, run_command-Returns, Later-absent}
use tcldtrace.Tests.Runs.{
  list_name, listed_world, list_run, grabbed_world, grab_run, traced_world, traced_hd, closed_world,
  traced_Reach, closed_Reach, again_world, again_Later,
}

Reach-held_example :
    (1 ≤ traced_world.refs 1)
    × ((extra : Obj) × (traced_hd.args 4 ≡ some extra) × (1 ≤ traced_world.refs extra.ident))
Reach-held_example =
    Reach-held env procs laws 1 traced_world 1 4 traced_hd one traced_Reach (unfold lookup in refl)
      (omega arith) refl

-- List, with a callback that opens a handle.
run_command-Step_example :
    Step
      (IsNamed scripted (list_name ∷ one ∷ source ∷ one ∷ []))
      (view compiled_world)
      Command.lists
      tcl_ok
      (view listed_world)
run_command-Step_example =
    run_command-Step env procs laws 1 compiled_world listed_world Command.lists
      (list_name ∷ one ∷ source ∷ one ∷ []) tcl_ok compiled_Reach list_run

run_command-Returns_example :
    Returns
      (λ code w'.
        Step
          (IsNamed scripted (grab_name ∷ one ∷ source ∷ []))
          (view compiled_world)
          Command.grabs
          code
          (view w'))
      (run_command scripted Command.grabs (grab_name ∷ one ∷ source ∷ []) (reset compiled_world))
run_command-Returns_example =
    run_command-Returns env procs laws 1 compiled_world Command.grabs
      (grab_name ∷ one ∷ source ∷ []) refl compiled_Reach
      (record {
        named = λ e. omega arith;
        filled = (λ e. absurd (cc), (λ e. absurd (cc), (λ e. absurd (cc), tt)));
        id_room = λ full. omega arith;
        pid_room = λ full. omega arith;
      })

Later-absent_example : lookup 1 again_world.handles ≡ none
Later-absent_example =
    Later-absent env procs laws 1 closed_world again_world 1 closed_Reach (omega arith)
      (unfold lookup in refl) again_Later

run_command-Touched_example :
    Touched scripted
      (looks_in Command.grabs)
      (grab_name ∷ one ∷ source ∷ [])
      (reset compiled_world)
      grabbed_world
run_command-Touched_example =
    run_command-Touched scripted Command.grabs (grab_name ∷ one ∷ source ∷ []) tcl_ok
      (reset compiled_world) grabbed_world refl grab_run
