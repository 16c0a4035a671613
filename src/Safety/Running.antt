-- ===== src/Safety/Running.antt =====
-- The commands that leave the tables alone, and those that run scripts: each keeps the invariant,
-- whatever its arguments.
use tcldtrace.Prelude.{
  refl, ◌∷◌, ◌%◌, ◌≤◌, ◌≡◌, inl, inr, Bool, true, false, ◌&&◌, ◌||◌, List, [], arith, length, leb,
  ◌==◌, text, Bool-cases, get_elem?_below,
}
use tcldtrace.State.{Obj, World, Parsed-cases}
use tcldtrace.Api.{Env}
use tcldtrace.Helpers.Registry.{int_max}
use tcldtrace.Helpers.Checks.{objc_check, fail_with}
use tcldtrace.Commands.Configure.{configure, configure_handle}
use tcldtrace.Commands.Programs.{exec, info, exec_or_info, exec_handle, list_command, list_handle}
use tcldtrace.Commands.Processes.{grab, grab_handle, launch, launch_handle}
use tcldtrace.Commands.Tracing.{
  go, go_handle, stop, stop_handle, process, process_sleep, process_handle, aggregations,
  aggregations_handle,
}
use tcldtrace.Commands.Dispatch.{Command, run_command}
use tcldtrace.Safety.Invariant.{Post, Inv}
use tcldtrace.Safety.Laws.{Laws, IsOrderly}
use tcldtrace.Safety.Options.{AllFilled, configure_handle-Inv}
use tcldtrace.Safety.Commands.{
  handle_command-Inv, program_command-Inv, exec_handle-Inv, stop_handle-Inv,
}
use tcldtrace.Safety.Tracing.{
  go_handle-Inv, process_handle-Inv, aggregations_handle-Inv, list_handle-Inv,
}
use tcldtrace.Safety.Processes.{grab_handle-Inv, launch_handle-Inv}
use tcldtrace.Safety.Scope.{Scope, IsClosed}
use tcldtrace.Safety.Steps.{IsPlain, calls_back}

-- A call as the interpreter makes it, in which the command's name comes first, and where no word is
-- empty and neither counter is at its end; or else there is a proof of something.
pub record IsCall {D : Type 0} (X : Type 0) (objv : List Obj) (w : World D) : Type 0 where
  pub named : length objv ≡ 0 → X
  pub filled : AllFilled X objv
  pub id_room : int_max ≤ w.next_free_id → X
  pub pid_room : int_max ≤ w.next_free_pid → X

module _ {D : Type 0} (env : Env D) (laws : Laws env) (orderly : IsOrderly env) where
  process_sleep-Inv :
      (s : Scope)
      → s.panics
      → IsClosed s.frame
      → (objv : List Obj) (sleep : Bool) (w : World D) → 2 ≤ length objv
      → Inv s w
      → Post s (λ _. Inv s) (process_sleep env objv sleep w)
  unfolding process_sleep objc_check
  process_sleep-Inv s p stays objv sleep w long inv =
      handle_command-Inv env s (λ _. s.frame) (λ v f. f) objv [] true
        (λ name. process_handle env name sleep) w (λ _. long) inv
        (λ name a w' _ _ g. process_handle-Inv env laws orderly s p stays name sleep a w' g.0)

  process-Inv :
      (s : Scope)
      → s.panics
      → IsClosed s.frame
      → (objv : List Obj) (w : World D) → Inv s w
      → Post s (λ _. Inv s) (process env objv w)
  unfolding process objc_check fail_with
  process-Inv s p stays objv w inv =
      elim (Bool-cases (leb 2 (length objv) && leb (length objv) 3)) [
        | inr bad ↦ rw (bad, process) inv
        | inl good ↦
            let long : 2 ≤ length objv = ground arith in
            let (o, f) = get_elem?_below 0 objv (omega arith) in
            rw (good, process)
              (rw (f, process)
                (elim (Bool-cases (length objv == 3)) [
                  | inr two ↦ rw (two, process) (process_sleep-Inv s p stays objv false w long inv)
                  | inl three ↦
                      let (l, f') = get_elem?_below 2 objv (ground arith) in
                      rw (three, process)
                        (rw (f', process)
                          (elim (Parsed-cases (env.get_boolean l)) [
                            | inl (m, bad) ↦ rw (bad, process) inv
                            | inr (sleep, fine) ↦
                                rw (fine, process)
                                  (process_sleep-Inv s p stays objv sleep w long inv)
                          ]))
                ]))
      ]

  -- The commands that call back, with any frame that scripts cannot leave.
  pub scripted-Inv :
      (command : Command)
      → calls_back command ≡ true
      → (s : Scope) → s.panics
      → IsClosed s.frame
      → (objv : List Obj) (w : World D) → IsCall s.panics objv w
      → Inv s w
      → Post s (λ _. Inv s) (run_command env command objv w)
  unfolding run_command list_command aggregations
  scripted-Inv Command.processes q s p stays objv w c inv = process-Inv s p stays objv w inv
  scripted-Inv Command.lists q s p stays objv w c inv =
      program_command-Inv env s (λ _. s.frame) (λ v f. f) objv
        (text "compiled_program list_callback arg") (length objv == 4) (λ _. list_handle env objv) w
        (λ h. ground arith) inv
        (λ name pd w' h a g. list_handle-Inv env laws orderly s p stays objv pd a w' g.0)
  scripted-Inv Command.aggregates q s p stays objv w c inv =
      handle_command-Inv env s (λ _. s.frame) (λ v f. f) objv (text "handle") (length objv == 2)
        (aggregations_handle env) w (λ h. ground arith) inv
        (λ name a w' _ _ g. aggregations_handle-Inv env laws orderly s p stays name a w' g.0)
  scripted-Inv _ q s p stays objv w c inv = absurd (cc)

  -- The commands that leave the tables alone, with any frame.
  pub plain-Inv :
      (command : Command)
      → IsPlain command
      → (s : Scope) (objv : List Obj) (w : World D) → IsCall s.panics objv w
      → Inv s w
      → Post s (λ _. Inv s) (run_command env command objv w)
  unfolding run_command configure exec info exec_or_info go stop grab launch objc_check
  plain-Inv _ IsPlain.configures s [] w c inv = c.named refl
  plain-Inv _ IsPlain.configures s (name ∷ words) w c inv =
      let objv : List Obj = name ∷ words in
      handle_command-Inv env s (λ _. s.frame) (λ v f. f) objv (text "handle ?option value ...?")
        (length objv % 2 == 0 || length objv == 3) (λ name. configure_handle env name objv) w
        (λ h. ground arith) inv
        (λ name a w' _ _. configure_handle-Inv env s name objv a w' c.filled)
  plain-Inv _ IsPlain.execs s objv w c inv =
      program_command-Inv env s (λ _. s.frame) (λ v f. f) objv (text "compiled_program")
        (length objv == 2) (exec_handle env true) w (λ h. ground arith) inv
        (λ name pd w' _ a. exec_handle-Inv env s true name pd a w')
  plain-Inv _ IsPlain.infos s objv w c inv =
      program_command-Inv env s (λ _. s.frame) (λ v f. f) objv (text "compiled_program")
        (length objv == 2) (exec_handle env false) w (λ h. ground arith) inv
        (λ name pd w' _ a. exec_handle-Inv env s false name pd a w')
  plain-Inv _ IsPlain.goes s objv w c inv =
      handle_command-Inv env s (λ _. s.frame) (λ v f. f) objv
        (text "handle ?callback {proc ?arg?} ...?") (leb 2 (length objv) && length objv % 2 == 0)
        (λ name. go_handle env name objv) w (λ h. ground arith) inv
        (λ name a w' h _. go_handle-Inv env laws s name objv a w' (ground arith) (ground arith))
  plain-Inv _ IsPlain.stops s objv w c inv =
      handle_command-Inv env s (λ _. s.frame) (λ v f. f) objv (text "handle") (length objv == 2)
        (stop_handle env) w (λ h. ground arith) inv
        (λ name a w' _ _. stop_handle-Inv env s name a w')
  plain-Inv _ IsPlain.grabs s objv w c inv =
      handle_command-Inv env s (λ _. s.frame) (λ v f. f) objv (text "handle pid") (length objv == 3)
        (λ name. grab_handle env name objv) w (λ h. ground arith) inv
        (λ name a w' h _. grab_handle-Inv env s name objv a w' (ground arith))
  plain-Inv _ IsPlain.launches s objv w c inv =
      handle_command-Inv env s (λ _. s.frame) (λ v f. f) objv (text "handle cmd")
        (leb 3 (length objv)) (λ name. launch_handle env name objv) w (λ h. ground arith) inv
        (λ name a w' _ _. launch_handle-Inv env s name objv a w')
