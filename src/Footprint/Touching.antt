-- ===== src/Footprint/Touching.antt =====
-- The commands with their checks: what each touches.
use tcldtrace.Prelude.{ℕ, ◌≡◌, Bool, true, false, some, List, Bytes, subst}
use tcldtrace.State.{Obj, Value, ProgramData, World, M, Code, arg, ◌>>=◌, done}
use tcldtrace.Api.{Env}
use tcldtrace.Helpers.Registry.{get_hd, get_pd}
use tcldtrace.Helpers.Checks.{objc_check, handle_check, program_check}
use tcldtrace.Commands.Configure.{configure, configure_handle}
use tcldtrace.Commands.Programs.{compile, compile_handle, exec, info, exec_or_info, exec_handle}
use tcldtrace.Commands.Processes.{grab, grab_handle, launch, launch_handle}
use tcldtrace.Commands.Tracing.{go, go_handle, stop, stop_handle}
use tcldtrace.Commands.Dispatch.{Command, run_command}
use tcldtrace.Misuse.Unknown.{Table, of_handles, of_programs, looks_in}
use tcldtrace.Footprint.{Acts, at_rest, IsHeld, Ok}
use tcldtrace.Footprint.Helpers.{configure_handle-Within}
use tcldtrace.Footprint.Commands.{
  compile_handle-Stays, exec_handle-Stays, go_handle-Stays, stop_handle-Stays, grab_handle-Stays,
  launch_handle-Stays,
}
use tcldtrace.Footprint.Subjects.{IsSubject, handle_command-Ok, program_command-Ok, all_Ok}

-- The commands that neither open nor close a handle, nor run scripts.
abbrev pub is_local : Command → Bool
is_local Command.configures = true
is_local Command.compiles = true
is_local Command.execs = true
is_local Command.infos = true
is_local Command.goes = true
is_local Command.stops = true
is_local Command.grabs = true
is_local Command.launches = true
is_local Command.opens = false
is_local Command.closes = false
is_local Command.processes = false
is_local Command.lists = false
is_local Command.aggregates = false

module _ {D : Type 0} (env : Env D) where
  -- What a command leaves: it set the result and the error code, or it acted on its subject.
  pub data Touched (t : Table) (objv : List Obj) (w : World D) : World D → Type 0 where
    declined :
        (result : Value) (error_code : List Bytes)
        → Touched t objv w (record w { result = result; error_code = error_code })
    worked :
        {v : World D} (a h : ℕ)
        → IsSubject env t objv w a
        → IsHeld a h w
        → Acts env a h w v
        → Touched t objv w v

  handle_command-Touched :
      (objv : List Obj) (usage : Bytes) (good : Bool) (rest : Bytes → ℕ → M D Code) (w : World D)
      → ((name : Bytes) (a h : ℕ) → IsHeld a h w → Ok (λ _. Acts env a h w) (rest name a w))
      → Ok
          (λ _. Touched of_handles objv w)
          (objc_check env objv usage good
            (do
              name ← arg objv 0
              toid ← arg objv 1
              found ← get_hd env toid
              handle_check env name.str found (rest name.str))
            w)
  handle_command-Touched objv usage good rest w k =
      handle_command-Ok env objv w (Touched of_handles objv w) declined usage good rest
        λ name a h named held.
          all_Ok env (rest name a w) (λ v q. worked a h named held q) (k name a h held)

  program_command-Touched :
      (objv : List Obj) (usage : Bytes) (good : Bool) (rest : Bytes → ProgramData → ℕ → M D Code)
      (w : World D)
      → ((name : Bytes) (pd : ProgramData) (a h : ℕ)
          → IsHeld a h w
          → Ok (λ _. Acts env a h w) (rest name pd a w))
      → Ok
          (λ _. Touched of_programs objv w)
          (objc_check env objv usage good
            (do
              name ← arg objv 0
              id ← arg objv 1
              found ← get_pd env id
              program_check env name.str found
                  (λ pd. handle_check env name.str (some pd.hd) (rest name.str pd)))
            w)
  program_command-Touched objv usage good rest w k =
      program_command-Ok env objv w (Touched of_programs objv w) declined usage good rest
        λ name pd a h named held.
          all_Ok env (rest name pd a w) (λ v q. worked a h named held q) (k name pd a h held)

  pub run_command-Ok :
      (command : Command) (objv : List Obj) (w : World D)
      → is_local command ≡ true
      → Ok (λ _. Touched (looks_in command) objv w) (run_command env command objv w)
  unfolding run_command configure compile exec info exec_or_info go stop grab launch
  run_command-Ok Command.configures objv w l =
      handle_command-Touched objv _ _ (λ c. configure_handle env c objv) w
        λ name a h held. configure_handle-Within env a h w held name objv w at_rest
  run_command-Ok Command.compiles objv w l =
      handle_command-Touched objv _ _ (λ c. compile_handle env c objv) w
        λ name a h held. compile_handle-Stays env a h w held name objv w at_rest
  run_command-Ok Command.execs objv w l =
      program_command-Touched objv _ _ (exec_handle env true) w
        λ name pd a h held. exec_handle-Stays env a h w held true name pd w at_rest
  run_command-Ok Command.infos objv w l =
      program_command-Touched objv _ _ (exec_handle env false) w
        λ name pd a h held. exec_handle-Stays env a h w held false name pd w at_rest
  run_command-Ok Command.goes objv w l =
      handle_command-Touched objv _ _ (λ c. go_handle env c objv) w
        λ name a h held. go_handle-Stays env a h w held name objv w at_rest
  run_command-Ok Command.stops objv w l =
      handle_command-Touched objv _ _ (stop_handle env) w
        λ name a h held. stop_handle-Stays env a h w held name w at_rest
  run_command-Ok Command.grabs objv w l =
      handle_command-Touched objv _ _ (λ c. grab_handle env c objv) w
        λ name a h held. grab_handle-Stays env a h w held name objv w at_rest
  run_command-Ok Command.launches objv w l =
      handle_command-Touched objv _ _ (λ c. launch_handle env c objv) w
        λ name a h held. launch_handle-Stays env a h w held name objv w at_rest
  run_command-Ok Command.opens objv w l = absurd (cc)
  run_command-Ok Command.closes objv w l = absurd (cc)
  run_command-Ok Command.processes objv w l = absurd (cc)
  run_command-Ok Command.lists objv w l = absurd (cc)
  run_command-Ok Command.aggregates objv w l = absurd (cc)

  -- A command that neither opens nor closes a handle nor runs scripts, whatever the state it is called in,
  -- if it returns, has either only set the result and the error code, or acted on the structure that
  -- its word names: called libdtrace through the handle of that structure, written to it and kept its
  -- handle, registered programs for it, counted references, and set the result and the error code.
  pub run_command-Touched :
      (command : Command) (objv : List Obj) (code : Code) (w v : World D)
      → is_local command ≡ true
      → run_command env command objv w ≡ done code v
      → Touched (looks_in command) objv w v
  run_command-Touched command objv code w v l e =
      subst (Ok (λ _. Touched (looks_in command) objv w)) e (run_command-Ok command objv w l)
