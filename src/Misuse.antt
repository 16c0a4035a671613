-- ===== src/Misuse.antt =====
-- generic/dtrace.c, objcCheck at the head of the commands: the number of the words.
pub mod Unknown
use tcldtrace.Prelude.{
  ℕ, suc, ◌≡◌, refl, inl, inr, Bool, true, false, ◌&&◌, ◌||◌, Option, none, some, List, [], ◌∷◌,
  ◌++◌, Bytes, ℤ, pos, negsuc, arith, Dict, lookup, length, leb, ◌==◌, ◌%◌, text, Bool-cases,
}
use tcldtrace.State.{
  Obj, Value, str, Parsed, parsed, refused, Code, tcl_error, ProgramData, World, M, done, arg,
  ◌>>=◌,
}
use tcldtrace.Api.{Env}
use tcldtrace.Helpers.Registry.{get_hd, get_pd, find_by, find_entry}
use tcldtrace.Helpers.Checks.{objc_check, handle_check, program_check, fail_with, error_class}
use tcldtrace.Commands.Open.{close, close_handle}
use tcldtrace.Commands.Configure.{configure, configure_handle}
use tcldtrace.Commands.Programs.{
  compile, compile_handle, exec, info, exec_or_info, exec_handle, list_command, list_handle,
}
use tcldtrace.Commands.Processes.{grab, grab_handle, launch, launch_handle}
use tcldtrace.Commands.Tracing.{
  go, go_handle, stop, stop_handle, process, process_sleep, process_handle, aggregations,
  aggregations_handle,
}
use tcldtrace.Commands.Dispatch.{Command, run_command}

-- How many words may follow the command, for the forms that its usage has. A command of launch is one
-- word or more.
abbrev pub accepts : Command → ℕ → Bool
accepts Command.opens n = true
accepts Command.closes n = n == 1
accepts Command.configures n = n % 2 == 1 || n == 2
accepts Command.compiles n = leb 2 n
accepts Command.execs n = n == 1
accepts Command.infos n = n == 1
accepts Command.goes n = n % 2 == 1
accepts Command.stops n = n == 1
accepts Command.processes n = n == 1 || n == 2
accepts Command.lists n = n == 3
accepts Command.aggregates n = n == 1
accepts Command.grabs n = n == 2
accepts Command.launches n = leb 2 n

-- The forms, as the messages have them.
abbrev pub usage : Command → Bytes
usage Command.opens = []
usage Command.closes = text "handle"
usage Command.configures = text "handle ?option value ...?"
usage Command.compiles = text "handle program ?argument0 argument1 ...?"
usage Command.execs = text "compiled_program"
usage Command.infos = text "compiled_program"
usage Command.goes = text "handle ?callback {proc ?arg?} ...?"
usage Command.stops = text "handle"
usage Command.processes = text "handle ?sleep?"
usage Command.lists = text "compiled_program list_callback arg"
usage Command.aggregates = text "handle"
usage Command.grabs = text "handle pid"
usage Command.launches = text "handle cmd"

module _ {D : Type 0} (env : Env D) where
  objc_check-false :
      (objv : List Obj) (usage_text : Bytes) (good : Bool) (rest : M D Code) (w : World D)
      → good ≡ false
      → objc_check env objv usage_text good rest w
        ≡ done tcl_error (record w {
          result = str (env.wrong_num_args objv usage_text);
          error_code = error_class (text "USAGE");
        })
  unfolding objc_check
  objc_check-false objv usage_text good rest w e = rw e refl

  -- Every command but open, with a number of words that none of its forms has, fails with the code of a
  -- usage error and Tcl's message on its words and its usage, and changes nothing else.
  pub run_command-miscounted :
      (command : Command) (name : Obj) (words : List Obj) (w : World D)
      → accepts command (length words) ≡ false
      → run_command env command (name ∷ words) w
        ≡ done tcl_error (record w {
          result = str (env.wrong_num_args (name ∷ words) (usage command));
          error_code = error_class (text "USAGE");
        })
  unfolding run_command close configure compile exec info exec_or_info go stop process list_command
      aggregations grab launch
  run_command-miscounted Command.opens name words w e = absurd (cc)
  run_command-miscounted Command.closes name words w e =
      objc_check-false (name ∷ words) _ _ _ w (ground arith)
  run_command-miscounted Command.configures name words w e =
      objc_check-false (name ∷ words) _ _ _ w (ground arith)
  run_command-miscounted Command.compiles name words w e =
      objc_check-false (name ∷ words) _ _ _ w (ground arith)
  run_command-miscounted Command.execs name words w e =
      objc_check-false (name ∷ words) _ _ _ w (ground arith)
  run_command-miscounted Command.infos name words w e =
      objc_check-false (name ∷ words) _ _ _ w (ground arith)
  run_command-miscounted Command.goes name words w e =
      objc_check-false (name ∷ words) _ _ _ w (ground arith)
  run_command-miscounted Command.stops name words w e =
      objc_check-false (name ∷ words) _ _ _ w (ground arith)
  run_command-miscounted Command.processes name words w e =
      objc_check-false (name ∷ words) _ _ _ w (ground arith)
  run_command-miscounted Command.lists name words w e =
      objc_check-false (name ∷ words) _ _ _ w (ground arith)
  run_command-miscounted Command.aggregates name words w e =
      objc_check-false (name ∷ words) _ _ _ w (ground arith)
  run_command-miscounted Command.grabs name words w e =
      objc_check-false (name ∷ words) _ _ _ w (ground arith)
  run_command-miscounted Command.launches name words w e =
      objc_check-false (name ∷ words) _ _ _ w (ground arith)
