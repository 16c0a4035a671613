-- ===== src/Commands/Dispatch.antt =====
-- The commands by the names that `Dtrace_Init` of generic/dtrace.c binds them to.
use tcldtrace.Prelude.{List, [], ◌∷◌}
use tcldtrace.State.{Obj, Code, M, done, bind, set_result, str, ◌>>◌}
use tcldtrace.Api.{Env}
use tcldtrace.Commands.Open.{open_command, close}
use tcldtrace.Commands.Configure.{configure}
use tcldtrace.Commands.Programs.{compile, exec, info, list_command}
use tcldtrace.Commands.Processes.{grab, launch}
use tcldtrace.Commands.Tracing.{go, stop, process, aggregations}

pub data Command : Type 0 where
  opens closes configures compiles execs infos goes stops processes lists aggregates : Command
  grabs launches : Command

module _ {D : Type 0} (env : Env D) where
  unfoldable pub run_command : Command → List Obj → M D Code
  run_command Command.opens = open_command env
  run_command Command.closes = close env
  run_command Command.configures = configure env
  run_command Command.compiles = compile env
  run_command Command.execs = exec env
  run_command Command.infos = info env
  run_command Command.goes = go env
  run_command Command.stops = stop env
  run_command Command.processes = process env
  run_command Command.lists = list_command env
  run_command Command.aggregates = aggregations env
  run_command Command.grabs = grab env
  run_command Command.launches = launch env

  -- A script's calls in turn. The interpreter resets the result before each, and goes on after an
  -- error as a script that catches it does.
  unfoldable pub run_commands : List (Command × List Obj) → M D (Unit {0})
  run_commands [] w = done tt w
  run_commands ((command, objv) ∷ rest) w =
      bind ((set_result (str []) >> run_command command objv) w) λ _. run_commands rest
