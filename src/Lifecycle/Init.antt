-- ===== src/Lifecycle/Init.antt =====
-- generic/dtrace.c: Dtrace_Init. What Tcl answers (stubs, package, version) are arguments.
use tcldtrace.Prelude.{
  ℕ, Bool, ◌&&◌, Option, none, some, List, [], ◌∷◌, ◌++◌, Bytes, text, leb, if◌then◌else◌, bytes_eq,
}
use tcldtrace.State.{World, str}
use tcldtrace.Commands.Dispatch.{Command}

-- Who calls `Dtrace_DeInit` with the package's data: the deletion of the interpreter, by `onDestroy`,
-- and the exit handler.
pub data Cleanup : Type 0 where
  on_destroy exit_handler : Cleanup

-- What a successful `Dtrace_Init` leaves in the interpreter: its data, the cleanups,
-- the commands, and the scripts that it has Tcl evaluate.
pub record Package (D : Type 0) : Type 0 where
  pub world : World D
  pub cleanups : List Cleanup
  pub commands : List (Bytes × Command)
  pub ensemble : Bool
  pub scripts : List Bytes

-- The two tables, empty, and the counters of a fresh process.
abbrev pub fresh_world : {D : Type 0} → D → World D
fresh_world d = record {
  handles = [];
  programs = [];
  heap = [];
  next_free_id = 1;
  next_free_pid = 1;
  result = str [];
  error_code = [];
  background = [];
  refs = λ n. 0;
  lib = d;
}

-- `NS "::name"`
abbrev pub command_name : Bytes → Bytes
command_name name = text "dtrace::" ++ name

unfoldable pub command_table : List (Bytes × Command)
command_table =
    (command_name (text "open"), Command.opens)
    ∷ (command_name (text "close"), Command.closes)
    ∷ (command_name (text "configure"), Command.configures)
    ∷ (command_name (text "compile"), Command.compiles)
    ∷ (command_name (text "exec"), Command.execs)
    ∷ (command_name (text "info"), Command.infos)
    ∷ (command_name (text "go"), Command.goes)
    ∷ (command_name (text "stop"), Command.stops)
    ∷ (command_name (text "process"), Command.processes)
    ∷ (command_name (text "list"), Command.lists)
    ∷ (command_name (text "aggregations"), Command.aggregates)
    ∷ (command_name (text "grab"), Command.grabs)
    ∷ (command_name (text "launch"), Command.launches)
    ∷ []

-- The scripts in `Tcl_Eval`: that of the namespace, and that of the ensemble.
unfoldable pub namespace_script : Bytes
namespace_script = text "namespace eval dtrace {}"

unfoldable pub ensemble_script : Bytes
ensemble_script = text "namespace eval dtrace {\nnamespace export *\nnamespace ensemble create\n}"

-- `8 <= major && 5 <= minor`
unfoldable pub has_ensembles : ℕ → ℕ → Bool
has_ensembles major minor = leb 8 major && leb 5 minor

-- `Dtrace_Init`; `none` is `TCL_ERROR`.
unfoldable pub dtrace_init : {D : Type 0} → Bool → Bool → ℕ → ℕ → D → Option (Package D)
unfolding has_ensembles namespace_script ensemble_script
dtrace_init stubs provided major minor d =
    if stubs
    then if provided
      then some (record {
        world = fresh_world d;
        cleanups = on_destroy ∷ exit_handler ∷ [];
        commands = command_table;
        ensemble = has_ensembles major minor;
        scripts =
            namespace_script ∷ (if has_ensembles major minor then ensemble_script ∷ [] else []);
      })
      else none
    else none

-- The command that the interpreter finds by a name.
unfoldable pub find_command : Bytes → List (Bytes × Command) → Option Command
find_command name [] = none
find_command name ((n, c) ∷ rest) = if bytes_eq name n then some c else find_command name rest
