-- ===== src/Lib.antt =====
-- tcldtrace: a model of the Tcl extension for DTrace, generic/dtrace.c and generic/dtrace.h, and of the
-- processor types of darwin/arch.h.
--
-- The program. A script opens libdtrace handles, compiles D programs for them, runs the programs and
-- has its own procedures called with what they record. Thirteen commands (`::dtrace::open` to
-- `::dtrace::launch`) are C functions of the extension; libdtrace calls eight more of its functions
-- back, and those evaluate Tcl scripts. The state is two hash tables in the interpreter, from numbers
-- to `handle_data` and to `program_data`, and the `handle_data` structures that they point to.
--
-- The files.
--   Prelude, Text   the library's names, Boolean tests, lists, dictionaries and ℤ over the native ℕ,
--                   bytes of strings, and `snprintf` of decimal numbers.
--   State           the structures of generic/dtrace.h as records, one interpreter with its heap of
--                   live `handle_data` (`World`), and computations that return, panic by `Tcl_Panic`,
--                   or do what C leaves undefined (`Out`).
--   Api             the functions of the Tcl library and of libdtrace, as one record `Env`, which every
--                   definition that calls them takes. A function of libdtrace that calls back takes
--                   what it may call.
--   Helpers         Registry: get_hd, del_hd, new_hd, register_pd, get_pd. Options: get_option,
--                   set_option. Format: bufType, dropKind, formatProbeDesc, cutWhiteSpace. Checks: the
--                   macros objcCheck, handleCheck, libError.
--   Callbacks       chew, chewrec, bufhandler, agghandler, buf_or_agg, drophandler, errhandler,
--                   prochandler, listProbe, listStatement, and the macro CallbackEval.
--   Commands        Open (with OpenThrow), Close; Configure; Compile, Exec, Info, List (Programs); Grab,
--                   Launch (Processes); Go, Stop, Process, Aggregations (Tracing); Dispatch has one
--                   function for the call of any command.
--   Lifecycle       Dtrace_Init (Init), Dtrace_DeInit and onDestroy (DeInit), and their proofs (Laws).
--   Scripts         scripts as trees of commands, and environments whose callbacks evaluate them, nested
--                   to a depth.
--   Safety          what every helper, callback and command keeps, and the states that a script can
--                   reach (Reachable). Scope: the abstract view of the tables, and what a proof is
--                   relative to (what a panic proves, what is known of the tables, the references owed
--                   to others). Held: how often the handles' entries hold an object. Invariant: the
--                   invariant of the state. Laws: the hypotheses on `Env`. Steps: the abstract machine,
--                   what each command promises of the two tables. Running and Stepping lead from one
--                   to the other. Nested: scripts of commands keep the invariant, by induction on the
--                   depth and on the script.
--   Footprint       what a command may touch: a closure of the acts on one structure (the file itself),
--                   what each local command does within it (Helpers, Commands, Subjects, Touching), and
--                   what becomes of other handles (Independence). The owners of libdtrace's open handles
--                   (Owners, Entries), through Open (Opening), Close (Leaks), the callbacks (Serving,
--                   Called) and the commands that call back (Scripted), with scripts as trees of calls
--                   that nest to a depth (Nesting).
--   Interps         several interpreters: own tables, and counters in common.
--   Threads         new_hd and register_pd cut into the steps between which another thread can run, and
--                   what the mutex gives (Exclusion, Progress).
--   Format, Settings, Configuring, Compiling, Aggregation, Sessions, Grabbed, Registering, Balance,
--   Counts, Statements, Notices, Misuse, Dangling
--                   what the parts compute, and what becomes of a callback that closes its handle.
--   Darwin          string_for_arch, arch_for_string and needs_swapping of darwin/arch.h. Nothing of
--                   them is used but on Darwin, where `Open` does not compile.
--   Tests           a concrete `Env`, a script run in it, and the theorems at its states.
-- A C function `fooBar` or `Foo_Bar` is `foo_bar` here; `Open` and `List` are `open_command` and
-- `list_command`. A function that is long in C is cut at its tests: `grab`, for one, ends in
-- `grab_handle`, which ends in `record_process`. A macro that returns takes the rest of the command.
--
-- Numbers. An address is the number under which `new_hd` allocated the structure. `int` counters stop
-- at `int_max`, past which the code is undefined; process identifiers wrap at 32 bits; the buffers of
-- get_option (12 bytes), formatProbeDesc (128) and cutWhiteSpace (128) have their sizes. Loops recur on
-- their list, or on the number of rounds that the C loop makes (the five callbacks, `proc_count`).
-- `digits` makes at most n + 1 rounds for n, which has no more digits than that.
--
-- Hypotheses. `Laws` says that libdtrace reaches the state only by calling back, and that
-- Tcl_GetIndexFromObj gives a position in its table. It says nothing of scripts: `nested` evaluates,
-- for the words of a callback, any tree of commands, where those callbacks evaluate such trees in turn,
-- up to a depth, as Tcl bounds the nesting of evaluations. A script may close the handle that its
-- callback is for, and libdtrace may serve any text; what is then undefined is `fault`, and what is
-- said of a result is said where the command returns. `run_command-Returns` says which commands return:
-- its `IsCall ⊥` is that the words are not empty and that the counters have not run out. Footprint
-- stands on `OpenLaws` and `CallingLaws`: which handles are open in libdtrace changes by `dtrace_open`
-- and `dtrace_close` alone.
--
-- The list of an aggregation (`AggregationData.list`) is `none` where the C pointer is NULL or is not the
-- handle's own any more; to follow it then is a `fault`. The count of a Tcl object is modelled, its
-- memory is not.
--
-- Not modelled: the platform's branches under `__APPLE__`, threads anywhere but at the two counters,
-- a script that a callback runs in another interpreter, memory that runs out, the memory of the two
-- hash tables and the panics where one is missing, the other headers of darwin/ and those of solaris/,
-- the documentation tools under tools/, and the build files.
pub mod Prelude
pub mod State
pub mod Text
pub mod Api
pub mod Helpers
pub mod Callbacks
pub mod Commands
pub mod Lifecycle
pub mod Scripts
pub mod Safety
pub mod Format
pub mod Settings
pub mod Aggregation
pub mod Sessions
pub mod Grabbed
pub mod Registering
pub mod Balance
pub mod Counts
pub mod Threads
pub mod Dangling
pub mod Darwin
pub mod Statements
pub mod Configuring
pub mod Interps
pub mod Footprint
pub mod Compiling
pub mod Misuse
pub mod Notices
pub mod Tests
