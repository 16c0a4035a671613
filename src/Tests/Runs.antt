-- ===== src/Tests/Runs.antt =====
-- A script: a handle is opened, a program is compiled, a process is grabbed. The states between the
-- commands, and that they are reached.
use tcldtrace.Prelude.{
  ℕ, ◌≡◌, refl, Bool, none, some, List, [], ◌∷◌, pos, text, lookup, insert, erase, bytes_eq,
}
use tcldtrace.State.{Obj, Value, str, int, HandleData, World, done, tcl_ok}
use tcldtrace.Api.{Env}
use tcldtrace.Helpers.Options.{internal_option, set_option}
use tcldtrace.Helpers.Registry.{get_pd, new_hd, register_pd, get_hd, find_by, find_entry}
use tcldtrace.Helpers.Checks.{program_check, objc_check, handle_check}
use tcldtrace.Commands.Open.{
  open_command, open_handle, open_result, open_options, options_result, open_handlers, establish,
  open_done, set_defaults, set_options,
}
use tcldtrace.Commands.Programs.{list_command, list_handle, compile, compile_handle}
use tcldtrace.Commands.Processes.{
  grab, grab_handle, record_process, store_process, push_process, grow, resize, to_pid,
}
use tcldtrace.Commands.Dispatch.{Command, run_command}
use tcldtrace.Lifecycle.Init.{fresh_world}
use tcldtrace.Safety.Invariant.{Good}
use tcldtrace.State.{bump, drop_one}
use tcldtrace.Helpers.Registry.{del_hd, free_programs}
use tcldtrace.Commands.Open.{close, close_handle, release_callbacks}
use tcldtrace.Commands.Tracing.{
  go, go_handle, register_callbacks, callback_spec, callback_names, register_callback,
  start_tracing, continue_processes, update,
}
use tcldtrace.Callbacks.{
  list_statement, iteration_result, list_probe, callback_eval, callback_result, incr_refs,
  decr_refs, interp_of,
}
use tcldtrace.Helpers.Format.{format_probe_desc}
use tcldtrace.Scripts.{Script, ends, invokes, nested, reset}
use tcldtrace.Safety.Reachable.{Later, now, after, open_scope, Reach, start, call, Reach-Inv}
use tcldtrace.Tests.Setup.{env, laws}

-- The objects of the script: the number 1, and the names of the commands.
abbrev pub one : Obj
one = record { ident = 1; str = b'1' ∷ [] }

abbrev pub open_name : Obj
open_name = record { ident = 2; str = b'o' ∷ [] }

abbrev pub compile_name : Obj
compile_name = record { ident = 3; str = b'c' ∷ [] }

abbrev pub source : Obj
source = record { ident = 4; str = b'B' ∷ [] }

abbrev pub grab_name : Obj
grab_name = record { ident = 5; str = b'g' ∷ [] }

-- The structure of the one handle, before and after a process is grabbed.
abbrev pub opened_hd : HandleData
opened_hd = record {
  handle = some 7;
  foldpdesc = pos 0;
  interp = Bool.true;
  agg = record { tuple = none; list = none };
  processes = [];
  proc_count = 0;
  proc_capacity = 0;
  callbacks = λ i. none;
  args = λ i. none;
}

abbrev pub grabbed_hd : HandleData
grabbed_hd = record opened_hd { processes = some 30 ∷ []; proc_count = 1; proc_capacity = 1 }

abbrev pub opened_world : World (List ℕ)
opened_world = record (fresh_world {D = List ℕ} []) {
  handles = (1, 1) ∷ [];
  heap = (1, opened_hd) ∷ [];
  next_free_id = 2;
  result = int (pos 1);
}

abbrev pub compiled_world : World (List ℕ)
compiled_world = record opened_world {
  programs = (1, record { compiled = 20; hd = 1 }) ∷ [];
  next_free_pid = 2;
}

abbrev pub grabbed_world : World (List ℕ)
grabbed_world = record compiled_world { heap = (1, grabbed_hd) ∷ []; result = str [] }

-- Every callback opens a handle.
abbrev pub procs : List Value → Script (List ℕ)
procs objv = invokes Command.opens (open_name ∷ []) (λ code w. ends Bool.true)

abbrev pub scripted : Env (List ℕ)
scripted = nested 1 procs env

pub open_run :
    run_command scripted Command.opens (open_name ∷ []) (reset (fresh_world []))
    ≡ done tcl_ok opened_world
unfolding run_command open_command open_handle open_result open_options options_result open_handlers
    establish open_done set_defaults set_options set_option internal_option new_hd text bytes_eq
    lookup insert erase objc_check
open_run = refl

compile_run :
    run_command scripted Command.compiles (compile_name ∷ one ∷ source ∷ []) (reset opened_world)
    ≡ done tcl_ok compiled_world
unfolding run_command compile compile_handle objc_check get_hd find_by find_entry handle_check
    lookup insert register_pd text erase
compile_run = refl

pub grab_run :
    run_command scripted Command.grabs (grab_name ∷ one ∷ source ∷ []) (reset compiled_world)
    ≡ done tcl_ok grabbed_world
unfolding run_command grab grab_handle objc_check get_hd find_by find_entry handle_check lookup
    insert record_process store_process push_process grow resize to_pid text erase
grab_run = refl

pub compiled_Reach : Reach scripted compiled_world
compiled_Reach =
    call Command.compiles (compile_name ∷ one ∷ source ∷ []) tcl_ok
      (call Command.opens (open_name ∷ []) tcl_ok (start []) open_run) compile_run

-- List, whose callback opens a second handle while libdtrace iterates over the probes.
abbrev pub list_name : Obj
list_name = record { ident = 8; str = b'l' ∷ [] }

abbrev pub listed_world : World (List ℕ)
listed_world = record compiled_world {
  handles = (2, 2) ∷ (1, 1) ∷ [];
  heap = (2, opened_hd) ∷ (1, opened_hd) ∷ [];
  next_free_id = 3;
  result = int (pos 2);
  refs = drop_one (drop_one (bump (bump compiled_world.refs 4) 1) 4) 1;
}

pub list_run :
    run_command scripted Command.lists (list_name ∷ one ∷ source ∷ one ∷ []) (reset compiled_world)
    ≡ done tcl_ok listed_world
unfolding run_command list_command list_handle objc_check get_pd find_by find_entry handle_check
    lookup insert erase list_statement iteration_result list_probe callback_eval callback_result
    incr_refs decr_refs interp_of format_probe_desc open_command open_handle open_result
    open_options options_result open_handlers establish open_done set_defaults set_options new_hd
    text bytes_eq program_check
list_run = refl

pub listed_Reach : Reach scripted listed_world
listed_Reach =
    call Command.lists (list_name ∷ one ∷ source ∷ one ∷ []) tcl_ok compiled_Reach list_run

pub grabbed_Reach : Reach scripted grabbed_world
grabbed_Reach = call Command.grabs (grab_name ∷ one ∷ source ∷ []) tcl_ok compiled_Reach grab_run

-- The structure and the state after a callback is registered, and after the handle is closed.
abbrev pub go_name : Obj
go_name = record { ident = 6; str = b'g' ∷ [] }

abbrev pub traced_hd : HandleData
traced_hd = record grabbed_hd {
  callbacks = update grabbed_hd.callbacks 4 one;
  args = update grabbed_hd.args 4 one;
}

abbrev pub traced_world : World (List ℕ)
traced_world = record grabbed_world {
  heap = (1, traced_hd) ∷ [];
  refs = bump (bump grabbed_world.refs 1) 1;
  lib = 30 ∷ [];
}

abbrev pub close_name : Obj
close_name = record { ident = 7; str = b'e' ∷ [] }

abbrev pub closed_world : World (List ℕ)
closed_world = record traced_world {
  handles = [];
  programs = [];
  heap = [];
  refs = drop_one (drop_one traced_world.refs 1) 1;
}

go_run :
    run_command scripted Command.goes (go_name ∷ one ∷ source ∷ one ∷ []) (reset grabbed_world)
    ≡ done tcl_ok traced_world
unfolding run_command go go_handle objc_check get_hd find_by find_entry handle_check lookup insert
    erase register_callbacks callback_spec callback_names register_callback start_tracing
    continue_processes text
go_run = refl

pub close_run :
    run_command scripted Command.closes (close_name ∷ one ∷ []) (reset traced_world)
    ≡ done tcl_ok closed_world
unfolding run_command close close_handle objc_check get_hd find_by find_entry handle_check lookup
    insert erase release_callbacks del_hd free_programs text
close_run = refl

pub traced_Reach : Reach scripted traced_world
traced_Reach = call Command.goes (go_name ∷ one ∷ source ∷ one ∷ []) tcl_ok grabbed_Reach go_run

pub closed_Reach : Reach scripted closed_world
closed_Reach = call Command.closes (close_name ∷ one ∷ []) tcl_ok traced_Reach close_run

-- A second handle, opened after the first was closed.
abbrev pub again_world : World (List ℕ)
again_world = record closed_world {
  handles = (2, 2) ∷ [];
  heap = (2, opened_hd) ∷ [];
  next_free_id = 3;
  result = int (pos 2);
}

again_run :
    run_command scripted Command.opens (open_name ∷ []) (reset closed_world)
    ≡ done tcl_ok again_world
unfolding run_command open_command open_handle open_result open_options options_result open_handlers
    establish open_done set_defaults set_options new_hd text bytes_eq lookup insert erase objc_check
again_run = refl

pub again_Later : Later scripted closed_world again_world
again_Later = after Command.opens (open_name ∷ []) tcl_ok now again_run

pub compiled_Good : Good {D = List ℕ} open_scope 1 compiled_world
unfolding lookup
compiled_Good =
    (Reach-Inv env procs laws 1 compiled_world compiled_Reach, (opened_hd, 7, refl, refl))
