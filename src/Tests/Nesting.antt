-- ===== src/Tests/Nesting.antt =====
-- A script whose callback opens a second handle while the first is listed.
use tcldtrace.Prelude.{
  ℕ, ◌≡◌, refl, Bool, true, some, [], ◌∷◌, List, pos, text, arith, lookup, insert, erase, ◌≢◌, ap,
  sym, subst, ◌∙◌, bytes_eq,
}
use tcldtrace.State.{Obj, Value, parsed, World, done, tcl_ok, bump, drop_one}
use tcldtrace.Helpers.Format.{format_probe_desc}
use tcldtrace.Helpers.Options.{internal_option, set_option}
use tcldtrace.Helpers.Registry.{new_hd, get_hd, get_pd, find_by, find_entry, register_pd}
use tcldtrace.Helpers.Checks.{objc_check, handle_check, program_check}
use tcldtrace.Callbacks.{
  interp_of, incr_refs, decr_refs, callback_eval, callback_result, list_probe, list_statement,
  iteration_result,
}
use tcldtrace.Commands.Open.{
  open_command, open_handle, open_result, open_options, options_result, open_handlers, establish,
  open_done, set_defaults, set_options,
}
use tcldtrace.Commands.Tracing.{stop, stop_handle}
use tcldtrace.Commands.Programs.{compile, compile_handle, list_command, list_handle}
use tcldtrace.Commands.Dispatch.{Command, run_command}
use tcldtrace.Lifecycle.Init.{fresh_world}
use tcldtrace.Scripts.{reset, Script, ends, invokes, nested}
use tcldtrace.Footprint.{Ok-bind}
use tcldtrace.Footprint.Leaks.{IsOwner}
use tcldtrace.Footprint.Serving.{CallingLaws}
use tcldtrace.Footprint.Scripted.{Session, begins, after}
use tcldtrace.Footprint.Nesting.{nested-OpenLaws, nested-IsOwner}
use tcldtrace.Footprint.Independence.{nested-independent}
use tcldtrace.Tests.Setup.{one_statement, probe_zero}
use tcldtrace.Tests.Runs.{one, open_name, compile_name, source, opened_hd}
use tcldtrace.Tests.Tracking.{
  Handles, is_open, tracking_env, tracking_laws, none_open, one_open, two_open,
}

abbrev list_name : Obj
list_name = record { ident = 9; str = b'l' ∷ [] }

-- Each callback opens a handle.
abbrev opening_procs : List Value → Script Handles
opening_procs words = invokes Command.opens (open_name ∷ []) (λ code w. ends true)

abbrev compiled_one : World Handles
compiled_one = record one_open {
  programs = (1, record { compiled = 20; hd = 1 }) ∷ [];
  next_free_pid = 2;
}

abbrev listed_two : World Handles
listed_two = record two_open {
  programs = (1, record { compiled = 20; hd = 1 }) ∷ [];
  next_free_pid = 2;
  refs = drop_one (drop_one (bump (bump compiled_one.refs 1) 1) 1) 1;
}

open_first :
    run_command
      (nested 1 opening_procs tracking_env)
      Command.opens
      (open_name ∷ [])
      (reset (fresh_world none_open))
    ≡ done tcl_ok one_open
unfolding run_command open_command open_handle open_result open_options options_result open_handlers
    establish open_done set_defaults set_options set_option internal_option new_hd text bytes_eq
    lookup insert erase
open_first = refl

compile_first :
    run_command
      (nested 1 opening_procs tracking_env)
      Command.compiles
      (compile_name ∷ one ∷ source ∷ [])
      (reset one_open)
    ≡ done tcl_ok compiled_one
unfolding run_command compile compile_handle objc_check get_hd find_by find_entry handle_check
    lookup insert register_pd text erase
compile_first = refl

list_first :
    run_command
      (nested 1 opening_procs tracking_env)
      Command.lists
      (list_name ∷ one ∷ one ∷ one ∷ [])
      (reset compiled_one)
    ≡ done tcl_ok listed_two
unfolding run_command list_command list_handle objc_check get_pd find_by find_entry handle_check
    program_check lookup insert erase text list_statement list_probe iteration_result callback_eval
    callback_result interp_of incr_refs decr_refs open_command open_handle open_result open_options
    options_result open_handlers establish open_done set_defaults set_options set_option
    internal_option new_hd bytes_eq format_probe_desc
list_first = refl

-- The laws of the functions that call back; what is iterated over makes no difference to which
-- handles are open.
calling_laws : CallingLaws tracking_env is_open
calling_laws = record {
  sleep = λ h call P steady keeps w p. p;
  work = λ h call P steady keeps w p. p;
  print = λ h call P steady keeps w p. p;
  stmt_iter = λ h program call last P steady keeps w p. keeps one_statement last w p;
  probe_iter = λ h pdesc call P steady keeps w p.
      Ok-bind (λ _. P) (λ _. P) (call probe_zero w) _ (keeps probe_zero w p) (λ r v q. q);
}

listed_two-Session : Session (nested 1 opening_procs tracking_env) is_open listed_two
listed_two-Session =
    after Command.lists (list_name ∷ one ∷ one ∷ one ∷ []) tcl_ok
      (after Command.compiles (compile_name ∷ one ∷ source ∷ []) tcl_ok
        (after Command.opens (open_name ∷ []) tcl_ok (begins none_open (λ k. ground arith))
          open_first)
        compile_first)
      list_first

nested-IsOwner_example : IsOwner is_open listed_two
nested-IsOwner_example =
    nested-IsOwner tracking_env is_open opening_procs tracking_laws calling_laws 1 listed_two
      listed_two-Session

stop_first :
    run_command
      (nested 1 opening_procs tracking_env)
      Command.stops
      (open_name ∷ one ∷ [])
      (reset listed_two)
    ≡ done tcl_ok (reset listed_two)
unfolding run_command stop stop_handle objc_check get_hd find_by find_entry handle_check lookup
stop_first = refl

-- The word of the command names the first handle.
first_only :
    (a : ℕ) (id : Obj) (n : ℕ)
    → some one ≡ some id
    → parsed (pos id.ident) ≡ parsed (pos n)
    → lookup n listed_two.handles ≡ some a
    → a ≢ 2
unfolding lookup
first_only a id n second number finds second_too =
    let is : one ≡ id = cc in
    let named : id.ident ≡ n = cc in
    let at : 1 ≡ n = ap (λ o. o.ident) is ∙ named in
    absurd (ground (arith, subst (λ m. lookup m listed_two.handles ≡ some a) (sym at) finds))

-- What libdtrace knows of the second handle, while the first is stopped.
abbrev second_open : Handles → Bool
second_open d = is_open 8 d

nested-independent_example :
    (lookup 2 (reset listed_two).heap ≡ lookup 2 listed_two.heap)
    × (second_open (reset listed_two).lib ≡ second_open listed_two.lib)
nested-independent_example =
    nested-independent tracking_env is_open opening_procs tracking_laws calling_laws 1 second_open
      Command.stops (open_name ∷ one ∷ []) tcl_ok 2 8 listed_two (reset listed_two)
      listed_two-Session refl stop_first
      (record opened_hd { handle = some 8 }, unfold lookup in refl, refl)
      (λ a (id, n, second, number, finds). first_only a id n second number finds)
      (λ h d d' other c.
        (nested-OpenLaws tracking_env is_open opening_procs tracking_laws calling_laws 1).steady h 8
          d d' c)
