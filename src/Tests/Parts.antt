-- ===== src/Tests/Parts.antt =====
-- The theorems about threads, interpreters, options and statements at concrete inputs.
use tcldtrace.Prelude.{
  false, insert, erase, ℕ, ◌≡◌, refl, Bool, none, some, List, [], ◌∷◌, pos, text, lookup, bytes_eq,
}
use tcldtrace.State.{World, Obj, given, str, done, fault, pure, bind, tcl_ok, tcl_error, parsed}
use tcldtrace.Api.{Env, StmtDesc, handle_abort, zero_reply}
use tcldtrace.Helpers.Options.{set_option, internal_option, is_zero}
use tcldtrace.Helpers.Registry.{get_hd, find_by}
use tcldtrace.Helpers.Checks.{objc_check, handle_check, fail_with, error_class}
use tcldtrace.Callbacks.{callback_eval}
use tcldtrace.Commands.Open.{close, close_handle, release_callbacks}
use tcldtrace.Commands.Configure.{configure_handle}
use tcldtrace.Commands.Programs.{list_handle}
use tcldtrace.Commands.Dispatch.{Command, run_command}
use tcldtrace.Safety.Reachable.{open_scope}
use tcldtrace.Configuring.Sequence.{words, answered, one_set, one_refused, configure_handle-Sets}
use tcldtrace.Statements.{iterate, without_repeats, visit, list_handle-without_repeats}
use tcldtrace.Dangling.{callback_eval-fault}
use tcldtrace.Interps.{Process, leave, launched, start_all, call_in, ReachAll-apart}
use tcldtrace.Misuse.{usage, run_command-miscounted}
use tcldtrace.Misuse.Unknown.{complained, of_handles, run_command-unknown}
use tcldtrace.Tests.Setup.{env, laws, one_statement, probe_zero}
use tcldtrace.Tests.Runs.{
  procs, one, open_name, close_name, source, opened_hd, opened_world, open_run, compiled_world,
  compiled_Good,
}

-- An environment in which a script closes the handle that its callback is for, and fails.
abbrev closing_env : Env (List ℕ)
closing_env = record env {
  eval_objv = λ objv v.
      bind (run_command env Command.closes (close_name ∷ one ∷ []) v) (λ _. pure Bool.false);
}

callback_eval-fault_example :
    callback_eval closing_env 1
      (given source ∷ [])
      (text "list")
      handle_abort
      zero_reply
      compiled_world
    ≡ fault
callback_eval-fault_example =
    callback_eval-fault closing_env open_scope 1 (given source ∷ []) (text "list") handle_abort
      zero_reply close_name one compiled_world refl
      (λ v.
        unfold run_command close close_handle objc_check get_hd find_by handle_check fail_with
          release_callbacks in
        refl)
      compiled_Good

-- The option of the extension, and the text 0.
abbrev fold_name : Obj
fold_name = record { ident = 8; str = text "-foldpdesc" }

abbrev zero_value : Obj
zero_value = record { ident = 0; str = text "0" }

-- An environment in which libdtrace refuses every option: the first option is set, the second is
-- refused, and the third is not tried.
abbrev refusing_env : Env (List ℕ)
refusing_env = record env { dtrace_setopt = λ h name value d. (false, d) }

abbrev other_name : Obj
other_name = record { ident = 8; str = text "-quiet" }

abbrev folded_world : World (List ℕ)
folded_world = record opened_world { heap = (1, record opened_hd { foldpdesc = pos 1 }) ∷ [] }

configure_handle-Sets_example :
    configure_handle refusing_env
      (text "configure")
      (source ∷ one ∷ words ((fold_name, one) ∷ (other_name, one) ∷ (fold_name, zero_value) ∷ []))
      1
      opened_world
    ≡ answered refusing_env 1 (text "configure") (some other_name) folded_world
configure_handle-Sets_example =
    configure_handle-Sets refusing_env 1 (text "configure") source one fold_name one
      ((other_name, one) ∷ (fold_name, zero_value) ∷ []) (some other_name) opened_world folded_world
      (one_set {w = opened_world} {v = folded_world} fold_name one
        (unfold set_option internal_option bytes_eq text is_zero lookup insert erase in refl)
        (one_refused {w = folded_world} {w' = folded_world} other_name one
          ((fold_name, zero_value) ∷ [])
          (unfold set_option internal_option bytes_eq text lookup insert erase in refl)))

-- A program of three statements, of which the first two have one enabling.
abbrev statements : List StmtDesc
statements =
    one_statement ∷ one_statement ∷ record { dtsd_ecbdesc = 41; dted_probe = probe_zero } ∷ []

abbrev listing_env : Env (List ℕ)
listing_env = record env { dtrace_stmt_iter = λ h p call last. iterate call statements last }

list_handle-without_repeats_example :
    list_handle listing_env
      (close_name ∷ one ∷ source ∷ one ∷ [])
      (record { compiled = 20; hd = 1 })
      1
      compiled_world
    ≡ bind
        (iterate
          (visit listing_env (record { last = none; hd = 1; proc = source; args = one }) 7)
          (without_repeats none statements)
          none
          compiled_world)
        (λ _. pure tcl_ok)
list_handle-without_repeats_example =
    list_handle-without_repeats listing_env (close_name ∷ one ∷ source ∷ one ∷ []) source one
      (record { compiled = 20; hd = 1 }) 1 7 opened_hd statements compiled_world refl refl
      (unfold lookup in refl) refl (λ call last v. refl)

-- One interpreter opens a handle; another, which has none, does not find it.
abbrev after_open : Process (List ℕ)
after_open = leave (launched []) 0 opened_world

ReachAll-apart_example : lookup 1 (after_open.interps 1).handles ≡ none
ReachAll-apart_example =
    ReachAll-apart env procs laws 1 after_open 0 1 1 1
      (call_in 0 Command.opens (open_name ∷ []) tcl_ok (start_all []) open_run) refl
      (unfold lookup in refl)

-- Go with a callback but no procedure, and Process with its flag on a number that was not given out.
run_command-miscounted_example :
    run_command env Command.goes (open_name ∷ one ∷ source ∷ []) compiled_world
    ≡ done tcl_error (record compiled_world {
      result = str (env.wrong_num_args (open_name ∷ one ∷ source ∷ []) (usage Command.goes));
      error_code = error_class (text "USAGE");
    })
run_command-miscounted_example =
    run_command-miscounted env Command.goes open_name (one ∷ source ∷ []) compiled_world refl

run_command-unknown_example :
    run_command env Command.processes (open_name ∷ source ∷ one ∷ []) compiled_world
    ≡ done tcl_error (complained env of_handles open_name.str (parsed (pos 4)) compiled_world)
run_command-unknown_example =
    run_command-unknown env Command.processes open_name source (one ∷ []) compiled_world refl
      (Bool.true, refl) (unfold lookup in refl)
