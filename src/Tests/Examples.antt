-- ===== src/Tests/Examples.antt =====
-- The theorems about processes, callbacks and the life of the extension, in the states of the script.
use tcldtrace.Prelude.{
  ℕ, ◌≡◌, ◌≢◌, ◌≤◌, refl, Bool, true, some, List, [], ◌∷◌, ◌++◌, arith, text, lookup,
}
use tcldtrace.State.{given, Value, tcl_error, Obj, HandleData, World, done, fault, tcl_ok, zeroed}
use tcldtrace.Api.{zero_reply, handle_abort}
use tcldtrace.Callbacks.{callback_eval}
use tcldtrace.Commands.Processes.{grow, push_process}
use tcldtrace.Commands.Tracing.{callback_names, register_callback, register_callbacks, go_handle}
use tcldtrace.Helpers.Checks.{error_class}
use tcldtrace.Lifecycle.DeInit.{dtrace_deinit}
use tcldtrace.Lifecycle.Laws.{dtrace_deinit-fault}
use tcldtrace.Safety.Invariant.{zeroed-IsWellFormed}
use tcldtrace.Safety.Reachable.{Reach-Inv}
use tcldtrace.Grabbed.{recorded, continued, push_process-recorded, go_handle-recorded}
use tcldtrace.Registering.Sequence.{entered, nothing, bad_name, go_handle-Enters}
use tcldtrace.Registering.{registered, with_callback, register_callback-registered}
use tcldtrace.Balance.{release_callbacks-register_callback}
use tcldtrace.Commands.Open.{release_callbacks, callbacks_count}
use tcldtrace.Counts.{callback_eval-refs}
use tcldtrace.Sessions.{Returns}
use tcldtrace.Tests.Setup.{env, laws}
use tcldtrace.Tests.Runs.{
  go_name, procs, compiled_Reach, one, source, opened_hd, grabbed_hd, opened_world, compiled_world,
  grabbed_world, grabbed_Reach,
}

-- An object whose scripts fail.
abbrev failing : Obj
failing = record { ident = 10; str = b'f' ∷ [] }

push_process-recorded_example :
    (hd' : HandleData) × (push_process (grow zeroed) 30 ≡ some hd')
    × (recorded hd' ≡ recorded zeroed ++ some 30 ∷ [])
    × (hd'.proc_capacity ≤ 1)
push_process-recorded_example = push_process-recorded zeroed 30 zeroed-IsWellFormed

go_handle-recorded_example :
    go_handle env (text "go") (source ∷ one ∷ []) 1 grabbed_world
    ≡ done tcl_ok (record grabbed_world { lib = continued env 7 (recorded grabbed_hd) [] })
go_handle-recorded_example =
    go_handle-recorded env (text "go") (source ∷ one ∷ []) 1 7 true grabbed_hd grabbed_world
      grabbed_world [] (unfold register_callbacks in refl)
      ((Reach-Inv env procs laws 1 grabbed_world grabbed_Reach).owned 1 grabbed_hd
        (unfold lookup in refl)).1
      (unfold lookup in refl) refl refl

register_callback-registered_example :
    (register_callback env 1 4 source one opened_world
      ≡ done tt (registered 1 opened_hd 4 source one opened_world))
    × ((with_callback opened_hd 4 source one).callbacks 4 ≡ some source)
    × ((with_callback opened_hd 4 source one).args 4 ≡ some one)
    × ((j : ℕ) → 4 ≢ j → (with_callback opened_hd 4 source one).callbacks j ≡ opened_hd.callbacks j)
    × ((o : Obj)
        → opened_hd.callbacks 4 ≡ some o
        → o.ident ≢ source.ident
        → o.ident ≢ one.ident
        → (registered 1 opened_hd 4 source one opened_world).refs o.ident
          ≡ opened_world.refs o.ident)
register_callback-registered_example =
    register_callback-registered env 1 4 source one opened_hd opened_world (omega arith)
      (unfold lookup in refl)

-- A callback that is known, and then a name that is none.
abbrev stopped_world : World (List ℕ)
stopped_world = registered 1 opened_hd 4 one one opened_world

go_handle-Enters_example :
    (stopped_world.lib ≡ opened_world.lib)
    × ((result : Value) × (go_handle env
            (text "go")
            (one ∷ one ∷ source ∷ one ∷ go_name ∷ one ∷ [])
            1
            opened_world
          ≡ done tcl_error
              (record stopped_world { result = result; error_code = error_class (text "USAGE") })))
go_handle-Enters_example =
    go_handle-Enters env 1 (text "go") one one go_name one ((source, one) ∷ []) [] opened_world
      stopped_world
      (entered {w = opened_world} {v = stopped_world} source one 4 one one opened_hd
        (unfold callback_names in refl) refl (omega arith) (unfold lookup in refl)
        (nothing stopped_world))
      (bad_name (text "callback name") (unfold callback_names in refl))

dtrace_deinit-fault_example : dtrace_deinit env opened_world ≡ fault
dtrace_deinit-fault_example =
    dtrace_deinit-fault env 1 1 7 opened_hd [] opened_world refl (unfold lookup in refl) refl

release_callbacks-register_callback_example :
    (w' w₁ w₂ : World (List ℕ)) × (register_callback env 1 4 source one compiled_world ≡ done tt w')
    × (release_callbacks env 1 0 callbacks_count w' ≡ done tt w₁)
    × (release_callbacks env 1 0 callbacks_count compiled_world ≡ done tt w₂)
    × ((n : ℕ) → w₁.refs n ≡ w₂.refs n)
release_callbacks-register_callback_example =
    release_callbacks-register_callback env 1 4 source one opened_hd compiled_world
      ((Reach-Inv env procs laws 1 compiled_world compiled_Reach).owned 1 opened_hd
        (unfold lookup in refl)).1
      (omega arith) (unfold lookup in refl) refl

callback_eval-refs_example :
    Returns
      (λ _ w'. (n : ℕ) → w'.refs n ≡ compiled_world.refs n)
      (callback_eval env 1
        (given failing ∷ given one ∷ [])
        (text "list")
        handle_abort
        zero_reply
        compiled_world)
callback_eval-refs_example =
    callback_eval-refs env 1 (given failing ∷ given one ∷ []) (text "list") handle_abort zero_reply
      opened_hd compiled_world (unfold lookup in refl) refl
      (λ refs. record {
        code = Bool.false;
        after = record compiled_world { refs = refs };
        returns = refl;
        counts = λ n. refl;
        hd = opened_hd;
        live = unfold lookup in refl;
        interp = refl;
      })
