-- ===== src/Tests/Sessions.antt =====
-- The theorems about reachable states, handles and programs, in the states of the script.
use tcldtrace.Prelude.{ℕ, ◌≡◌, ◌≢◌, ◌<◌, refl, none, some, List, [], ◌∷◌, pos, arith, lookup}
use tcldtrace.State.{Obj, list, values, World, done, bind, tcl_ok, parsed}
use tcldtrace.Api.{ActKind}
use tcldtrace.Helpers.Registry.{new_hd, get_hd}
use tcldtrace.Commands.Open.{close_handle}
use tcldtrace.Commands.Tracing.{aggregations_handle}
use tcldtrace.Commands.Dispatch.{Command, run_command}
use tcldtrace.Safety.Invariant.{Inv}
use tcldtrace.Safety.Reachable.{open_scope, Reach-Inv}
use tcldtrace.Aggregation.{
  feed, records, row_records, member_record, value_record, all_values, with_agg,
  aggregations_handle-rows,
}
use tcldtrace.Sessions.{Returns, new_hd-get_hd, close_handle-lookup}
use tcldtrace.Compiling.{with_program, compile-exec}
use tcldtrace.Commands.Programs.{info_list}
use tcldtrace.Tests.Setup.{no_info, env, laws, probe_data, rows}
use tcldtrace.Tests.Runs.{
  listed_world, listed_Reach, one, source, open_name, procs, opened_hd, grabbed_hd, opened_world,
  compiled_world, grabbed_world, compiled_Reach, grabbed_Reach, compiled_Good,
}

Reach-Inv_example : Inv {D = List ℕ} open_scope listed_world
Reach-Inv_example = Reach-Inv env procs laws 1 listed_world listed_Reach

aggregations_handle-rows_example :
    aggregations_handle env [] 1 opened_world
    ≡ done tcl_ok (record (with_agg 1 opened_hd none none opened_world) {
      result = list (values (all_values {D = List ℕ} rows));
    })
aggregations_handle-rows_example =
    aggregations_handle-rows env probe_data ActKind.difexpr refl [] 1 7 rows opened_hd opened_world
      (refl, (refl, tt)) (unfold lookup in refl) refl refl
      (λ v. unfold feed records row_records member_record value_record in refl)

new_hd-get_hd_example :
    Returns
      (λ id w'.
        (lookup id grabbed_world.handles ≡ none)
        × (id < w'.next_free_id)
        × ((o : Obj) → env.get_int o ≡ parsed (pos id) → get_hd env o w' ≡ done (some id) w')
        × ((j : ℕ) → j ≢ id → lookup j w'.handles ≡ lookup j grabbed_world.handles)
        × (w'.programs ≡ grabbed_world.programs))
      (new_hd grabbed_world)
new_hd-get_hd_example =
    new_hd-get_hd env open_scope grabbed_world
      (Reach-Inv env procs laws 1 grabbed_world grabbed_Reach) (omega arith)

-- Two handles, with a program of the second.
abbrev two_handles : World (List ℕ)
two_handles = record grabbed_world {
  handles = (1, 1) ∷ (2, 2) ∷ [];
  heap = (1, grabbed_hd) ∷ (2, opened_hd) ∷ [];
  programs = (1, record { compiled = 20; hd = 2 }) ∷ [];
}

close_handle-lookup_example :
    Returns
      (λ code w'.
        (code ≡ tcl_ok)
        × (lookup 1 w'.handles ≡ none)
        × (lookup 1 w'.heap ≡ none)
        × ((j : ℕ) → j ≢ 1 → lookup j w'.handles ≡ lookup j compiled_world.handles)
        × ((k : ℕ) → lookup k w'.programs ≡ none))
      (close_handle env 1 compiled_world)
close_handle-lookup_example = close_handle-lookup env open_scope 1 compiled_world compiled_Good

compile-exec_example :
    bind
      (run_command env Command.compiles (open_name ∷ one ∷ source ∷ []) compiled_world)
      (λ _. run_command env Command.execs (open_name ∷ open_name ∷ []))
    ≡ done tcl_ok (record (with_program 1 20 [] compiled_world) { result = info_list no_info })
compile-exec_example =
    compile-exec env open_scope open_name one source open_name open_name [] 1 7 20 opened_hd [] []
      no_info compiled_world (Reach-Inv env procs laws 1 compiled_world compiled_Reach) refl
      (unfold lookup in refl) refl (omega arith) refl refl refl
