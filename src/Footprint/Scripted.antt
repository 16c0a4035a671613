-- ===== src/Footprint/Scripted.antt =====
-- Process, List and Aggregations of generic/dtrace.c, whose callbacks run scripts, and all commands:
-- no libdtrace handle is lost.
use tcldtrace.Prelude.{
  ℕ, ◌≡◌, refl, inl, inr, Bool, true, false, none, List, [], Bytes, lookup, Bool-cases,
  Option-cases, get_elem?, leb, ◌&&◌, length, ◌==◌, subst,
}
use tcldtrace.State.{
  bind, load, deref, store, set_result, list, values, pure, tcl_ok, ◌>>=◌, ◌>>◌, Obj, Parsed-cases,
  ProgramData, World, Code, done,
}
use tcldtrace.Api.{Env}
use tcldtrace.Helpers.Checks.{fail_with, lib_error, objc_check}
use tcldtrace.Commands.Programs.{list_command, list_handle}
use tcldtrace.Commands.Tracing.{
  process, process_sleep, process_handle, process_work, aggregations, aggregations_handle,
  print_aggregations,
}
use tcldtrace.Commands.Dispatch.{Command, run_command}
use tcldtrace.Callbacks.{deliver}
use tcldtrace.Lifecycle.Init.{fresh_world}
use tcldtrace.Scripts.{reset}
use tcldtrace.Footprint.{Ok}
use tcldtrace.Footprint.Subjects.{handle_command-Ok, program_command-Ok}
use tcldtrace.Footprint.Owners.{OpenLaws, OwnedIn}
use tcldtrace.Footprint.Leaks.{fresh_world-Owned, quiet-Owned}
use tcldtrace.Footprint.Serving.{
  CallingLaws, IsTidy, Keeps, Keeps-bind, Keeps-deref, Keeps-store, Keeps-handle_of,
}
use tcldtrace.Footprint.Called.{deliver-Keeps, list_statement-Keeps, OwnedIn-IsSteady}

module _ {D : Type 0} (env : Env D) (live : ℕ → D → Bool) where
  -- The states between the commands of any script, from a libdtrace with no open handle on.
  pub data Session : World D → Type 0 where
    begins : (d : D) → ((k : ℕ) → live k d ≡ false) → Session (fresh_world d)
    after :
        {w w' : World D} (command : Command) (objv : List Obj) (code : Code)
        → Session w
        → run_command env command objv (reset w) ≡ done code w'
        → Session w'

module _ {D : Type 0} (env : Env D) (live : ℕ → D → Bool) (laws : CallingLaws env live)
    (scripts : IsTidy env live) where
  lib_error-Keeps :
      (command : Bytes) (a : ℕ) (w : World D)
      → OwnedIn live w
      → Keeps live (lib_error env command a w)
  unfolding lib_error fail_with
  lib_error-Keeps command a w o = Keeps-handle_of live a _ w λ h. o

  process_work-Keeps :
      (command : Bytes) (a h : ℕ) (w : World D)
      → OwnedIn live w
      → Keeps live (process_work env command a h w)
  unfolding process_work
  process_work-Keeps command a h w o =
      Keeps-bind live (env.dtrace_work h (deliver env a) w) _
        (laws.work h (deliver env a) (OwnedIn live) (OwnedIn-IsSteady live)
          (deliver-Keeps env live laws scripts a) w o)
        λ good v q. elim (Bool-cases good) [
          | inl well ↦ rw well q
          | inr bad ↦ rw bad (lib_error-Keeps command a v q)
        ]

  process_handle-Keeps :
      (command : Bytes) (sleep : Bool) (a : ℕ) (w : World D)
      → OwnedIn live w
      → Keeps live (process_handle env command sleep a w)
  unfolding process_handle
  process_handle-Keeps command true a w o = Keeps-handle_of live a _ w λ h.
      Keeps-bind live (env.dtrace_sleep h (deliver env a) w) _
        (laws.sleep h (deliver env a) (OwnedIn live) (OwnedIn-IsSteady live)
          (deliver-Keeps env live laws scripts a) w o)
        λ _ v q. Keeps-handle_of live a _ v λ now. process_work-Keeps command a now v q
  process_handle-Keeps command false a w o =
      Keeps-handle_of live a _ w
        λ h. Keeps-handle_of live a _ w λ now. process_work-Keeps command a now w o

  print_aggregations-Keeps :
      (command : Bytes) (a h : ℕ) (w : World D)
      → OwnedIn live w
      → Keeps live (print_aggregations env command a h w)
  unfolding print_aggregations
  print_aggregations-Keeps command a h w o =
      Keeps-bind live (env.dtrace_aggregate_print h (deliver env a) w) _
        (laws.print h (deliver env a) (OwnedIn live) (OwnedIn-IsSteady live)
          (deliver-Keeps env live laws scripts a) w o)
        λ good v q. elim (Bool-cases good) [
          | inl well ↦ rw well (read v q)
          | inr bad ↦ rw bad (lib_error-Keeps command a v q)
        ]
    where
      read :
          (v : World D)
          → OwnedIn live v
          → Keeps live (
              bind (load a v) (λ after. do
                rows ← deref after.agg.list
                set_result (list (values rows))
                store a (record after { agg = record { tuple = after.agg.tuple; list = none } })
                pure tcl_ok))
      read v q = elim (Option-cases (lookup a v.heap)) [
        | inl gone ↦ rw gone tt
        | inr (hd, l) ↦ rw l (
            Keeps-deref live hd.agg.list _ v λ rows.
              Keeps-bind live _ _
                (Keeps-store live a hd _ (record v { result = list (values rows) }) q l refl)
                λ _ u r. r)
      ]

  aggregations_handle-Keeps :
      (command : Bytes) (a : ℕ) (w : World D)
      → OwnedIn live w
      → Keeps live (aggregations_handle env command a w)
  unfolding aggregations_handle
  aggregations_handle-Keeps command a w o = elim (Option-cases (lookup a w.heap)) [
    | inl gone ↦ rw (gone, aggregations_handle) tt
    | inr (hd, l) ↦
        rw (l, aggregations_handle)
          (Keeps-bind live _ _ (Keeps-store live a hd _ w o l refl)
            λ _ v q. Keeps-handle_of live a _ v λ h. print_aggregations-Keeps command a h v q)
  ]

  list_handle-Keeps :
      (objv : List Obj) (pd : ProgramData) (a : ℕ) (w : World D)
      → OwnedIn live w
      → Keeps live (list_handle env objv pd a w)
  unfolding list_handle
  list_handle-Keeps objv pd a w o = Keeps-deref live (get_elem? objv 2) _ w λ proc.
      Keeps-deref live (get_elem? objv 3) _ w λ args. Keeps-handle_of live a _ w λ h.
        Keeps-bind live (env.dtrace_stmt_iter h pd.compiled _ none w) _
          (laws.stmt_iter h pd.compiled _ none (OwnedIn live) (OwnedIn-IsSteady live)
            (list_statement-Keeps env live laws scripts _ h) w o)
          λ last v q. q

  aggregations-Keeps :
      (objv : List Obj) (w : World D) → OwnedIn live w → Keeps live (aggregations env objv w)
  unfolding aggregations
  aggregations-Keeps objv w o =
      handle_command-Ok env objv w (OwnedIn live) (λ result error_code. o) _ _
        (λ name. aggregations_handle env name)
        (λ name a h named held. aggregations_handle-Keeps name a w o)

  list_command-Keeps :
      (objv : List Obj) (w : World D) → OwnedIn live w → Keeps live (list_command env objv w)
  unfolding list_command
  list_command-Keeps objv w o =
      program_command-Ok env objv w (OwnedIn live) (λ result error_code. o) _ _
        (λ name pd. list_handle env objv pd)
        (λ name pd a h named held. list_handle-Keeps objv pd a w o)

  process_sleep-Keeps :
      (objv : List Obj) (sleep : Bool) (w : World D)
      → OwnedIn live w
      → Keeps live (process_sleep env objv sleep w)
  unfolding process_sleep objc_check
  process_sleep-Keeps objv sleep w o =
      handle_command-Ok env objv w (OwnedIn live) (λ result error_code. o) [] true
        (λ name. process_handle env name sleep)
        (λ name a h named held. process_handle-Keeps name sleep a w o)

  process-Keeps : (objv : List Obj) (w : World D) → OwnedIn live w → Keeps live (process env objv w)
  unfolding process objc_check fail_with
  process-Keeps objv w o = elim (Bool-cases (leb 2 (length objv) && leb (length objv) 3)) [
    | inr misused ↦ rw (misused, objc_check) o
    | inl counted ↦
        rw (counted, objc_check)
          (Keeps-deref live (get_elem? objv 0) _ w λ name. elim (Bool-cases (length objv == 3)) [
            | inr short ↦ rw short (process_sleep-Keeps objv false w o)
            | inl long ↦ rw long (
                Keeps-deref live (get_elem? objv 2) _ w λ flag.
                  elim (Parsed-cases (env.get_boolean flag)) [
                    | inl (m, bad) ↦ rw bad o
                    | inr (sleep, good) ↦ rw good (process_sleep-Keeps objv sleep w o)
                  ])
          ])
  ]

module _ {D : Type 0} (env : Env D) (live : ℕ → D → Bool) (opens : OpenLaws env live)
    (laws : CallingLaws env live) (scripts : IsTidy env live) where
  pub run_command-Keeps :
      (command : Command) (objv : List Obj) (w : World D)
      → OwnedIn live w
      → Keeps live (run_command env command objv w)
  unfolding run_command
  run_command-Keeps Command.processes objv w o = process-Keeps env live laws scripts objv w o
  run_command-Keeps Command.lists objv w o = list_command-Keeps env live laws scripts objv w o
  run_command-Keeps Command.aggregates objv w o = aggregations-Keeps env live laws scripts objv w o
  run_command-Keeps Command.opens objv w o = quiet-Owned env live opens Command.opens objv w refl o
  run_command-Keeps Command.closes objv w o =
      quiet-Owned env live opens Command.closes objv w refl o
  run_command-Keeps Command.configures objv w o =
      quiet-Owned env live opens Command.configures objv w refl o
  run_command-Keeps Command.compiles objv w o =
      quiet-Owned env live opens Command.compiles objv w refl o
  run_command-Keeps Command.execs objv w o = quiet-Owned env live opens Command.execs objv w refl o
  run_command-Keeps Command.infos objv w o = quiet-Owned env live opens Command.infos objv w refl o
  run_command-Keeps Command.goes objv w o = quiet-Owned env live opens Command.goes objv w refl o
  run_command-Keeps Command.stops objv w o = quiet-Owned env live opens Command.stops objv w refl o
  run_command-Keeps Command.grabs objv w o = quiet-Owned env live opens Command.grabs objv w refl o
  run_command-Keeps Command.launches objv w o =
      quiet-Owned env live opens Command.launches objv w refl o

  pub Session-OwnedIn : (w : World D) → Session env live w → OwnedIn live w
  Session-OwnedIn w (begins d idle) = fresh_world-Owned env live opens d idle
  Session-OwnedIn w' (after {w = w} command objv code s e) =
      subst (Ok (λ _. OwnedIn live)) e
        (run_command-Keeps command objv (reset w) (Session-OwnedIn w s))
