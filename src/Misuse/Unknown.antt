-- ===== src/Misuse/Unknown.antt =====
-- generic/dtrace.c, the lookups at the head of the commands: a handle or a program that is not there.
use tcldtrace.Prelude.{
  ℕ, suc, ◌≡◌, refl, Bool, true, false, none, some, List, [], ◌∷◌, ◌++◌, Bytes, ℤ, pos, negsuc,
  arith, Dict, lookup, length, text,
}
use tcldtrace.State.{
  Obj, Value, str, Parsed, parsed, refused, Code, tcl_error, ProgramData, World, M, done, arg,
  ◌>>=◌,
}
use tcldtrace.Api.{Env}
use tcldtrace.Helpers.Registry.{get_hd, get_pd, find_by, find_entry}
use tcldtrace.Helpers.Checks.{objc_check, handle_check, program_check, fail_with, error_class}
use tcldtrace.Commands.Open.{close, close_handle}
use tcldtrace.Commands.Configure.{configure, configure_handle}
use tcldtrace.Commands.Programs.{
  compile, compile_handle, exec, info, exec_or_info, exec_handle, list_command, list_handle,
}
use tcldtrace.Commands.Processes.{grab, grab_handle, launch, launch_handle}
use tcldtrace.Commands.Tracing.{
  go, go_handle, stop, stop_handle, process, process_sleep, aggregations, aggregations_handle,
}
use tcldtrace.Commands.Dispatch.{Command, run_command}
use tcldtrace.Misuse.{accepts}

-- The table in which a command looks its first argument up.
pub data Table : Type 0 where
  of_handles of_programs no_table : Table

abbrev pub looks_in : Command → Table
looks_in Command.opens = no_table
looks_in Command.closes = of_handles
looks_in Command.configures = of_handles
looks_in Command.compiles = of_handles
looks_in Command.execs = of_programs
looks_in Command.infos = of_programs
looks_in Command.goes = of_handles
looks_in Command.stops = of_handles
looks_in Command.processes = of_handles
looks_in Command.lists = of_programs
looks_in Command.aggregates = of_handles
looks_in Command.grabs = of_handles
looks_in Command.launches = of_handles

abbrev pub complaint : Table → Bytes
complaint of_handles = text " bad handle"
complaint of_programs = text " bad program handle"
complaint no_table = []

-- A word that names nothing in a table: no number, a negative one, or one that is not there.
abbrev pub IsUnknown {ℓ} : {A : Type ℓ} → Parsed ℤ → Dict A → Type ℓ
IsUnknown (refused message) table = Unit
IsUnknown (parsed (pos n)) table = lookup n table ≡ none
IsUnknown (parsed (negsuc n)) table = Unit

abbrev pub IsUnfound : {D : Type 0} → Table → Parsed ℤ → World D → Type 0
IsUnfound of_handles p w = IsUnknown p w.handles
IsUnfound of_programs p w = IsUnknown p w.programs
IsUnfound no_table p w = ⊥

module _ {D : Type 0} (env : Env D) where
  -- What the result holds after the lookup: Tcl's own message where the word is no number.
  abbrev pub result_after : Parsed ℤ → Value → Value
  result_after (refused message) v = str (env.get_string (str message) ++ text "\n")
  result_after (parsed iid) v = v

  -- The flag of process is read before the handle.
  abbrev pub IsReadable : Command → List Obj → Type 0
  IsReadable Command.processes (flag ∷ words) =
      (sleep : Bool) × (env.get_boolean flag ≡ parsed sleep)
  IsReadable _ words = Unit

  -- The state in which a command leaves that finds nothing.
  abbrev pub complained : Table → Bytes → Parsed ℤ → World D → World D
  complained table name p w = record w {
    result = str (env.get_string (result_after p w.result) ++ (name ++ complaint table));
    error_code = error_class (text "HANDLE");
  }

  find_by-unknown {ℓ} :
      {A : Type ℓ}
      → (p : Parsed ℤ) (table : Dict A) (w : World D) → IsUnknown p table
      → find_by env p table w ≡ (record w { result = result_after p w.result }, none)
  unfolding find_by find_entry
  find_by-unknown (refused message) table w e = refl
  find_by-unknown (parsed (pos n)) table w e = rw e refl
  find_by-unknown (parsed (negsuc n)) table w e = refl

  handle-unknown :
      (objv : List Obj) (usage_text : Bytes) (good : Bool) (rest : Bytes → ℕ → M D Code)
      (name id : Obj) (words : List Obj) (w : World D)
      → good ≡ true
      → objv ≡ name ∷ id ∷ words
      → IsUnknown (env.get_int id) w.handles
      → objc_check env objv usage_text good
          (do
            name ← arg objv 0
            toid ← arg objv 1
            found ← get_hd env toid
            handle_check env name.str found (rest name.str))
          w
        ≡ done tcl_error (complained of_handles name.str (env.get_int id) w)
  unfolding objc_check get_hd handle_check fail_with
  handle-unknown objv usage_text good rest name id words w e is unknown =
      rw e (rw is (rw (find_by-unknown (env.get_int id) w.handles w unknown) refl))

  program-unknown :
      (objv : List Obj) (usage_text : Bytes) (good : Bool)
      (rest : Bytes → ProgramData → ℕ → M D Code) (name id : Obj) (words : List Obj) (w : World D)
      → good ≡ true
      → objv ≡ name ∷ id ∷ words
      → IsUnknown (env.get_int id) w.programs
      → objc_check env objv usage_text good
          (do
            name ← arg objv 0
            toid ← arg objv 1
            found ← get_pd env toid
            program_check env name.str found
                (λ pd. handle_check env name.str (some pd.hd) (rest name.str pd)))
          w
        ≡ done tcl_error (complained of_programs name.str (env.get_int id) w)
  unfolding objc_check get_pd program_check handle_check fail_with
  program-unknown objv usage_text good rest name id words w e is unknown =
      rw e (rw is (rw (find_by-unknown (env.get_int id) w.programs w unknown) refl))

  process_sleep-unknown :
      (name id : Obj) (words : List Obj) (sleep : Bool) (w : World D)
      → IsUnknown (env.get_int id) w.handles
      → process_sleep env (name ∷ id ∷ words) sleep w
        ≡ done tcl_error (complained of_handles name.str (env.get_int id) w)
  unfolding process_sleep get_hd handle_check fail_with
  process_sleep-unknown name id words sleep w unknown =
      rw (find_by-unknown (env.get_int id) w.handles w unknown) refl

  process-unknown :
      (name id : Obj) (words : List Obj) (w : World D)
      → accepts Command.processes (suc (length words)) ≡ true
      → IsReadable Command.processes words
      → IsUnknown (env.get_int id) w.handles
      → process env (name ∷ id ∷ words) w
        ≡ done tcl_error (complained of_handles name.str (env.get_int id) w)
  unfolding process objc_check
  process-unknown name id [] w e readable unknown = process_sleep-unknown name id [] false w unknown
  process-unknown name id (flag ∷ []) w e (sleep, readable) unknown =
      rw readable (process_sleep-unknown name id (flag ∷ []) sleep w unknown)
  process-unknown name id (flag ∷ more ∷ words) w e readable unknown = absurd (ground arith)

  -- Every command on a handle or a program, with a number of words that one of its forms has, where its
  -- first word is no number, or a number that finds nothing in the table that the command looks in,
  -- fails with the code of a bad handle, appends to the result, or to Tcl's message on the word, a text
  -- that begins with the name of the command, and changes nothing else. The flag of process, if there
  -- is one, has to be readable, as it is read before the handle.
  pub run_command-unknown :
      (command : Command) (name id : Obj) (words : List Obj) (w : World D)
      → accepts command (suc (length words)) ≡ true
      → IsReadable command words
      → IsUnfound (looks_in command) (env.get_int id) w
      → run_command env command (name ∷ id ∷ words) w
        ≡ done tcl_error (complained (looks_in command) name.str (env.get_int id) w)
  unfolding run_command close configure compile exec info exec_or_info go stop list_command
      aggregations grab launch
  run_command-unknown Command.opens name id words w e readable unknown = absurd unknown
  run_command-unknown Command.closes name id words w e readable unknown =
      handle-unknown _ _ _ (λ _. close_handle env) name id words w (ground arith) refl unknown
  run_command-unknown Command.configures name id words w e readable unknown =
      handle-unknown _ _ _ (λ c. configure_handle env c (name ∷ id ∷ words)) name id words w
        (ground arith) refl unknown
  run_command-unknown Command.compiles name id words w e readable unknown =
      handle-unknown _ _ _ (λ c. compile_handle env c (name ∷ id ∷ words)) name id words w
        (ground arith) refl unknown
  run_command-unknown Command.execs name id words w e readable unknown =
      program-unknown _ _ _ (exec_handle env true) name id words w (ground arith) refl unknown
  run_command-unknown Command.infos name id words w e readable unknown =
      program-unknown _ _ _ (exec_handle env false) name id words w (ground arith) refl unknown
  run_command-unknown Command.goes name id words w e readable unknown =
      handle-unknown _ _ _ (λ c. go_handle env c (name ∷ id ∷ words)) name id words w (ground arith)
        refl unknown
  run_command-unknown Command.stops name id words w e readable unknown =
      handle-unknown _ _ _ (stop_handle env) name id words w (ground arith) refl unknown
  run_command-unknown Command.processes name id words w e readable unknown =
      process-unknown name id words w e readable unknown
  run_command-unknown Command.lists name id words w e readable unknown =
      program-unknown _ _ _ (λ _. list_handle env (name ∷ id ∷ words)) name id words w
        (ground arith) refl unknown
  run_command-unknown Command.aggregates name id words w e readable unknown =
      handle-unknown _ _ _ (aggregations_handle env) name id words w (ground arith) refl unknown
  run_command-unknown Command.grabs name id words w e readable unknown =
      handle-unknown _ _ _ (λ c. grab_handle env c (name ∷ id ∷ words)) name id words w
        (ground arith) refl unknown
  run_command-unknown Command.launches name id words w e readable unknown =
      handle-unknown _ _ _ (λ c. launch_handle env c (name ∷ id ∷ words)) name id words w
        (ground arith) refl unknown
