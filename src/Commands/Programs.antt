-- ===== src/Commands/Programs.antt =====
-- generic/dtrace.c: Compile, Exec_or_Info, Exec, Info and List.
use tcldtrace.Prelude.{
  ℕ, Bool, true, false, Option, none, some, List, [], ◌∷◌, ◌++◌, Bytes, pos, text, ◌==◌, leb,
  length, drop, map,
}
use tcldtrace.State.{
  Obj, Value, str, int, list, values, Code, tcl_ok, ProgramData, M, pure, ◌>>=◌, ◌>>◌, arg,
  handle_of, set_result,
}
use tcldtrace.Api.{Env, ProgInfo, lib}
use tcldtrace.Helpers.Registry.{get_hd, get_pd, register_pd}
use tcldtrace.Helpers.Checks.{
  fail_with, objc_check, handle_check, program_check, lib_error, error_class,
}
use tcldtrace.Callbacks.{list_statement}

-- The alternating list that `Exec` and `Info` return.
unfoldable pub info_list : ProgInfo → Value
info_list info = list (
    values (
      str (text "aggregates")
      ∷ int info.dpi_aggregates
      ∷ str (text "recgens")
      ∷ int info.dpi_recgens
      ∷ str (text "matches")
      ∷ int info.dpi_matches
      ∷ str (text "speculations")
      ∷ int info.dpi_speculations
      ∷ []))

abbrev pub strings : List Obj → List Bytes
strings = map λ o. o.str

module _ {D : Type 0} (env : Env D) where
  unfoldable pub compile_handle : Bytes → List Obj → ℕ → M D Code
  compile_handle command objv a = do
    source ← arg objv 2
    h ← handle_of a
    compiled ← lib (env.dtrace_program_strcompile h source.str (strings (drop 3 objv)))
    elim compiled [
      | none ↦ lib_error env command a
      | some program ↦ do id ← register_pd a program; set_result (int (pos id)); pure tcl_ok
    ]

  unfoldable pub compile : List Obj → M D Code
  unfolding compile_handle
  compile objv =
      objc_check env objv (text "handle program ?argument0 argument1 ...?") (leb 3 (length objv)) do
        name ← arg objv 0
        toid ← arg objv 1
        found ← get_hd env toid
        handle_check env name.str found (compile_handle name.str objv)

  -- The call of libdtrace in `Exec_or_Info`: `none` where `exec_result` is -1.
  unfoldable pub exec_program : Bool → ℕ → ℕ → M D (Option ProgInfo)
  exec_program true h compiled = lib (env.dtrace_program_exec h compiled)
  exec_program false h compiled = do
    info ← lib (env.dtrace_program_info h compiled)
    pure (some info)

  unfoldable pub exec_handle : Bool → Bytes → ProgramData → ℕ → M D Code
  unfolding exec_program
  exec_handle exec command pd a = do
    h ← handle_of a
    result ← exec_program exec h pd.compiled
    elim result [
      | none ↦
          fail_with env (command ++ text " failed enable the probe") (error_class (text "EXEC"))
      | some info ↦ do set_result (info_list info); pure tcl_ok
    ]

  unfoldable pub exec_or_info : Bool → List Obj → M D Code
  unfolding exec_handle
  exec_or_info exec objv = objc_check env objv (text "compiled_program") (length objv == 2) do
    name ← arg objv 0
    id ← arg objv 1
    found ← get_pd env id
    program_check env name.str found
        λ pd. handle_check env name.str (some pd.hd) (exec_handle exec name.str pd)

  unfoldable pub exec : List Obj → M D Code
  unfolding exec_or_info
  exec objv = exec_or_info true objv

  unfoldable pub info : List Obj → M D Code
  unfolding exec_or_info
  info objv = exec_or_info false objv

  -- `List` once its handle is checked; the result of the iteration is dropped.
  unfoldable pub list_handle : List Obj → ProgramData → ℕ → M D Code
  list_handle objv pd a = do
    proc ← arg objv 2
    args ← arg objv 3
    h ← handle_of a
    last ←
        env.dtrace_stmt_iter h pd.compiled
          (list_statement env (record { last = none; hd = a; proc = proc; args = args }) h) none
    pure tcl_ok

  unfoldable pub list_command : List Obj → M D Code
  unfolding list_handle
  list_command objv =
      objc_check env objv (text "compiled_program list_callback arg") (length objv == 4) do
        name ← arg objv 0
        id ← arg objv 1
        found ← get_pd env id
        program_check env name.str found
            λ pd. handle_check env name.str (some pd.hd) (list_handle objv pd)
