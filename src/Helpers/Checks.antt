-- ===== src/Helpers/Checks.antt =====
-- The macros of generic/dtrace.c that return from the command around them. What follows the macro in
-- the command is their last argument.
use tcldtrace.Prelude.{ℕ, Bool, true, false, Option, none, some, List, [], ◌∷◌, ◌++◌, Bytes, text}
use tcldtrace.State.{
  Obj, str, Code, tcl_error, ProgramData, M, pure, gets, ◌>>=◌, ◌>>◌, load, handle_of, set_result,
  set_error_code,
}
use tcldtrace.Api.{Env}
use tcldtrace.Text.{decimal}
use tcldtrace.Helpers.Registry.{append_result}

-- `ERROR_CLASS`
abbrev pub error_class : Bytes → List Bytes
error_class code = text "DTRACE" ∷ code ∷ []

module _ {D : Type 0} (env : Env D) where
  -- The end of a command that fails: a message, an error code, `TCL_ERROR`.
  unfoldable pub fail_with : Bytes → List Bytes → M D Code
  fail_with message code = do append_result env message; set_error_code code; pure tcl_error

  -- `objcCheck`
  unfoldable pub objc_check : List Obj → Bytes → Bool → M D Code → M D Code
  objc_check objv arguments true rest = rest
  objc_check objv arguments false rest = do
    set_result (str (env.wrong_num_args objv arguments))
    set_error_code (error_class (text "USAGE"))
    pure tcl_error

  -- `handleCheck`, on the pointer that a lookup gave
  unfoldable pub handle_check : Bytes → Option ℕ → (ℕ → M D Code) → M D Code
  unfolding fail_with
  handle_check command none rest =
      fail_with (command ++ text " bad handle") (error_class (text "HANDLE"))
  handle_check command (some a) rest = do
    hd ← load a
    elim hd.handle [
      | none ↦ fail_with (command ++ text " bad handle") (error_class (text "HANDLE"))
      | some _ ↦ rest a
    ]

  -- The test of a program handle in `Exec_or_Info` and `List`.
  unfoldable pub program_check : Bytes → Option ProgramData → (ProgramData → M D Code) → M D Code
  unfolding fail_with
  program_check command none rest =
      fail_with (command ++ text " bad program handle") (error_class (text "HANDLE"))
  program_check command (some pd) rest = rest pd

  -- `libError`: the buffer `errnum` has `TCL_INTEGER_SPACE` bytes, which hold any `int`.
  unfoldable pub lib_error : Bytes → ℕ → M D Code
  unfolding fail_with
  lib_error command a = do
    h ← handle_of a
    errno ← gets (λ w. env.dtrace_errno h w.lib)
    message ← gets (λ w. env.dtrace_errmsg (some h) errno w.lib)
    fail_with (command ++ (text " libdtrace error: " ++ message))
        (text "DTRACE" ∷ text "LIB" ∷ decimal errno ∷ [])
