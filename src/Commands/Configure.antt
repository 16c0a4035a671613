-- ===== src/Commands/Configure.antt =====
-- generic/dtrace.c: Configure, and the basic options of generic/dtrace.h without `__APPLE__`.
use tcldtrace.Prelude.{
  ℕ, ◌%◌, true, false, ◌||◌, Option, none, some, List, [], ◌∷◌, ◌++◌, Bytes, text, ◌==◌, length,
  drop,
}
use tcldtrace.State.{
  Obj, Value, str, list, values, Code, tcl_ok, M, done, pure, bind, ◌>>=◌, ◌>>◌, arg, set_result,
}
use tcldtrace.Api.{Env}
use tcldtrace.Helpers.Options.{get_option}
use tcldtrace.Helpers.Registry.{get_hd}
use tcldtrace.Helpers.Checks.{fail_with, objc_check, handle_check, error_class}
use tcldtrace.Commands.Open.{set_options}

unfoldable pub basic_options : List Bytes
basic_options = text "-flowindent" ∷ text "-quiet" ∷ text "-bufsize" ∷ text "-foldpdesc" ∷ []

module _ {D : Type 0} (env : Env D) where
  -- The loop over the basic options: names and values, `none` where an option has no value.
  unfoldable pub get_options : ℕ → List Bytes → M D (Option (List Value))
  get_options a [] w = done (some []) w
  get_options a (option ∷ rest) w = bind (get_option env a option w) λ value. elim value [
    | none ↦ pure none
    | some v ↦ do
      more ← get_options a rest
      elim more [ none ↦ pure none | some vs ↦ pure (some (str option ∷ str v ∷ vs)) ]
  ]

  -- The three uses of `Configure`.
  unfoldable pub configure_all : Bytes → ℕ → M D Code
  unfolding get_options
  configure_all command a = do
    found ← get_options a basic_options
    elim found [
      | none ↦
          fail_with env (command ++ text " a basic option failed, this sould never happen!")
            (error_class (text "BUG"))
      | some vs ↦ do set_result (list (values vs)); pure tcl_ok
    ]

  unfoldable pub configure_one : Bytes → ℕ → Bytes → M D Code
  configure_one command a option = do
    found ← get_option env a option
    elim found [
      | none ↦
          fail_with env (command ++ (text " bad option " ++ option)) (error_class (text "OPTION"))
      | some v ↦ do set_result (str v); pure tcl_ok
    ]

  unfoldable pub configure_set : Bytes → ℕ → List Obj → M D Code
  configure_set command a objv = do
    bad ← set_options env a (drop 2 objv)
    elim bad [
      | none ↦ pure tcl_ok
      | some option ↦
          fail_with env (command ++ (text " bad option change " ++ option))
            (error_class (text "OPTION"))
    ]

  unfoldable pub configure_handle : Bytes → List Obj → ℕ → M D Code
  unfolding configure_all configure_one configure_set
  configure_handle command objv a = elim (length objv == 2) [
    | true ↦ configure_all command a
    | false ↦ elim (length objv == 3) [
      | true ↦ do option ← arg objv 2; configure_one command a option.str
      | false ↦ configure_set command a objv
    ]
  ]

  unfoldable pub configure : List Obj → M D Code
  unfolding configure_handle
  configure objv =
      objc_check env objv (text "handle ?option value ...?")
        (length objv % 2 == 0 || length objv == 3)
        do
          name ← arg objv 0
          toid ← arg objv 1
          found ← get_hd env toid
          handle_check env name.str found (configure_handle name.str objv)
