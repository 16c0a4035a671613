-- ===== src/Commands/Open.antt =====
-- generic/dtrace.c: Open and Close, as built where `__APPLE__` is not defined.
use tcldtrace.Prelude.{
  ℕ, zero, suc, ◌%◌, Bool, true, false, ◌&&◌, Option, none, some, List, [], ◌∷◌, ◌++◌, Bytes, pos,
  text, ltb, ◌==◌, if◌then◌else◌, length, drop, ◌-◌,
}
use tcldtrace.State.{
  Obj, str, int, parsed, refused, Code, tcl_ok, M, done, pure, gets, bind, ◌>>=◌, ◌>>◌, load, store,
  deref, handle_of, arg, decr_ref, set_result,
}
use tcldtrace.Api.{Env, Opened, opened, failed, lib, lib_update}
use tcldtrace.Text.{snprintf, decimal}
use tcldtrace.Helpers.Options.{set_option}
use tcldtrace.Helpers.Registry.{new_hd, get_hd, del_hd}
use tcldtrace.Helpers.Checks.{fail_with, objc_check, handle_check, error_class}

-- `CALLBACKS_COUNT`
abbrev pub callbacks_count : ℕ
callbacks_count = 5

module _ {D : Type 0} (env : Env D) where
  -- The loop over `option value` pairs, of `Open` and of `Configure`: the option that is refused.
  unfoldable pub set_options : ℕ → List Obj → M D (Option Bytes)
  set_options a [] w = done none w
  set_options a (option ∷ []) w = done none w
  set_options a (option ∷ value ∷ rest) w =
      bind (set_option env a option.str value.str w)
        λ good. elim good [ true ↦ set_options a rest | false ↦ pure (some option.str) ]

  -- `OpenThrow`
  unfoldable pub open_throw : Bytes → ℕ → Bytes → Bytes → M D Code
  open_throw command id code message = do
    h ← handle_of id
    lib_update (env.dtrace_close h)
    del_hd id
    fail_with env (command ++ message) (error_class code)

  -- The default options, the second set only after the first.
  unfoldable pub set_defaults : ℕ → M D Bool
  set_defaults id = do
    h ← handle_of id
    bufsize ← lib (env.dtrace_setopt h (text "bufsize") (text "4m"))
    elim bufsize [
      | true ↦ lib (env.dtrace_setopt h (text "aggsize") (text "4m"))
      | false ↦ pure false
    ]

  -- One of the four `dtrace_handle_*` calls, with what it throws on failure, and what follows it.
  unfoldable pub establish : Bytes → ℕ → (ℕ → ℕ → D → Bool × D) → Bytes → M D Code → M D Code
  unfolding open_throw
  establish command id register message rest = do
    h ← handle_of id
    good ← lib (register h id)
    elim good [ true ↦ rest | false ↦ open_throw command id (text "LIB") message ]

  -- The end of `Open`.
  unfoldable pub open_done : ℕ → M D Code
  open_done id = do
    hd ← load id
    store id (record hd { interp = true })
    set_result (int (pos id))
    pure tcl_ok

  -- `Open` from the handlers on.
  unfoldable pub open_handlers : Bytes → ℕ → M D Code
  open_handlers command id =
      establish command id env.dtrace_handle_err (text " failed to establish error handler") (
        establish command id env.dtrace_handle_drop (text " failed to establish drop handler") (
          establish command id env.dtrace_handle_proc (text " failed to establish proc handler") (
            establish command id env.dtrace_handle_buffered
              (text " failed to establish buffered handler") (open_done id))))

  -- `Open` after the options were tried, with the one refused.
  unfoldable pub options_result : Bytes → ℕ → Option Bytes → M D Code
  unfolding open_throw open_handlers
  options_result command id none = open_handlers command id
  options_result command id (some option) =
      open_throw command id (text "OPTION") (text " bad option initialization " ++ option)

  -- `Open` from the default options on.
  unfoldable pub open_options : Bytes → ℕ → List Obj → M D Code
  unfolding open_throw set_defaults set_options options_result
  open_options command id objv = do
    good ← set_defaults id
    elim good [
      | false ↦ open_throw command id (text "OPTION") (text " can't set default options ")
      | true ↦ do bad ← set_options id (drop 1 objv); options_result command id bad
    ]

  -- `Open` with what `dtrace_open` returned.
  unfoldable pub open_result : Bytes → ℕ → List Obj → Opened → M D Code
  unfolding open_options
  open_result command id objv (failed error) = do
    del_hd id
    message ← gets (λ w. env.dtrace_errmsg none error w.lib)
    fail_with env (command ++ (text " libdtrace error: " ++ message))
        (text "DTRACE" ∷ text "LIB" ∷ snprintf 16 (decimal error) ∷ [])
  open_result command id objv (opened h) = do
    hd ← load id
    store id (record hd { handle = some h })
    open_options command id objv

  -- `Open` from the new handle on.
  unfoldable pub open_handle : Bytes → ℕ → List Obj → M D Code
  unfolding open_result
  open_handle command flags objv = do
    id ← new_hd
    handle ← lib (env.dtrace_open flags)
    open_result command id objv handle

  -- `Open`: the last of an odd number of arguments is `instrument`.
  unfoldable pub open_command : List Obj → M D Code
  unfolding open_handle
  open_command objv = do
    name ← arg objv 0
    elim (ltb 1 (length objv) && length objv % 2 == 0) [
      | false ↦ open_handle name.str 0 objv
      | true ↦ do
        last ← arg objv (length objv - 1)
        elim (env.get_boolean last) [
          | refused message ↦ do
            set_result (str message)
            fail_with env (text "\n" ++ (name.str ++ text " bad usage"))
                (error_class (text "USAGE"))
          | parsed instrument ↦
              open_handle name.str (if instrument then 0 else env.dtrace_o_nodev) objv
        ]
    ]

  -- The loop of `Close` over the callbacks, from index `i` on, with the rounds left.
  unfoldable pub release_callbacks : ℕ → ℕ → ℕ → M D (Unit {0})
  release_callbacks a i zero w = done tt w
  release_callbacks a i (suc rounds) w = bind (load a w) λ hd. elim (hd.callbacks i) [
    | none ↦ release_callbacks a (suc i) rounds
    | some proc ↦ do
      decr_ref proc
      extra ← deref (hd.args i)
      decr_ref extra
      release_callbacks a (suc i) rounds
  ]

  -- `Close`, once the handle is found. The identifier was read by `get_hd` already.
  unfoldable pub close_handle : ℕ → M D Code
  unfolding release_callbacks
  close_handle a = do
    h ← handle_of a
    lib_update (env.dtrace_close h)
    hd ← load a
    store a (record hd { handle = none })
    release_callbacks a 0 callbacks_count
    del_hd a
    pure tcl_ok

  unfoldable pub close : List Obj → M D Code
  unfolding close_handle
  close objv = objc_check env objv (text "handle") (length objv == 2) do
    name ← arg objv 0
    toid ← arg objv 1
    found ← get_hd env toid
    handle_check env name.str found close_handle
