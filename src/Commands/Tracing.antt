-- ===== src/Commands/Tracing.antt =====
-- generic/dtrace.c: Go, Stop, Process and Aggregations.
use tcldtrace.Prelude.{
  ℕ, zero, suc, ◌%◌, Bool, true, false, ◌&&◌, Option, none, some, List, [], ◌∷◌, ◌++◌, Bytes, text,
  ltb, leb, ◌==◌, if◌then◌else◌, length, drop, get_elem?,
}
use tcldtrace.State.{
  Obj, str, list, values, parsed, refused, Code, tcl_ok, tcl_error, Out, M, done, pure, bind, ◌>>=◌,
  ◌>>◌, arg, load, store, deref, handle_of, incr_ref, set_result, set_error_code, tcl_panic,
}
use tcldtrace.Api.{Env, lib, lib_update}
use tcldtrace.Helpers.Registry.{get_hd}
use tcldtrace.Helpers.Checks.{fail_with, objc_check, handle_check, lib_error, error_class}
use tcldtrace.Callbacks.{deliver}
use tcldtrace.Commands.Open.{callbacks_count}

-- `callbackNames`
unfoldable pub callback_names : List Bytes
callback_names =
    text "probe_desc" ∷ text "probe_output" ∷ text "drop" ∷ text "error" ∷ text "proc" ∷ []

-- `lobjc != 2`, and the two elements otherwise
unfoldable pub callback_spec : List Obj → Option (Obj × Obj)
callback_spec (proc ∷ extra ∷ []) = some (proc, extra)
callback_spec (proc ∷ extra ∷ _ ∷ _) = none
callback_spec (proc ∷ []) = none
callback_spec [] = none

-- An entry of `callbacks` or `args` written.
abbrev pub update : (ℕ → Option Obj) → ℕ → Obj → ℕ → Option Obj
update f k o i = if k == i then some o else f i

module _ {D : Type 0} (env : Env D) where
  -- One callback registered, with the references that its entry holds.
  unfoldable pub register_callback : ℕ → ℕ → Obj → Obj → M D (Unit {0})
  register_callback a callback proc extra = elim (ltb callback callbacks_count) [
    | false ↦ tcl_panic (text "dtrace bad callback id")
    | true ↦ do
      hd ← load a
      store a (record hd {
        callbacks = update hd.callbacks callback proc;
        args = update hd.args callback extra;
      })
      incr_ref proc
      incr_ref extra
  ]

  -- A misused callback in `Go`, which ends the command.
  unfoldable pub bad_spec : M D Code
  bad_spec =
      fail_with env (text "callback spec should be {proc {?arg0 arg1 ...?}}")
        (error_class (text "USAGE"))

  -- The loop of `Go` over `callback {proc arg}` pairs: `tcl_error` where the command ends.
  unfoldable pub register_callbacks : ℕ → List Obj → M D Code
  unfolding register_callback bad_spec callback_spec
  register_callbacks a [] w = done tcl_ok w
  register_callbacks a (name ∷ []) w = Out.fault
  register_callbacks a (name ∷ spec ∷ rest) w =
      elim (env.get_index name callback_names (text "callback name")) [
        | refused message ↦
            (do
              set_result (str message)
              set_error_code (error_class (text "USAGE"))
              pure tcl_error)
              w
        | parsed callback ↦ elim (env.get_elements spec) [
          | refused message ↦ (set_result (str message) >> bad_spec) w
          | parsed lobjv ↦ elim (callback_spec lobjv) [
            | none ↦ bad_spec w
            | some (proc, extra) ↦
                bind (register_callback a callback proc extra w) λ _. register_callbacks a rest
          ]
        ]
      ]

  -- The last loop of `Go`, from the process at index `i` on, with the rounds left.
  unfoldable pub continue_processes : ℕ → ℕ → ℕ → M D (Unit {0})
  continue_processes a i zero w = done tt w
  continue_processes a i (suc rounds) w = bind (load a w) λ hd. do
    h ← deref hd.handle
    cell ← deref (get_elem? hd.processes i)
    proc ← deref cell
    lib_update (env.dtrace_proc_continue h proc)
    continue_processes a (suc i) rounds

  -- `Go` from the call of `dtrace_go` on.
  unfoldable pub start_tracing : Bytes → ℕ → M D Code
  unfolding continue_processes
  start_tracing command a = do
    h ← handle_of a
    good ← lib (env.dtrace_go h)
    elim good [
      | false ↦ lib_error env command a
      | true ↦ do hd ← load a; continue_processes a 0 hd.proc_count; pure tcl_ok
    ]

  unfoldable pub go_handle : Bytes → List Obj → ℕ → M D Code
  unfolding register_callbacks start_tracing
  go_handle command objv a = do
    registered ← register_callbacks a (drop 2 objv)
    elim registered [ tcl_error ↦ pure tcl_error | tcl_ok ↦ start_tracing command a ]

  unfoldable pub go : List Obj → M D Code
  unfolding go_handle
  go objv =
      objc_check env objv (text "handle ?callback {proc ?arg?} ...?")
        (leb 2 (length objv) && length objv % 2 == 0)
        do
          name ← arg objv 0
          toid ← arg objv 1
          found ← get_hd env toid
          handle_check env name.str found (go_handle name.str objv)

  unfoldable pub stop_handle : Bytes → ℕ → M D Code
  stop_handle command a = do
    h ← handle_of a
    good ← lib (env.dtrace_stop h)
    elim good [ true ↦ pure tcl_ok | false ↦ lib_error env command a ]

  unfoldable pub stop : List Obj → M D Code
  unfolding stop_handle
  stop objv = objc_check env objv (text "handle") (length objv == 2) do
    name ← arg objv 0
    toid ← arg objv 1
    found ← get_hd env toid
    handle_check env name.str found (stop_handle name.str)

  -- `Process` from the call of `dtrace_work` on; a failure reads `hd->handle` anew.
  unfoldable pub process_work : Bytes → ℕ → ℕ → M D Code
  process_work command a h = do
    good ← env.dtrace_work h (deliver env a)
    elim good [ true ↦ pure tcl_ok | false ↦ lib_error env command a ]

  -- `Process` once its handle is checked; `dtrace_sleep` calls back, and `hd->handle` is read again.
  unfoldable pub process_handle : Bytes → Bool → ℕ → M D Code
  unfolding process_work
  process_handle command sleep a = do
    h ← handle_of a
    elim sleep [ true ↦ env.dtrace_sleep h (deliver env a) | false ↦ pure tt ]
    now ← handle_of a
    process_work command a now

  unfoldable pub process_sleep : List Obj → Bool → M D Code
  unfolding process_handle
  process_sleep objv sleep = do
    name ← arg objv 0
    toid ← arg objv 1
    found ← get_hd env toid
    handle_check env name.str found (process_handle name.str sleep)

  unfoldable pub process : List Obj → M D Code
  process objv =
      objc_check env objv (text "handle ?sleep?") (leb 2 (length objv) && leb (length objv) 3) do
        name ← arg objv 0
        elim (length objv == 3) [
          | false ↦ process_sleep objv false
          | true ↦ do
            flag ← arg objv 2
            elim (env.get_boolean flag) [
              | refused message ↦ do
                set_result (str message)
                fail_with env (text "\n" ++ (name.str ++ text " bad usage"))
                    (error_class (text "USAGE"))
              | parsed sleep ↦ process_sleep objv sleep
            ]
        ]

  -- `Aggregations` from the call of `dtrace_aggregate_print` on; `agghandler` appends to the list. The
  -- pointer to it stays, but the object is the interpreter's result from then on.
  unfoldable pub print_aggregations : Bytes → ℕ → ℕ → M D Code
  print_aggregations command a h = do
    good ← env.dtrace_aggregate_print h (deliver env a)
    elim good [
      | false ↦ lib_error env command a
      | true ↦ do
        after ← load a
        rows ← deref after.agg.list
        set_result (list (values rows))
        store a (record after { agg = record { tuple = after.agg.tuple; list = none } })
        pure tcl_ok
    ]

  -- `Aggregations` once its handle is checked.
  unfoldable pub aggregations_handle : Bytes → ℕ → M D Code
  unfolding print_aggregations
  aggregations_handle command a = do
    hd ← load a
    store a (record hd { agg = record { tuple = hd.agg.tuple; list = some [] } })
    h ← handle_of a
    print_aggregations command a h

  unfoldable pub aggregations : List Obj → M D Code
  unfolding aggregations_handle
  aggregations objv = objc_check env objv (text "handle") (length objv == 2) do
    name ← arg objv 0
    toid ← arg objv 1
    found ← get_hd env toid
    handle_check env name.str found (aggregations_handle name.str)
