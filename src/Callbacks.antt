-- ===== src/Callbacks.antt =====
-- The section "Intermediate callbacks" of generic/dtrace.c: what libdtrace calls, and the Tcl scripts
-- that these functions call in turn. Each is given the address of its `handle_data`.
use tcldtrace.Prelude.{
  ℕ, Bool, true, false, Option, none, some, List, [], ◌∷◌, ◌++◌, Bytes, ℤ, text, ◌==◌,
}
use tcldtrace.State.{
  Value, given, str, int, list, values, ListArg, M, done, pure, gets, modify, tcl_panic, undefined,
  bind, ◌>>=◌, ◌>>◌, load, store, deref, incr_ref, decr_ref,
}
use tcldtrace.Api.{
  Env, ProbeDesc, ProbeData, BufData, DropData, ErrData, StmtDesc, Call, Reply, consume_this,
  consume_error, handle_ok, handle_abort, zero_reply,
}
use tcldtrace.Helpers.Format.{buf_type, drop_kind, format_probe_desc, cut_white_space, joined}

-- `enum callbacks`
abbrev pub cb_probe_desc : ℕ
cb_probe_desc = 0

abbrev pub cb_probe_output : ℕ
cb_probe_output = 1

abbrev pub cb_drop : ℕ
cb_drop = 2

abbrev pub cb_error : ℕ
cb_error = 3

abbrev pub cb_proc : ℕ
cb_proc = 4

-- The tuple that a member is added to: a new one on `NULL`.
abbrev pub members : Option (List Value) → List Value
members none = []
members (some tuple) = tuple

-- `enabled == arg->last`
abbrev pub is_last : ℕ → Option ℕ → Bool
is_last enabled none = false
is_last enabled (some before) = enabled == before

module _ {D : Type 0} where
  -- `Tcl_IncrRefCount` and `Tcl_DecrRefCount` on the objects of an argument vector. An object made for
  -- the vector is counted from 0 to 1 and back, and goes with the vector.
  unfoldable pub incr_refs : List Value → M D (Unit {0})
  incr_refs [] w = done tt w
  incr_refs (given o ∷ vs) w = bind (incr_ref o w) (λ _. incr_refs vs)
  incr_refs (str s ∷ vs) w = incr_refs vs w
  incr_refs (int n ∷ vs) w = incr_refs vs w
  incr_refs (list l ∷ vs) w = incr_refs vs w

  unfoldable pub decr_refs : List Value → M D (Unit {0})
  decr_refs [] w = done tt w
  decr_refs (given o ∷ vs) w = bind (decr_ref o w) (λ _. decr_refs vs)
  decr_refs (str s ∷ vs) w = decr_refs vs w
  decr_refs (int n ∷ vs) w = decr_refs vs w
  decr_refs (list l ∷ vs) w = decr_refs vs w

  -- `hd->interp`, which Tcl follows.
  unfoldable pub interp_of : ℕ → M D (Unit {0})
  interp_of a = do hd ← load a; elim hd.interp [ true ↦ pure tt | false ↦ undefined ]

  -- `Tcl_AddErrorInfo` and `Tcl_BackgroundError`
  unfoldable pub background_error : Bytes → M D (Unit {0})
  background_error cbname = modify (λ w. record w {
    background = (text "\n    (running " ++ (cbname ++ text " callback)")) ∷ w.background;
  })

module _ {D : Type 0} (env : Env D) where
  -- The end of `CallbackEval`: the error report reads `hd->interp` once more.
  unfoldable pub callback_result : ℕ → Bytes → Reply → Reply → Bool → M D Reply
  callback_result a cbname errcode go_on true = pure go_on
  callback_result a cbname errcode go_on false = do
    interp_of a
    background_error cbname
    pure errcode

  -- `CallbackEval` in a function that goes on to return `go_on`.
  unfoldable pub callback_eval : ℕ → List Value → Bytes → Reply → Reply → M D Reply
  callback_eval a objv cbname errcode go_on = do
    interp_of a
    incr_refs objv
    result ← env.eval_objv objv
    decr_refs objv
    callback_result a cbname errcode go_on result

  unfoldable pub chew : ℕ → ProbeData → M D Reply
  chew a data_of = do
    hd ← load a
    elim (hd.callbacks cb_probe_desc) [
      | none ↦ pure consume_this
      | some proc ↦ do
        extra ← deref (hd.args cb_probe_desc)
        let objv =
            given proc
            ∷ format_probe_desc hd data_of.dtpda_pdesc
            ∷ int data_of.dtpda_cpu
            ∷ int data_of.dtpda_pdesc.dtpd_id
            ∷ given extra
            ∷ []
        callback_eval a objv (text "probe_desc") consume_error consume_this
    ]

  unfoldable pub chewrec : ℕ → ProbeData → M D Reply
  chewrec a data_of = pure consume_this

  unfoldable pub bufhandler : ℕ → BufData → M D Reply
  bufhandler a bufdata = do
    hd ← load a
    elim (hd.callbacks cb_probe_output) [
      | none ↦ pure handle_ok
      | some proc ↦ do
        extra ← deref (hd.args cb_probe_output)
        action ← deref bufdata.dtbda_recdesc
        let objv =
            given proc
            ∷ format_probe_desc hd bufdata.dtbda_probe.dtpda_pdesc
            ∷ int bufdata.dtbda_probe.dtpda_cpu
            ∷ int bufdata.dtbda_probe.dtpda_pdesc.dtpd_id
            ∷ given extra
            ∷ str (buf_type action)
            ∷ str bufdata.dtbda_buffered
            ∷ []
        callback_eval a objv (text "probe_output") handle_abort handle_ok
    ]

  -- The two ways of `agghandler` to use a record, once its text is cut: the value of a row, which
  -- wants a tuple, and one more member of the tuple.
  unfoldable pub append_value : ℕ → Bytes → M D (Unit {0})
  append_value a cut = do
    hd ← load a
    elim hd.agg.tuple [
      | none ↦ tcl_panic (text "dtrace empty aggregation tuple")
      | some tuple ↦ do
        so_far ← deref hd.agg.list
        store a (record hd {
          agg = record { tuple = none; list = some (so_far ++ list (values tuple) ∷ str cut ∷ []) };
        })
    ]

  unfoldable pub append_member : ℕ → Bytes → M D (Unit {0})
  append_member a cut = do
    hd ← load a
    store a (record hd {
      agg = record { tuple = some (members hd.agg.tuple ++ str cut ∷ []); list = hd.agg.list };
    })

  -- The panic on a missing tuple, which comes before the text is cut.
  unfoldable pub need_tuple : ℕ → M D (Unit {0})
  need_tuple a = do
    hd ← load a
    elim hd.agg.tuple [
      | none ↦ tcl_panic (text "dtrace empty aggregation tuple")
      | some _ ↦ pure tt
    ]

  unfoldable pub agghandler : ℕ → BufData → M D Reply
  unfolding need_tuple append_value append_member
  agghandler a bufdata = elim bufdata.dtbda_recdesc [
    | none ↦ pure handle_ok
    | some action ↦ elim (env.dtraceact_isagg action) [
      | true ↦ do
        need_tuple a
        cut ← cut_white_space bufdata.dtbda_buffered
        append_value a cut
        pure handle_ok
      | false ↦ do cut ← cut_white_space bufdata.dtbda_buffered; append_member a cut; pure handle_ok
    ]
  ]

  unfoldable pub buf_or_agg : ℕ → BufData → M D Reply
  buf_or_agg a bufdata = elim bufdata.dtbda_aggdata [
    | true ↦ agghandler a bufdata
    | false ↦ bufhandler a bufdata
  ]

  unfoldable pub drophandler : ℕ → DropData → M D Reply
  drophandler a dropdata = do
    hd ← load a
    elim (hd.callbacks cb_drop) [
      | none ↦ pure handle_ok
      | some proc ↦ do
        extra ← deref (hd.args cb_drop)
        let objv =
            given proc
            ∷ int dropdata.dtdda_cpu
            ∷ str (drop_kind dropdata.dtdda_kind)
            ∷ int dropdata.dtdda_drops
            ∷ str dropdata.dtdda_msg
            ∷ given extra
            ∷ []
        callback_eval a objv (text "drop") handle_abort handle_ok
    ]

  unfoldable pub errhandler : ℕ → ErrData → M D Reply
  errhandler a errdata = do
    hd ← load a
    elim (hd.callbacks cb_error) [
      | none ↦ pure handle_ok
      | some proc ↦ do
        extra ← deref (hd.args cb_error)
        let objv =
            given proc
            ∷ format_probe_desc hd errdata.dteda_pdesc
            ∷ int errdata.dteda_cpu
            ∷ str errdata.dteda_msg
            ∷ given extra
            ∷ []
        callback_eval a objv (text "error") handle_abort handle_ok
    ]

  -- `prochandler` returns nothing; the reply is a constant.
  unfoldable pub prochandler : ℕ → ℤ → Bytes → M D Reply
  prochandler a pid msg = do
    hd ← load a
    elim (hd.callbacks cb_proc) [
      | none ↦ pure zero_reply
      | some proc ↦ do
        extra ← deref (hd.args cb_proc)
        callback_eval a (given proc ∷ int pid ∷ str msg ∷ given extra ∷ []) (text "proc") zero_reply
            zero_reply
    ]

  unfoldable pub list_probe : ListArg → ProbeDesc → M D Reply
  list_probe arg pdesc = do
    hd ← load arg.hd
    callback_eval arg.hd (given arg.proc ∷ format_probe_desc hd pdesc ∷ given arg.args ∷ [])
        (text "list") handle_abort zero_reply

  -- The panic of `listStatement` on a failed iteration.
  unfoldable pub unmatched : ℕ → ProbeDesc → M D (Option ℕ)
  unfolding joined
  unmatched h pdesc = do
    errno ← gets (λ w. env.dtrace_errno h w.lib)
    message ← gets (λ w. env.dtrace_errmsg (some h) errno w.lib)
    tcl_panic (
        text "dtrace unmatched statement "
        ++ (joined pdesc ++ (text ": " ++ (message ++ text "\n"))))

  -- What `listStatement` makes of the result of the iteration.
  unfoldable pub iteration_result : ℕ → StmtDesc → Bool → M D (Option ℕ)
  unfolding unmatched
  iteration_result h statement true = pure (some statement.dtsd_ecbdesc)
  iteration_result h statement false = unmatched h statement.dted_probe

  -- `listStatement`: `arg->last` is passed on to the next statement; the value returned is always 0.
  unfoldable pub list_statement : ListArg → ℕ → StmtDesc → Option ℕ → M D (Option ℕ)
  unfolding iteration_result
  list_statement arg h statement last = elim (is_last statement.dtsd_ecbdesc last) [
    | true ↦ pure last
    | false ↦ do
      result ← env.dtrace_probe_iter h statement.dted_probe (list_probe arg)
      iteration_result h statement result
  ]

  -- Which function libdtrace calls: `chew` and `chewrec` are handed to `dtrace_work`, the others are
  -- registered in `Open`.
  unfoldable pub deliver : ℕ → Call → M D Reply
  deliver a (Call.probe data_of) = chew a data_of
  deliver a (Call.record_of data_of) = chewrec a data_of
  deliver a (Call.buffered bufdata) = buf_or_agg a bufdata
  deliver a (Call.dropped dropdata) = drophandler a dropdata
  deliver a (Call.erred errdata) = errhandler a errdata
  deliver a (Call.process pid msg) = prochandler a pid msg
