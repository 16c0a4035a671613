-- ===== src/Notices.antt =====
-- generic/dtrace.c, chew to prochandler: which scripts the events of libdtrace run, and with what words.
pub mod Delivery
pub mod Sequence
use tcldtrace.Prelude.{
  ℕ, ◌≡◌, refl, inl, inr, Bool, true, false, Option, none, some, List, [], ◌∷◌, ◌++◌, Bytes, arith,
  lookup, text, Bool-cases, Option-cases, fun_ext, ◌∙◌,
}
use tcldtrace.State.{
  Obj, Value, given, str, int, HandleData, World, Out, done, M, bind, pure, tcl_ok, Code,
}
use tcldtrace.Api.{
  Env, ActKind, Call, Reply, consume_this, consume_error, handle_ok, handle_abort, zero_reply,
}
use tcldtrace.Helpers.Format.{buf_type, drop_kind, format_probe_desc}
use tcldtrace.Helpers.Checks.{lib_error}
use tcldtrace.Callbacks.{
  callback_eval, callback_result, background_error, incr_refs, decr_refs, chew, chewrec, bufhandler,
  buf_or_agg, drophandler, errhandler, prochandler, deliver, cb_probe_desc, cb_probe_output,
  cb_drop, cb_error, cb_proc,
}
use tcldtrace.Commands.Tracing.{process_handle, process_work}
use tcldtrace.Safety.Held.{occurs, incr_refs-occurs, decr_refs-occurs}
use tcldtrace.Counts.{interp_of-done}

-- The callback that an event is for, by its place and its name.
abbrev pub callback_of : Call → Option ℕ
callback_of (Call.probe _) = some cb_probe_desc
callback_of (Call.record_of _) = none
callback_of (Call.buffered _) = some cb_probe_output
callback_of (Call.dropped _) = some cb_drop
callback_of (Call.erred _) = some cb_error
callback_of (Call.process _ _) = some cb_proc

abbrev pub name_of : Call → Bytes
name_of (Call.probe _) = text "probe_desc"
name_of (Call.record_of _) = []
name_of (Call.buffered _) = text "probe_output"
name_of (Call.dropped _) = text "drop"
name_of (Call.erred _) = text "error"
name_of (Call.process _ _) = text "proc"

abbrev pub output_type : Option ActKind → Bytes
output_type none = []
output_type (some k) = buf_type k

-- The words after the procedure, as doc/dtrace.man has them.
abbrev pub facts : HandleData → Value → Call → List Value
facts hd extra (Call.probe p) =
    format_probe_desc hd p.dtpda_pdesc ∷ int p.dtpda_cpu ∷ int p.dtpda_pdesc.dtpd_id ∷ extra ∷ []
facts hd extra (Call.record_of p) = []
facts hd extra (Call.buffered b) =
    format_probe_desc hd b.dtbda_probe.dtpda_pdesc
    ∷ int b.dtbda_probe.dtpda_cpu
    ∷ int b.dtbda_probe.dtpda_pdesc.dtpd_id
    ∷ extra
    ∷ str (output_type b.dtbda_recdesc)
    ∷ str b.dtbda_buffered
    ∷ []
facts hd extra (Call.dropped d) =
    int d.dtdda_cpu
    ∷ str (drop_kind d.dtdda_kind)
    ∷ int d.dtdda_drops
    ∷ str d.dtdda_msg
    ∷ extra
    ∷ []
facts hd extra (Call.erred e) =
    format_probe_desc hd e.dteda_pdesc ∷ int e.dteda_cpu ∷ str e.dteda_msg ∷ extra ∷ []
facts hd extra (Call.process pid message) = int pid ∷ str message ∷ extra ∷ []

-- The replies to an event: to go on, and after a script that failed.
abbrev pub going : Call → Reply
going (Call.probe _) = consume_this
going (Call.record_of _) = consume_this
going (Call.buffered _) = handle_ok
going (Call.dropped _) = handle_ok
going (Call.erred _) = handle_ok
going (Call.process _ _) = zero_reply

abbrev pub failing : Call → Reply
failing (Call.probe _) = consume_error
failing (Call.record_of _) = consume_this
failing (Call.buffered _) = handle_abort
failing (Call.dropped _) = handle_abort
failing (Call.erred _) = handle_abort
failing (Call.process _ _) = zero_reply

-- An event that is no record of an aggregation; one with output has its action.
abbrev pub IsReported : Call → Type 0
IsReported (Call.buffered b) =
    (b.dtbda_aggdata ≡ false) × ((k : ActKind) × (b.dtbda_recdesc ≡ some k))
IsReported (Call.probe _) = Unit
IsReported (Call.record_of _) = Unit
IsReported (Call.dropped _) = Unit
IsReported (Call.erred _) = Unit
IsReported (Call.process _ _) = Unit

-- Every callback that is registered has its argument.
abbrev pub IsPaired : HandleData → Type 0
IsPaired hd = (i : ℕ) (c : Obj) → hd.callbacks i ≡ some c → (x : Obj) × (hd.args i ≡ some x)

abbrev pub joint : Option Obj → Option Obj → Option (Obj × Obj)
joint none x = none
joint (some proc) none = none
joint (some proc) (some extra) = some (proc, extra)

-- The procedure and the argument that are registered for an event.
abbrev pub registered_at : HandleData → Option ℕ → Option (Obj × Obj)
registered_at hd none = none
registered_at hd (some k) = joint (hd.callbacks k) (hd.args k)

-- The script that an event runs.
abbrev pub notice : HandleData → Call → Option (List Value)
notice hd c = elim (registered_at hd (callback_of c)) [
  | none ↦ none
  | some (proc, extra) ↦ some (given proc ∷ facts hd (given extra) c)
]

-- The report on a script that fails.
abbrev pub report : Call → Bytes
report c = text "\n    (running " ++ (name_of c ++ text " callback)")

-- Scripts that leave the extension alone: whether one succeeds, and what it does outside.
module _ {D : Type 0} (fine : List Value → Bool) (log : List Value → D → D) where
  abbrev pub IsScripted : Env D → Type 0
  IsScripted env =
      (objv : List Value) (v : World D)
      → env.eval_objv objv v ≡ done (fine objv) (record v { lib = log objv v.lib })

  abbrev ran : Call → List Value → World D → Out D Reply
  ran c objv w =
      let w' = record w { lib = log objv w.lib } in
      elim (fine objv) [
        | true ↦ done (going c) w'
        | false ↦ done (failing c) (record w' { background = report c ∷ w.background })
      ]

  -- What an event comes to.
  abbrev pub noticed : HandleData → Call → World D → Out D Reply
  noticed hd c w = elim (notice hd c) [ none ↦ done (going c) w | some objv ↦ ran c objv w ]
