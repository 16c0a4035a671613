-- ===== src/Api/Interface.antt =====
-- The functions of the Tcl library and of libdtrace that the code calls. A function that can call
-- back takes what it may call, and works in the monad; any other function of libdtrace works on
-- libdtrace's state `D` alone. A `Bool` result is `true` for success.
use tcldtrace.Prelude.{ℕ, List, Option, Bool, Bytes, ℤ}
use tcldtrace.State.{Obj, Value, Parsed, M, done}
use tcldtrace.Api.Events.{ProbeDesc, StmtDesc, ActKind, ProgInfo, Call, Reply, Opened}

pub record Env (D : Type 0) : Type 0 where
  -- Tcl: the string of a value, conversions, and the texts that the library makes up.
  pub get_string : Value → Bytes
  pub get_int : Obj → Parsed ℤ
  pub get_long : Obj → Parsed ℤ
  pub get_boolean : Obj → Parsed Bool
  pub get_elements : Obj → Parsed (List Obj)
  pub get_index : Obj → List Bytes → Bytes → Parsed ℕ
  pub wrong_num_args : List Obj → Bytes → Bytes
  -- `Tcl_EvalObjv` at the global level: an arbitrary script, which may call the extension again.
  pub eval_objv : List Value → M D Bool
  -- The constants of <dtrace.h>.
  pub dtrace_o_nodev : ℕ
  pub dtraceopt_unset : ℤ
  pub dtraceact_isagg : ActKind → Bool
  -- libdtrace
  pub dtrace_open : ℕ → D → Opened × D
  pub dtrace_close : ℕ → D → D
  pub dtrace_setopt : ℕ → Bytes → Bytes → D → Bool × D
  pub dtrace_getopt : ℕ → Bytes → D → Option ℤ
  pub dtrace_handle_err : ℕ → ℕ → D → Bool × D
  pub dtrace_handle_drop : ℕ → ℕ → D → Bool × D
  pub dtrace_handle_proc : ℕ → ℕ → D → Bool × D
  pub dtrace_handle_buffered : ℕ → ℕ → D → Bool × D
  pub dtrace_errno : ℕ → D → ℤ
  pub dtrace_errmsg : Option ℕ → ℤ → D → Bytes
  pub dtrace_program_strcompile : ℕ → Bytes → List Bytes → D → Option ℕ × D
  pub dtrace_program_exec : ℕ → ℕ → D → Option ProgInfo × D
  pub dtrace_program_info : ℕ → ℕ → D → ProgInfo × D
  pub dtrace_go : ℕ → D → Bool × D
  pub dtrace_stop : ℕ → D → Bool × D
  pub dtrace_proc_grab : ℕ → ℤ → D → Option ℕ × D
  pub dtrace_proc_create : ℕ → List Bytes → D → Option ℕ × D
  pub dtrace_proc_continue : ℕ → ℕ → D → D
  -- libdtrace, calling back. The argument `void *` of the statement iteration is passed through.
  pub dtrace_sleep : ℕ → (Call → M D Reply) → M D (Unit {0})
  pub dtrace_work : ℕ → (Call → M D Reply) → M D Bool
  pub dtrace_aggregate_print : ℕ → (Call → M D Reply) → M D Bool
  pub dtrace_stmt_iter : ℕ → ℕ → (StmtDesc → Option ℕ → M D (Option ℕ)) → Option ℕ → M D (Option ℕ)
  pub dtrace_probe_iter : ℕ → ProbeDesc → (ProbeDesc → M D Reply) → M D Bool

module _ {D : Type 0} where
  -- A call of libdtrace that calls nothing back.
  abbrev pub lib : {A : Type 0} → (D → A × D) → M D A
  lib f w = let (a, d) = f w.lib in done a (record w { lib = d })

  abbrev pub lib_update : (D → D) → M D (Unit {0})
  lib_update f w = done tt (record w { lib = f w.lib })
