-- ===== src/Tests/Tracking.antt =====
-- A libdtrace that counts the handles it has opened and knows which of them are open, in which each
-- program has one statement that matches one probe.
use tcldtrace.Prelude.{
  ℕ, ◌+◌, ◌≡◌, refl, Bool, true, false, ◌&&◌, none, some, [], ◌∷◌, pos, arith, ltb, ◌==◌,
  if◌then◌else◌,
}
use tcldtrace.State.{int, World, bind, done}
use tcldtrace.Api.{Env, opened}
use tcldtrace.Lifecycle.Init.{fresh_world}
use tcldtrace.Footprint.{
  LibCall, setopt, handle_err, handle_drop, handle_proc, handle_buffered, strcompile, program_exec,
  program_info, starts, stops, proc_grab, proc_create, proc_continue,
}
use tcldtrace.Footprint.Owners.{OpenLaws}
use tcldtrace.Tests.Setup.{env, no_info, one_statement, probe_zero}
use tcldtrace.Tests.Runs.{opened_hd}

pub record Handles : Type 0 where
  pub made : ℕ
  pub kept : ℕ → Bool

abbrev pub is_open : ℕ → Handles → Bool
is_open k d = ltb k d.made && d.kept k

abbrev pub tracking_env : Env Handles
tracking_env = record {
  get_string = env.get_string;
  get_int = env.get_int;
  get_long = env.get_long;
  get_boolean = env.get_boolean;
  get_elements = env.get_elements;
  get_index = env.get_index;
  wrong_num_args = env.wrong_num_args;
  eval_objv = λ objv w. done true w;
  dtrace_o_nodev = env.dtrace_o_nodev;
  dtraceopt_unset = env.dtraceopt_unset;
  dtraceact_isagg = env.dtraceact_isagg;
  dtrace_open = λ flags d. (
    opened d.made,
    record { made = d.made + 1; kept = λ k. if d.made == k then true else d.kept k },
  );
  dtrace_close = λ h d. record d { kept = λ k. if h == k then false else d.kept k };
  dtrace_setopt = λ h name value d. (true, d);
  dtrace_getopt = λ h name d. none;
  dtrace_handle_err = λ h a d. (true, d);
  dtrace_handle_drop = λ h a d. (true, d);
  dtrace_handle_proc = λ h a d. (true, d);
  dtrace_handle_buffered = λ h a d. (true, d);
  dtrace_errno = λ h d. pos 0;
  dtrace_errmsg = λ h n d. [];
  dtrace_program_strcompile = λ h program arguments d. (some 20, d);
  dtrace_program_exec = λ h p d. (some no_info, d);
  dtrace_program_info = λ h p d. (no_info, d);
  dtrace_go = λ h d. (true, d);
  dtrace_stop = λ h d. (true, d);
  dtrace_sleep = λ h call w. done tt w;
  dtrace_proc_grab = λ h pid d. (some 30, d);
  dtrace_proc_create = λ h words d. (some 31, d);
  dtrace_proc_continue = λ h p d. d;
  dtrace_work = λ h call w. done true w;
  dtrace_aggregate_print = λ h call w. done true w;
  dtrace_stmt_iter = λ h p call last. call one_statement last;
  dtrace_probe_iter = λ h d call w. bind (call probe_zero w) (λ r. done true);
}

same_number : (m n : ℕ) → opened m ≡ opened n → m ≡ n
same_number m n e = cc

steady_call :
    {h : ℕ} {d d' : Handles} (k : ℕ) → LibCall tracking_env h d d' → is_open k d' ≡ is_open k d
steady_call k (setopt name value) = refl
steady_call k (handle_err a) = refl
steady_call k (handle_drop a) = refl
steady_call k (handle_proc a) = refl
steady_call k (handle_buffered a) = refl
steady_call k (strcompile program words) = refl
steady_call k (program_exec p) = refl
steady_call k (program_info p) = refl
steady_call k starts = refl
steady_call k stops = refl
steady_call k (proc_grab pid) = refl
steady_call k (proc_create words) = refl
steady_call k (proc_continue p) = refl

pub tracking_laws : OpenLaws tracking_env is_open
tracking_laws = record {
  opening = λ flags d h e.
      let is = same_number d.made h e in (ground (arith, is), λ k. ground (arith, is));
  failing = λ flags d error e. absurd (cc);
  closing = λ h k d. ground arith;
  steady = λ h k d d' c. steady_call k c;
}

-- The states: a handle is opened, and then a second.
abbrev pub none_open : Handles
none_open = record { made = 7; kept = λ k. false }

abbrev pub one_open : World Handles
one_open = record (fresh_world none_open) {
  handles = (1, 1) ∷ [];
  heap = (1, opened_hd) ∷ [];
  next_free_id = 2;
  result = int (pos 1);
  lib = record { made = 8; kept = λ k. if 7 == k then true else false };
}

abbrev pub two_open : World Handles
two_open = record one_open {
  handles = (2, 2) ∷ (1, 1) ∷ [];
  heap = (2, record opened_hd { handle = some 8 }) ∷ (1, opened_hd) ∷ [];
  next_free_id = 3;
  result = int (pos 2);
  lib = record { made = 9; kept = λ k. if 8 == k then true else (if 7 == k then true else false) };
}
