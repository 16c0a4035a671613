-- ===== src/Tests/Notices.antt =====
-- The theorem about the events of Process at a concrete input: a message on a process, for which a
-- callback is registered, and a probe, for which there is none.
use tcldtrace.Prelude.{
  ℕ, ◌≡◌, refl, inl, inr, true, List, [], ◌∷◌, ◌++◌, pos, text, lookup, arith, length,
  if◌then◌else◌, ◌==◌, Bool-cases,
}
use tcldtrace.State.{bind, done, tcl_ok, Value}
use tcldtrace.Api.{Env, Call}
use tcldtrace.Helpers.Checks.{lib_error}
use tcldtrace.Commands.Tracing.{process_handle}
use tcldtrace.Notices.{IsPaired}
use tcldtrace.Notices.Sequence.{serve_all, heard, unbroken, settled, slept, process_handle-heard}
use tcldtrace.Tests.Setup.{env, succeeds, probe_data}
use tcldtrace.Tests.Runs.{one, traced_hd, traced_world}

abbrev events : List Call
events = Call.process (pos 5) (text "m") ∷ Call.probe probe_data ∷ []

abbrev ending : List Call
ending = Call.process (pos 6) (text "e") ∷ []

-- Scripts that leave the number of their words outside.
abbrev noted : List Value → List ℕ → List ℕ
noted objv d = d ++ length objv ∷ []

abbrev heard_env : Env (List ℕ)
heard_env = record env {
  eval_objv = λ objv w. done (succeeds objv) (record w { lib = noted objv w.lib });
  dtrace_sleep = λ h call w. bind (serve_all call ending w) (λ _. done tt);
  dtrace_work = λ h call w. serve_all call events w;
}

traced_hd-IsPaired : IsPaired traced_hd
traced_hd-IsPaired i c e = elim (Bool-cases (4 == i)) [
  | inl same ↦ (one, rw same refl)
  | inr other ↦ absurd (ground (arith, e))
]

-- The process ends in the sleep, and the probe fires in the work.
process_handle-heard_example : process_handle heard_env (text "p") true 1 traced_world ≡ (
    let v =
      slept true
        (λ u. settled succeeds noted (heard succeeds traced_hd ending) (record u { lib = u.lib }))
        traced_world in
    let w' = settled succeeds noted (heard succeeds traced_hd events) (record v { lib = v.lib }) in
    if unbroken succeeds traced_hd events
    then done tcl_ok w'
    else lib_error heard_env (text "p") 1 w')
process_handle-heard_example =
    process_handle-heard heard_env succeeds noted (λ objv v. refl) 1 traced_hd refl (text "p") true
      7 (λ d. d) (λ d. d) ending events traced_world (unfold lookup in refl) refl traced_hd-IsPaired
      (tt, tt) (tt, (tt, tt)) (λ call v. refl) (λ call v. refl)
