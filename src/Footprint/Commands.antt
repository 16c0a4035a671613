-- ===== src/Footprint/Commands.antt =====
-- The commands on a structure with an open handle act on nothing else.
use tcldtrace.Prelude.{
  ℕ, zero, suc, ◌≡◌, inl, inr, Bool, true, false, none, some, Option, List, [], ◌∷◌, Bytes, lookup,
  Bool-cases, Option-cases, ltb, arith, ◌∙◌, text, get_elem?, drop, map,
}
use tcldtrace.State.{
  Obj, HandleData, ProgramData, World, Code, tcl_ok, tcl_error, store, Parsed-cases, Out, pure,
}
use tcldtrace.Api.{Env}
use tcldtrace.Helpers.Registry.{register_pd, int_max}
use tcldtrace.Helpers.Checks.{fail_with}
use tcldtrace.Commands.Programs.{compile_handle, exec_program, exec_handle, strings}
use tcldtrace.Commands.Processes.{
  grow, push_process, store_process, record_process, grab_handle, launch_handle, to_pid,
}
use tcldtrace.Commands.Tracing.{
  register_callback, bad_spec, callback_spec, callback_names, register_callbacks,
  continue_processes, start_tracing, go_handle, stop_handle,
}
use tcldtrace.Commands.Open.{callbacks_count}
use tcldtrace.Footprint.{
  strcompile, program_exec, program_info, starts, stops, proc_grab, proc_create, proc_continue,
  Acts, calls, writes, registers, counts, says, IsHeld, Acts-IsHeld, Acts-handle_of, Ok, Ok-bind,
}
use tcldtrace.Footprint.Helpers.{lib_error-Within}

module _ {D : Type 0} (env : Env D) (a h : ℕ) (w : World D) (open_at : IsHeld a h w) where
  abbrev Stays : World D → Type 0
  Stays = Acts env a h w

  register_pd-Stays :
      (compiled : ℕ) (v : World D) → Stays v → Ok (λ _. Stays) (register_pd a compiled v)
  unfolding register_pd
  register_pd-Stays compiled v t = elim (Bool-cases (ltb v.next_free_pid int_max)) [
    | inr full ↦ rw (full, register_pd) tt
    | inl room ↦
        rw (room, register_pd)
          (elim (Option-cases (lookup v.next_free_pid v.programs)) [
            | inl new ↦ rw (new, register_pd) (registers compiled t)
            | inr (pd, old) ↦ rw (old, register_pd) tt
          ])
  ]

  pub compile_handle-Stays :
      (command : Bytes) (objv : List Obj) (v : World D)
      → Stays v
      → Ok (λ _. Stays) (compile_handle env command objv a v)
  unfolding compile_handle
  compile_handle-Stays command objv v t = elim (Option-cases (get_elem? objv 2)) [
    | inl gone ↦ rw (gone, compile_handle) tt
    | inr (o, there) ↦
        rw (there, compile_handle)
          (rw (Acts-handle_of open_at t, compile_handle)
            (elim (Option-cases
              (env.dtrace_program_strcompile h o.str (strings (drop 3 objv)) v.lib).0) [
                | inl bad ↦
                    rw (bad, compile_handle)
                      (lib_error-Within env a h w open_at command _ (calls t (strcompile o.str _)))
                | inr (p, good) ↦
                    rw (good, compile_handle)
                      (Ok-bind (λ _. Stays) (λ _. Stays) (register_pd a p _) _
                        (register_pd-Stays p _ (calls t (strcompile o.str _))) λ k u q. says _ _ q)
              ]))
  ]

  pub exec_handle-Stays :
      (exec : Bool) (command : Bytes) (pd : ProgramData) (v : World D)
      → Stays v
      → Ok (λ _. Stays) (exec_handle env exec command pd a v)
  unfolding exec_handle exec_program fail_with
  exec_handle-Stays true command pd v t =
      rw (Acts-handle_of open_at t, exec_handle)
        (elim (Option-cases (env.dtrace_program_exec h pd.compiled v.lib).0) [
          | inl bad ↦ rw (bad, exec_handle) (says _ _ (calls t (program_exec pd.compiled)))
          | inr (i, good) ↦ rw (good, exec_handle) (says _ _ (calls t (program_exec pd.compiled)))
        ])
  exec_handle-Stays false command pd v t =
      rw (Acts-handle_of open_at t, exec_handle) (says _ _ (calls t (program_info pd.compiled)))

  pub stop_handle-Stays :
      (command : Bytes) (v : World D) → Stays v → Ok (λ _. Stays) (stop_handle env command a v)
  unfolding stop_handle
  stop_handle-Stays command v t =
      rw (Acts-handle_of open_at t, stop_handle)
        (elim (Bool-cases (env.dtrace_stop h v.lib).0) [
          | inl good ↦ rw (good, stop_handle) (calls t stops)
          | inr bad ↦
              rw (bad, stop_handle) (lib_error-Within env a h w open_at command _ (calls t stops))
        ])

  grow-handle : (hd : HandleData) → (grow hd).handle ≡ hd.handle
  unfolding grow
  grow-handle hd = ground arith

  push_process-handle :
      (hd new : HandleData) (proc : ℕ) → push_process hd proc ≡ some new → new.handle ≡ hd.handle
  unfolding push_process
  push_process-handle hd new proc e = ground arith

  record_process-Stays :
      (command : Bytes) (proc : Option ℕ) (v : World D)
      → Stays v
      → Ok (λ _. Stays) (record_process env command a proc v)
  unfolding record_process store_process
  record_process-Stays command none v t = lib_error-Within env a h w open_at command v t
  record_process-Stays command (some proc) v t =
      let (hd, l, e) = Acts-IsHeld open_at t in
      rw (l, record_process)
        (elim (Option-cases (push_process (grow hd) proc)) [
          | inl outside ↦ rw (outside, store_process) tt
          | inr (new, within) ↦
              rw (within, store_process)
                (rw (l, store)
                  (writes new t
                    (push_process-handle (grow hd) new proc within ∙ (grow-handle hd ∙ e))))
        ])

  pub grab_handle-Stays :
      (command : Bytes) (objv : List Obj) (v : World D)
      → Stays v
      → Ok (λ _. Stays) (grab_handle env command objv a v)
  unfolding grab_handle fail_with
  grab_handle-Stays command objv v t = elim (Option-cases (get_elem? objv 2)) [
    | inl gone ↦ rw (gone, grab_handle) tt
    | inr (o, there) ↦
        rw (there, grab_handle)
          (elim (Parsed-cases (env.get_long o)) [
            | inl (m, bad) ↦ rw (bad, grab_handle) (says _ _ t)
            | inr (pid, good) ↦
                rw (good, grab_handle)
                  (rw (Acts-handle_of open_at t, grab_handle)
                    (record_process-Stays command _ _ (calls t (proc_grab (to_pid pid)))))
          ])
  ]

  pub launch_handle-Stays :
      (command : Bytes) (objv : List Obj) (v : World D)
      → Stays v
      → Ok (λ _. Stays) (launch_handle env command objv a v)
  unfolding launch_handle
  launch_handle-Stays command objv v t =
      rw (Acts-handle_of open_at t, launch_handle)
        (record_process-Stays command _ _ (calls t (proc_create (map (λ o. o.str) (drop 2 objv)))))

  register_callback-Stays :
      (callback : ℕ) (proc extra : Obj) (v : World D)
      → Stays v
      → Ok (λ _. Stays) (register_callback env a callback proc extra v)
  unfolding register_callback
  register_callback-Stays callback proc extra v t =
      elim (Bool-cases (ltb callback callbacks_count)) [
        | inr bad ↦ rw (bad, register_callback) tt
        | inl fine ↦
            let (hd, l, e) = Acts-IsHeld open_at t in
            rw (fine, register_callback)
              (rw (l, register_callback) (rw (l, store) (counts _ (writes _ t e))))
      ]

  register_callbacks-Stays :
      (objv : List Obj) (v : World D) → Stays v → Ok (λ _. Stays) (register_callbacks env a objv v)
  unfolding register_callbacks bad_spec fail_with
  register_callbacks-Stays [] v t = t
  register_callbacks-Stays (name ∷ []) v t = tt
  register_callbacks-Stays (name ∷ spec ∷ rest) v t =
      elim (Parsed-cases (env.get_index name callback_names (text "callback name"))) [
        | inl (m, unknown) ↦ rw (unknown, register_callbacks) (says _ _ t)
        | inr (callback, known) ↦
            rw (known, register_callbacks)
              (elim (Parsed-cases (env.get_elements spec)) [
                | inl (m, no_list) ↦ rw (no_list, register_callbacks) (says _ _ t)
                | inr (lobjv, elements) ↦
                    rw (elements, register_callbacks)
                      (elim (Option-cases (callback_spec lobjv)) [
                        | inl misfit ↦ rw (misfit, register_callbacks) (says _ _ t)
                        | inr ((proc, extra), fits) ↦
                            rw (fits, register_callbacks)
                              (Ok-bind (λ _. Stays) (λ _. Stays)
                                (register_callback env a callback proc extra v) _
                                (register_callback-Stays callback proc extra v t)
                                λ _ u q. register_callbacks-Stays rest u q)
                      ])
              ])
      ]

  continue_processes-Stays :
      (i rounds : ℕ) (v : World D) → Stays v → Ok (λ _. Stays) (continue_processes env a i rounds v)
  unfolding continue_processes
  continue_processes-Stays i zero v t = t
  continue_processes-Stays i (suc rounds) v t =
      let (hd, l, e) = Acts-IsHeld open_at t in
      rw (l, continue_processes)
        (rw (e, continue_processes)
          (elim (Option-cases (get_elem? hd.processes i)) [
            | inl outside ↦ rw (outside, continue_processes) tt
            | inr (cell, within) ↦
                rw (within, continue_processes)
                  (elim (Option-cases cell) [
                    | inl unset ↦ rw (unset, continue_processes) tt
                    | inr (proc, is_set) ↦
                        rw (is_set, continue_processes)
                          (continue_processes-Stays (suc i) rounds _ (calls t (proc_continue proc)))
                  ])
          ]))

  start_tracing-Stays :
      (command : Bytes) (v : World D) → Stays v → Ok (λ _. Stays) (start_tracing env command a v)
  unfolding start_tracing
  start_tracing-Stays command v t =
      rw (Acts-handle_of open_at t, start_tracing)
        (elim (Bool-cases (env.dtrace_go h v.lib).0) [
          | inr bad ↦
              rw (bad, start_tracing)
                (lib_error-Within env a h w open_at command _ (calls t starts))
          | inl good ↦
              let (hd, l, e) = Acts-IsHeld open_at t in
              rw (good, start_tracing)
                (rw (l, start_tracing)
                  (Ok-bind (λ _. Stays) (λ _. Stays) (continue_processes env a 0 hd.proc_count _) _
                    (continue_processes-Stays 0 hd.proc_count _ (calls t starts)) λ _ u q. q))
        ])

  pub go_handle-Stays :
      (command : Bytes) (objv : List Obj) (v : World D)
      → Stays v
      → Ok (λ _. Stays) (go_handle env command objv a v)
  unfolding go_handle
  go_handle-Stays command objv v t =
      Ok-bind (λ _. Stays) (λ _. Stays) (register_callbacks env a (drop 2 objv) v) _
        (register_callbacks-Stays (drop 2 objv) v t) started
    where
      started :
          (code : Code) (u : World D)
          → Stays u
          → Ok
              (λ _. Stays)
              ((elim code as (λ _. World D → Out D Code) [
                | tcl_error ↦ pure tcl_error
                | tcl_ok ↦ start_tracing env command a
              ])
                u)
      started tcl_error u q = q
      started tcl_ok u q = start_tracing-Stays command u q
