-- ===== src/Compiling.antt =====
-- generic/dtrace.c, Compile and then Exec or Info: the program that is run is the one that was compiled.
use tcldtrace.Prelude.{
  ℕ, ◌+◌, ◌<◌, ◌≡◌, refl, true, some, List, [], ◌∷◌, pos, arith, lookup, insert, lookup-insert_self,
  lt→ltb, leb, length, Bytes,
}
use tcldtrace.State.{
  Obj, int, parsed, HandleData, ProgramData, handle_of, World, done, bind, tcl_ok,
}
use tcldtrace.Api.{Env, ProgInfo}
use tcldtrace.Helpers.Registry.{get_hd, get_pd, find_by, find_entry, register_pd, int_max}
use tcldtrace.Helpers.Checks.{objc_check, program_check}
use tcldtrace.Commands.Programs.{
  compile, compile_handle, exec, exec_or_info, exec_handle, exec_program, strings, info_list,
}
use tcldtrace.Commands.Dispatch.{Command, run_command}
use tcldtrace.Sessions.{handle_check-open}
use tcldtrace.Safety.Scope.{Scope}
use tcldtrace.Safety.Invariant.{Inv}

-- The state after a compilation, on libdtrace's state.
abbrev pub with_program : {D : Type 0} → ℕ → ℕ → D → World D → World D
with_program a p d w = record w {
  programs = insert w.next_free_pid (record { compiled = p; hd = a }) w.programs;
  next_free_pid = w.next_free_pid + 1;
  lib = d;
}

module _ {D : Type 0} (env : Env D) (s : Scope) where
  compile_handle-done :
      (command : Bytes) (name handle source : Obj) (arguments : List Obj) (a h p : ℕ) (d : D)
      (w : World D)
      → Inv s w
      → handle_of a w ≡ done h w
      → w.next_free_pid < int_max
      → env.dtrace_program_strcompile h source.str (strings arguments) w.lib ≡ (some p, d)
      → compile_handle env command (name ∷ handle ∷ source ∷ arguments) a w
        ≡ done tcl_ok (record (with_program a p d w) { result = int (pos w.next_free_pid) })
  unfolding compile_handle register_pd
  compile_handle-done command name handle source arguments a h p d w inv held room compiles =
      rw (held, compile_handle)
        (rw (compiles, compile_handle)
          (rw (lt→ltb w.next_free_pid int_max room, register_pd)
            (rw (inv.fresh_pid w.next_free_pid (omega arith), register_pd) refl)))

  exec_handle-done :
      (command : Bytes) (pd : ProgramData) (a h : ℕ) (info : ProgInfo) (d : D) (w : World D)
      → handle_of a w ≡ done h w
      → env.dtrace_program_exec h pd.compiled w.lib ≡ (some info, d)
      → exec_handle env true command pd a w
        ≡ done tcl_ok (record w { lib = d; result = info_list info })
  unfolding exec_handle exec_program
  exec_handle-done command pd a h info d w held runs =
      rw (held, exec_handle) (rw (runs, exec_program) refl)

  -- Under the invariant, on an open handle and with a counter that has not run out, where libdtrace
  -- compiles the source and then can execute what it compiled: Compile succeeds, and Exec on its number
  -- has libdtrace execute that program on that handle, and succeeds with the statistics it gives.
  pub compile-exec :
      (name handle source name' id : Obj) (arguments : List Obj) (a h p : ℕ) (hd : HandleData)
      (d d' : D) (info : ProgInfo) (w : World D)
      → Inv s w
      → env.get_int handle ≡ parsed (pos a)
      → lookup a w.heap ≡ some hd
      → hd.handle ≡ some h
      → w.next_free_pid < int_max
      → env.dtrace_program_strcompile h source.str (strings arguments) w.lib ≡ (some p, d)
      → env.get_int id ≡ parsed (pos w.next_free_pid)
      → env.dtrace_program_exec h p d ≡ (some info, d')
      → bind
          (run_command env Command.compiles (name ∷ handle ∷ source ∷ arguments) w)
          (λ _. run_command env Command.execs (name' ∷ id ∷ []))
        ≡ done tcl_ok (record (with_program a p d' w) { result = info_list info })
  unfolding run_command compile exec exec_or_info objc_check program_check get_hd get_pd find_by
      find_entry
  compile-exec name handle source name' id arguments a h p hd d d' info w inv is e e' room compiles
        names runs =
      let enough : leb 3 (length (name ∷ handle ∷ source ∷ arguments)) ≡ true = ground arith in
      let held : (v : World D) → lookup a v.heap ≡ some hd → handle_of a v ≡ done h v =
        λ v l. rw (l, handle_of) (rw (e', handle_of) refl) in
      let pd : ProgramData = record { compiled = p; hd = a } in
      let v : World D = record (with_program a p d w) { result = int (pos w.next_free_pid) } in
      rw (enough, compile)
        (rw (is, compile)
          (rw ((inv.owned a hd e).0, compile)
            (rw
              (handle_check-open env name.str
                (compile_handle env name.str (name ∷ handle ∷ source ∷ arguments)) a h hd w e e')
              (rw
                (compile_handle-done name.str name handle source arguments a h p d w inv (held w e)
                  room compiles)
                (rw names (
                  rw (lookup-insert_self w.next_free_pid pd w.programs) (
                    rw
                      (handle_check-open env name'.str (exec_handle env true name'.str pd) a h hd v
                        e e')
                      (exec_handle-done name'.str pd a h info d' v (held v e) runs))))))))
