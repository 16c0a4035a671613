-- ===== src/Grabbed.antt =====
-- The processes that Grab and Launch of generic/dtrace.c record, and that Go continues.
use tcldtrace.Prelude.{
  Bool, true, false, if◌then◌else◌, Bytes, drop, ℕ, zero, suc, ◌+◌, ◌*◌, ◌≤◌, ◌<◌, ◌≡◌, refl, inl,
  inr, Option, none, some, List, [], ◌∷◌, ◌++◌, arith, lookup, ◌==◌, Bool-cases, length, take,
  get_elem?, take-set, ◌∙◌, ap, pos, negsuc, ◌^◌,
}
use tcldtrace.State.{Obj, HandleData, World, done, tcl_ok}
use tcldtrace.Api.{Env}
use tcldtrace.Commands.Processes.{resize, grow, push_process, to_pid}
use tcldtrace.Commands.Tracing.{continue_processes, start_tracing, register_callbacks, go_handle}
use tcldtrace.Helpers.Checks.{lib_error}
use tcldtrace.Safety.Invariant.{IsWellFormed}
use tcldtrace.Safety.Processes.{grow_room, pushed, push_process-pushed}

-- The vector as it is meant: the cells below the count.
abbrev pub recorded : HandleData → List (Option ℕ)
recorded hd = take hd.proc_count hd.processes

take-take : (n k : ℕ) (s : List (Option ℕ)) → n ≤ k → take n (take k s) ≡ take n s
take-take zero k s h = refl
take-take (suc n) zero s h = absurd (omega arith)
take-take (suc n) (suc k) [] h = refl
take-take (suc n) (suc k) (c ∷ cs) h = ap (◌∷◌ c) (take-take n k cs (omega arith))

take-append_le : (n : ℕ) (xs ys : List (Option ℕ)) → n ≤ length xs → take n (xs ++ ys) ≡ take n xs
take-append_le zero xs ys h = refl
take-append_le (suc n) [] ys h = absurd (omega arith)
take-append_le (suc n) (x ∷ xs) ys h = ap (◌∷◌ x) (take-append_le n xs ys (omega arith))

recorded-grow : (hd : HandleData) → IsWellFormed hd → recorded (grow hd) ≡ recorded hd
unfolding grow resize
recorded-grow hd wf = elim (Bool-cases (hd.proc_count == hd.proc_capacity)) [
  | inl full ↦ rw full (
      take-take hd.proc_count (2 * hd.proc_capacity + 1) _ (omega (arith, wf.count_le))
      ∙ take-append_le hd.proc_count hd.processes _ (omega (arith, wf.cells, wf.count_le)))
  | inr spare ↦ rw spare refl
]

-- A process is recorded in a well-formed structure behind those before it, also where the vector
-- has to grow; the capacity then is at most twice what it was and one.
pub push_process-recorded :
    (hd : HandleData) (proc : ℕ)
    → IsWellFormed hd
    → (hd' : HandleData) × (push_process (grow hd) proc ≡ some hd')
      × (recorded hd' ≡ recorded hd ++ some proc ∷ [])
      × (hd'.proc_capacity ≤ 2 * hd.proc_capacity + 1)
unfolding pushed
push_process-recorded hd proc wf =
    let (_, room) = grow_room hd wf in
    (
      pushed (grow hd) proc,
      push_process-pushed (grow hd) proc room,
      unfold pushed in
          (let one : (grow hd).proc_count + 1 ≡ suc (grow hd).proc_count = omega arith in
            rw one (
              take-set (grow hd).processes (grow hd).proc_count (some proc) room
              ∙ ap (λ l. l ++ some proc ∷ []) (recorded-grow hd wf))),
      capacity hd,
    )
  where
    capacity : (g : HandleData) → (grow g).proc_capacity ≤ 2 * g.proc_capacity + 1
    capacity g = unfold grow in ground arith

-- A process identifier n or -n-1, where n is below 2 ^ 31, is passed on unchanged.
to_pid_id : (n : ℕ) → n < 2 ^ 31 → (to_pid (pos n) ≡ pos n) × (to_pid (negsuc n) ≡ negsuc n)
unfolding to_pid
to_pid_id n h = (ground arith, ground arith)

-- The cells from an index on, a number of them.
pub slice : ℕ → ℕ → List (Option ℕ) → List (Option ℕ)
slice zero n cells = take n cells
slice (suc i) n [] = []
slice (suc i) n (c ∷ cells) = slice i n cells

slice_step :
    (i n : ℕ) (cells : List (Option ℕ)) (c : Option ℕ)
    → get_elem? cells i ≡ some c
    → slice i (suc n) cells ≡ c ∷ slice (suc i) n cells
unfolding slice
slice_step i n [] c e = absurd (cc)
slice_step zero n (x ∷ cells) c e = ground arith
slice_step (suc i) n (x ∷ cells) c e = slice_step i n cells c e

slice_none : (i : ℕ) (cells : List (Option ℕ)) → slice i 0 cells ≡ []
unfolding slice
slice_none zero cells = refl
slice_none (suc i) [] = refl
slice_none (suc i) (c ∷ cells) = slice_none i cells

module _ {D : Type 0} (env : Env D) where
  -- libdtrace after the processes of some cells were continued, first to last.
  pub continued : ℕ → List (Option ℕ) → D → D
  continued h [] d = d
  continued h (none ∷ cells) d = continued h cells d
  continued h (some p ∷ cells) d = continued h cells (env.dtrace_proc_continue h p d)

  continue_processes-slice :
      (a : ℕ) (hd : HandleData) (h i rounds : ℕ) (w : World D)
      → IsWellFormed hd
      → i + rounds ≤ hd.proc_count
      → hd.handle ≡ some h
      → lookup a w.heap ≡ some hd
      → continue_processes env a i rounds w
        ≡ done tt (record w { lib = continued h (slice i rounds hd.processes) w.lib })
  unfolding continue_processes continued
  continue_processes-slice a hd h i zero w wf within e' e = rw (slice_none i hd.processes) refl
  continue_processes-slice a hd h i (suc rounds) w wf within e' e =
      let (p, cell) = wf.written i (omega arith) in
      rw (slice_step i rounds hd.processes (some p) cell) (
        rw (e, continue_processes)
          (rw (e', continue_processes)
            (rw (cell, continue_processes)
              (continue_processes-slice a hd h (suc i) rounds
                (record w { lib = env.dtrace_proc_continue h p w.lib }) wf (omega arith) e' e))))

  continue_processes-recorded :
      (a h : ℕ) (hd : HandleData) (w : World D)
      → IsWellFormed hd
      → lookup a w.heap ≡ some hd
      → hd.handle ≡ some h
      → continue_processes env a 0 hd.proc_count w
        ≡ done tt (record w { lib = continued h (recorded hd) w.lib })
  unfolding slice
  continue_processes-recorded a h hd w wf e e' =
      continue_processes-slice a hd h 0 hd.proc_count w wf (omega arith) e' e

  -- Go from the call of `dtrace_go` on.
  start_tracing-recorded :
      (command : Bytes) (a h : ℕ) (good : Bool) (hd : HandleData) (w : World D) (d : D)
      → IsWellFormed hd
      → lookup a w.heap ≡ some hd
      → hd.handle ≡ some h
      → env.dtrace_go h w.lib ≡ (good, d)
      → start_tracing env command a w ≡ (
          if good
          then done tcl_ok (record w { lib = continued h (recorded hd) d })
          else lib_error env command a (record w { lib = d }))
  unfolding start_tracing
  start_tracing-recorded command a h true hd w d wf e e' goes =
      rw (e, start_tracing)
        (rw (e', start_tracing)
          (rw (goes, start_tracing)
            (rw (e, start_tracing)
              (rw (continue_processes-recorded a h hd (record w { lib = d }) wf e e', start_tracing)
                refl))))
  start_tracing-recorded command a h false hd w d wf e e' goes =
      rw (e, start_tracing) (rw (e', start_tracing) (rw (goes, start_tracing) refl))

  -- On a live, well-formed structure with a libdtrace handle, where the callbacks of the words are
  -- registered: if libdtrace then starts tracing, Go succeeds and has continued every process that was
  -- recorded, once, in the order of recording, and changed nothing else; if libdtrace refuses, Go
  -- reports its error and continues none.
  pub go_handle-recorded :
      (command : Bytes) (objv : List Obj) (a h : ℕ) (good : Bool) (hd : HandleData) (w v : World D)
      (d : D)
      → register_callbacks env a (drop 2 objv) w ≡ done tcl_ok v
      → IsWellFormed hd
      → lookup a v.heap ≡ some hd
      → hd.handle ≡ some h
      → env.dtrace_go h v.lib ≡ (good, d)
      → go_handle env command objv a w ≡ (
          if good
          then done tcl_ok (record v { lib = continued h (recorded hd) d })
          else lib_error env command a (record v { lib = d }))
  unfolding go_handle
  go_handle-recorded command objv a h good hd w v d registers wf e e' goes =
      rw (registers, go_handle) (start_tracing-recorded command a h good hd v d wf e e' goes)
