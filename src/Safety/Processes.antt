-- ===== src/Safety/Processes.antt =====
-- The commands Grab and Launch keep the invariant: the vector of processes never overflows.
use tcldtrace.Prelude.{
  ℕ, ◌+◌, ◌*◌, ◌≤◌, ◌<◌, ◌≡◌, refl, inl, inr, Option, none, some, List, ◌++◌, Bytes, arith, ◌==◌,
  Bool-cases, length, replicate, set, get_elem?, get_elem?_below, get_elem?-set_self,
  get_elem?-set_below, get_elem?-append, get_elem?-take, length-append, length-take,
  length-replicate, length-set, lt→ltb, ◌∙◌, sym, subst,
}
use tcldtrace.State.{Obj, Parsed-cases, HandleData, World, store}
use tcldtrace.Api.{Env}
use tcldtrace.Helpers.Checks.{fail_with}
use tcldtrace.Commands.Processes.{
  resize, grow, push_process, record_process, grab_handle, launch_handle,
}
use tcldtrace.Safety.Scope.{Scope}
use tcldtrace.Safety.Held.{held_by}
use tcldtrace.Safety.Invariant.{Post, IsWellFormed, Inv, Good, store-Tables}
use tcldtrace.Safety.Registry.{lib_error-Inv}

length-resize : (n : ℕ) (cells : List (Option ℕ)) → length (resize n cells) ≡ n
unfolding resize
length-resize n cells = omega (
  arith,
  length-take n (cells ++ replicate n none),
  length-append cells (replicate n none),
  length-replicate {A = Option ℕ} n none,
)

resize_keeps :
    (n i : ℕ) (cells : List (Option ℕ))
    → i < length cells
    → length cells ≤ n
    → get_elem? (resize n cells) i ≡ get_elem? cells i
unfolding resize
resize_keeps n i cells h k =
    get_elem?-take n (cells ++ replicate n none) i (omega arith)
    ∙ get_elem?-append cells (replicate n none) i h

-- After the growth there is room for one more process, and the others are where they were.
pub grow_room :
    (hd : HandleData)
    → IsWellFormed hd
    → IsWellFormed (grow hd) × ((grow hd).proc_count < length (grow hd).processes)
unfolding grow
grow_room hd wf = elim (Bool-cases (hd.proc_count == hd.proc_capacity)) [
  | inl full ↦ rw full (
    record {
      count_le = ground arith;
      cells = length-resize _ hd.processes;
      written = λ i h.
          let (p, e) = wf.written i h in
          (
            p,
            resize_keeps _ i hd.processes (omega (arith, wf.cells, wf.count_le))
                  (omega (arith, wf.cells))
                ∙ e,
          );
      slots = wf.slots;
    },
    omega (arith, length-resize (2 * hd.proc_capacity + 1) hd.processes, wf.count_le),
  )
  | inr spare ↦ rw spare (wf, ground (arith, wf.cells, wf.count_le))
]

-- The process recorded behind the others.
unfoldable pub pushed : HandleData → ℕ → HandleData
pushed hd proc = record hd {
  processes = set hd.processes hd.proc_count (some proc);
  proc_count = hd.proc_count + 1;
}

pub push_process-pushed :
    (hd : HandleData) (proc : ℕ)
    → hd.proc_count < length hd.processes
    → push_process hd proc ≡ some (pushed hd proc)
unfolding push_process pushed
push_process-pushed hd proc room = rw (lt→ltb _ _ room)

pushed-IsWellFormed :
    (hd : HandleData) (proc : ℕ)
    → IsWellFormed hd
    → hd.proc_count < length hd.processes
    → IsWellFormed (pushed hd proc)
unfolding pushed
pushed-IsWellFormed hd proc wf room = record {
  count_le = omega (arith, wf.cells);
  cells = length-set hd.processes hd.proc_count (some proc) ∙ wf.cells;
  written = λ i h. elim (Bool-cases (hd.proc_count == i)) [
    | inl same ↦
        let at : hd.proc_count ≡ i = ground arith in
        (
          proc,
          subst (λ n. get_elem? (set hd.processes hd.proc_count (some proc)) n ≡ some (some proc))
              at (get_elem?-set_self hd.processes hd.proc_count (some proc) room),
        )
    | inr other ↦
        let below : i < hd.proc_count = ground arith in
        let (p, e) = wf.written i below in
        (p, get_elem?-set_below hd.processes hd.proc_count i (some proc) below ∙ e)
  ];
  slots = wf.slots;
}

grow-handle : (hd : HandleData) → (grow hd).handle ≡ hd.handle
unfolding grow
grow-handle hd = ground arith

grow-interp : (hd : HandleData) → (grow hd).interp ≡ hd.interp
unfolding grow
grow-interp hd = ground arith

grow-held : (hd : HandleData) (n : ℕ) → held_by (grow hd) n ≡ held_by hd n
unfolding grow
grow-held hd n = elim (Bool-cases (hd.proc_count == hd.proc_capacity)) [
  | inl full ↦ rw full refl
  | inr spare ↦ rw spare refl
]

module _ {D : Type 0} (env : Env D) (s : Scope) where
  pub record_process-Inv :
      (command : Bytes) (a : ℕ) (proc : Option ℕ) (w : World D)
      → Good s a w
      → Post s (λ _. Inv s) (record_process env command a proc w)
  unfolding record_process grow pushed
  record_process-Inv command a none w g = lib_error-Inv env s command a w g
  record_process-Inv command a (some proc) w (inv, (hd, h, e, e')) =
      let (wf, room) = grow_room hd (inv.owned a hd e).1 in
      rw (e, record_process)
        (rw (push_process-pushed (grow hd) proc room) (
          rw (e, store)
            (store-Tables a hd (pushed (grow hd) proc) w.refs inv e
              (pushed-IsWellFormed (grow hd) proc wf room)
              (λ h' ex l. grow-interp hd ∙ inv.ready a h' hd ex e (sym (grow-handle hd) ∙ l))
              (λ n. omega (arith, grow-held hd n)))))

  pub grab_handle-Inv :
      (command : Bytes) (objv : List Obj) (a : ℕ) (w : World D)
      → length objv ≡ 3
      → Good s a w
      → Post s (λ _. Inv s) (grab_handle env command objv a w)
  unfolding grab_handle fail_with
  grab_handle-Inv command objv a w three (inv, (hd, h, e, e')) =
      let (o, f) = get_elem?_below 2 objv (omega arith) in
      rw (f, grab_handle)
        (elim (Parsed-cases (env.get_long o)) [
          | inl (m, bad) ↦ rw (bad, grab_handle) inv
          | inr (n, good) ↦
              rw (good, grab_handle)
                (rw (e, grab_handle)
                  (rw (e', grab_handle) (record_process-Inv command a _ _ (inv, (hd, h, e, e')))))
        ])

  pub launch_handle-Inv :
      (command : Bytes) (objv : List Obj) (a : ℕ) (w : World D)
      → Good s a w
      → Post s (λ _. Inv s) (launch_handle env command objv a w)
  unfolding launch_handle
  launch_handle-Inv command objv a w (inv, (hd, h, e, e')) =
      rw (e, launch_handle)
        (rw (e', launch_handle) (record_process-Inv command a _ _ (inv, (hd, h, e, e'))))
