-- ===== src/Safety/Tracing.antt =====
-- The commands Go, Process, Aggregations and List keep the invariant.
use tcldtrace.Prelude.{
  ℕ, zero, suc, ◌+◌, ◌%◌, ◌≤◌, ◌<◌, lt→ltb, ◌≡◌, inl, inr, Bool, true, false, none, some, List, [],
  ◌∷◌, Bytes, arith, lookup, lookup-insert, ◌==◌, Bool-cases, Option-cases, text, length, get_elem?,
}
use tcldtrace.State.{
  Obj, Parsed-cases, parsed, bump, Code, tcl_ok, tcl_error, HandleData, ProgramData, World, M,
  store, pure, load, bind, deref, set_result, list, values, ◌>>=◌, ◌>>◌,
}
use tcldtrace.Api.{Env}
use tcldtrace.Callbacks.{deliver}
use tcldtrace.Helpers.Checks.{fail_with, lib_error}
use tcldtrace.Commands.Programs.{list_handle}
use tcldtrace.Commands.Open.{callbacks_count}
use tcldtrace.Commands.Tracing.{
  register_callback, register_callbacks, callback_spec, callback_names, continue_processes,
  start_tracing, go_handle, process_work, process_handle, print_aggregations, aggregations_handle,
  update,
}
use tcldtrace.Safety.Scope.{Scope, IsClosed}
use tcldtrace.Safety.Held.{held, held_by, held-update, cell, hits}
use tcldtrace.Safety.Invariant.{Post, carry, IsWellFormed, Inv, Good, store-Tables}
use tcldtrace.Safety.Registry.{lib_error-Inv}
use tcldtrace.Safety.Laws.{Laws, IsOrderly}
use tcldtrace.Safety.Callbacks.{
  Kept, Kept-bind, Kept-deref, Kept-handle_of, deliver-Inv, list_statement-Inv, set_agg-Inv,
}

-- An even list of arguments, as `Go` checks it.
abbrev IsEven : List Obj → Type 0
IsEven [] = Unit
IsEven (x ∷ []) = ⊥
IsEven (x ∷ y ∷ rest) = IsEven rest

IsEven-length : (os : List Obj) → length os % 2 ≡ 0 → IsEven os
IsEven-length [] e = tt
IsEven-length (x ∷ []) e = absurd (omega arith)
IsEven-length (x ∷ y ∷ rest) e = IsEven-length rest (omega arith)

module _ {D : Type 0} (env : Env D) (laws : Laws env) (s : Scope) where
  -- An entry registered with its argument.
  slot-IsWellFormed :
      (hd : HandleData) (k : ℕ) (proc extra : Obj)
      → IsWellFormed hd
      → IsWellFormed
          (record hd { callbacks = update hd.callbacks k proc; args = update hd.args k extra })
  slot-IsWellFormed hd k proc extra wf = record {
    count_le = wf.count_le;
    cells = wf.cells;
    written = wf.written;
    slots = λ i c e. elim (Bool-cases (k == i)) [
      | inl same ↦ (extra, rw same)
      | inr other ↦ rw other (wf.slots i c (rw other at e))
    ];
  }

  register_callback-Good :
      (a callback : ℕ) (proc extra : Obj) (w : World D)
      → callback < callbacks_count
      → Good s a w
      → Post s (λ _. Good s a) (register_callback env a callback proc extra w)
  unfolding register_callback
  register_callback-Good a callback proc extra w below (inv, (hd, h, e, e')) =
      let new : HandleData = record hd {
        callbacks = update hd.callbacks callback proc;
        args = update hd.args callback extra;
      } in
      rw (lt→ltb callback callbacks_count below, register_callback)
        (rw (e, register_callback)
          (rw (e, store)
            (
              store-Tables a hd new (bump (bump w.refs proc.ident) extra.ident) inv e
                  (slot-IsWellFormed hd callback proc extra (inv.owned a hd e).1)
                  (λ h' ex l. inv.ready a h' hd ex e l) (pays hd),
              (new, h, ground (arith, lookup-insert a a new w.heap), e'),
            )))
    where
      pays :
          (x : HandleData) (n : ℕ)
          → w.refs n
              + held
                  (update x.callbacks callback proc)
                  (update x.args callback extra)
                  0
                  callbacks_count
                  n
            ≤ bump (bump w.refs proc.ident) extra.ident n + held_by x n
      pays x n =
          let more =
            held-update x.callbacks x.args callback proc extra 0 callbacks_count n (omega arith)
              (omega (arith, below)) in
          let counts : bump (bump w.refs proc.ident) extra.ident n
              ≡ w.refs n + (hits proc n + hits extra n) =
            ground arith in
          omega (arith, more, counts)

  within :
      (name : Obj) (k : ℕ)
      → env.get_index name callback_names (text "callback name") ≡ parsed k
      → k < callbacks_count
  unfolding callback_names
  within name k e = laws.index_within name callback_names (text "callback name") k e

  register_callbacks-Good :
      (a : ℕ) (os : List Obj) (w : World D)
      → IsEven os
      → Good s a w
      → Post s (λ _. Good s a) (register_callbacks env a os w)
  unfolding register_callbacks fail_with
  register_callbacks-Good a [] w even g = g
  register_callbacks-Good a (name ∷ []) w even g = absurd even
  register_callbacks-Good a (name ∷ spec ∷ rest) w even g =
      elim (Parsed-cases (env.get_index name callback_names (text "callback name"))) [
        | inl (m, unknown) ↦ rw (unknown, register_callbacks) g
        | inr (callback, known) ↦
            rw (known, register_callbacks)
              (elim (Parsed-cases (env.get_elements spec)) [
                | inl (m, bad) ↦ rw (bad, register_callbacks) g
                | inr (lobjv, good) ↦
                    rw (good, register_callbacks)
                      (elim (Option-cases (callback_spec lobjv)) [
                        | inl bad ↦ rw (bad, register_callbacks) g
                        | inr ((proc, extra), pair) ↦
                            rw (pair, register_callbacks)
                              (carry s (Good s a) (λ _. Good s a)
                                (register_callback env a callback proc extra w) _
                                (register_callback-Good a callback proc extra w
                                  (within name callback known) g)
                                λ _ w'. register_callbacks-Good a rest w' even)
                      ])
              ])
      ]

  continue_processes-Inv :
      (a : ℕ) (hd : HandleData) (h i rounds : ℕ) (w : World D)
      → i + rounds ≤ hd.proc_count
      → hd.handle ≡ some h
      → lookup a w.heap ≡ some hd
      → Inv s w
      → Post s (λ _. Inv s) (continue_processes env a i rounds w)
  unfolding continue_processes
  continue_processes-Inv a hd h i zero w within e' e inv = inv
  continue_processes-Inv a hd h i (suc rounds) w within e' e inv =
      let (p, cell) = (inv.owned a hd e).1.written i (omega arith) in
      rw (e, continue_processes)
        (rw (e', continue_processes)
          (rw (cell, continue_processes)
            (continue_processes-Inv a hd h (suc i) rounds _ (omega arith) e' e inv)))

  start_tracing-Inv :
      (command : Bytes) (a : ℕ) (w : World D)
      → Good s a w
      → Post s (λ _. Inv s) (start_tracing env command a w)
  unfolding start_tracing
  start_tracing-Inv command a w (inv, (hd, h, e, e')) =
      rw (e, start_tracing)
        (rw (e', start_tracing)
          (elim (Bool-cases (env.dtrace_go h w.lib).0) [
            | inl good ↦
                rw (good, start_tracing)
                  (rw (e, start_tracing)
                    (carry s (Inv s) (λ _. Inv s) (continue_processes env a 0 hd.proc_count _) _
                      (continue_processes-Inv a hd h 0 hd.proc_count _ (omega arith) e' e inv)
                      (λ _ w' i. i)))
            | inr bad ↦
                rw (bad, start_tracing) (lib_error-Inv env s command a _ (inv, (hd, h, e, e')))
          ]))

  pub go_handle-Inv :
      (command : Bytes) (objv : List Obj) (a : ℕ) (w : World D)
      → length objv % 2 ≡ 0
      → 2 ≤ length objv
      → Good s a w
      → Post s (λ _. Inv s) (go_handle env command objv a w)
  unfolding go_handle
  go_handle-Inv command [] a w even long g = absurd (omega arith)
  go_handle-Inv command (x ∷ []) a w even long g = absurd (omega arith)
  go_handle-Inv command (x ∷ y ∷ rest) a w even long g =
      carry s (Good s a) (λ _. Inv s) (register_callbacks env a rest w) _
        (register_callbacks-Good a rest w (IsEven-length rest (omega arith)) g) λ r. start_or_stop r
    where
      start_or_stop :
          (r : Code) (w' : World D)
          → Good s a w'
          → Post s
              (λ _. Inv s)
              ((elim r as (λ _. M D Code) [
                | tcl_error ↦ pure tcl_error
                | tcl_ok ↦ start_tracing env command a
              ])
                w')
      start_or_stop tcl_ok w' g' = start_tracing-Inv command a w' g'
      start_or_stop tcl_error w' g' = g'.0

module _ {D : Type 0} (env : Env D) (laws : Laws env) (orderly : IsOrderly env) (s : Scope)
    (p : s.panics) (closed : IsClosed s.frame) where
  lib_error-Kept :
      (command : Bytes) (a : ℕ) (w : World D) → Inv s w → Kept s (lib_error env command a w)
  unfolding lib_error fail_with
  lib_error-Kept command a w o = Kept-handle_of s p a _ w λ h. o

  process_work-Inv :
      (command : Bytes) (a h : ℕ) (w : World D) → Inv s w → Kept s (process_work env command a h w)
  unfolding process_work
  process_work-Inv command a h w o =
      Kept-bind s (env.dtrace_work h (deliver env a) w) _
        (laws.work_keeps h s (deliver env a) (Inv s) (λ v d i. i)
          (deliver-Inv env laws orderly s p closed a) w o)
        λ good v q. elim (Bool-cases good) [
          | inl well ↦ rw well q
          | inr bad ↦ rw bad (lib_error-Kept command a v q)
        ]

  pub process_handle-Inv :
      (command : Bytes) (sleep : Bool) (a : ℕ) (w : World D)
      → Inv s w
      → Kept s (process_handle env command sleep a w)
  unfolding process_handle
  process_handle-Inv command true a w o = Kept-handle_of s p a _ w λ h.
      Kept-bind s (env.dtrace_sleep h (deliver env a) w) _
        (laws.sleep_keeps h s (deliver env a) (Inv s) (λ v d i. i)
          (deliver-Inv env laws orderly s p closed a) w o)
        λ _ v q. Kept-handle_of s p a _ v λ now. process_work-Inv command a now v q
  process_handle-Inv command false a w o =
      Kept-handle_of s p a _ w
        λ h. Kept-handle_of s p a _ w λ now. process_work-Inv command a now w o

  print_aggregations-Inv :
      (command : Bytes) (a h : ℕ) (w : World D)
      → Inv s w
      → Kept s (print_aggregations env command a h w)
  unfolding print_aggregations
  print_aggregations-Inv command a h w o =
      Kept-bind s (env.dtrace_aggregate_print h (deliver env a) w) _
        (laws.print_keeps h s (deliver env a) (Inv s) (λ v d i. i)
          (deliver-Inv env laws orderly s p closed a) w o)
        λ good v q. elim (Bool-cases good) [
          | inl well ↦ rw well (read v q)
          | inr bad ↦ rw bad (lib_error-Kept command a v q)
        ]
    where
      read :
          (v : World D)
          → Inv s v
          → Kept s (
              bind (load a v) (λ after. do
                rows ← deref after.agg.list
                set_result (list (values rows))
                store a (record after { agg = record { tuple = after.agg.tuple; list = none } })
                pure tcl_ok))
      read v q = elim (Option-cases (lookup a v.heap)) [
        | inl gone ↦ rw gone p
        | inr (hd, l) ↦ rw l (
            Kept-deref s p hd.agg.list _ v λ rows.
              Kept-bind s _ _ (set_agg-Inv s a hd _ (record v { result = list (values rows) }) q l)
                λ _ u r. r)
      ]

  pub aggregations_handle-Inv :
      (command : Bytes) (a : ℕ) (w : World D)
      → Inv s w
      → Kept s (aggregations_handle env command a w)
  unfolding aggregations_handle
  aggregations_handle-Inv command a w o = elim (Option-cases (lookup a w.heap)) [
    | inl gone ↦ rw (gone, aggregations_handle) p
    | inr (hd, l) ↦
        rw (l, aggregations_handle)
          (Kept-bind s _ _ (set_agg-Inv s a hd _ w o l)
            λ _ v q. Kept-handle_of s p a _ v λ h. print_aggregations-Inv command a h v q)
  ]

  pub list_handle-Inv :
      (objv : List Obj) (pd : ProgramData) (a : ℕ) (w : World D)
      → Inv s w
      → Kept s (list_handle env objv pd a w)
  unfolding list_handle
  list_handle-Inv objv pd a w o = Kept-deref s p (get_elem? objv 2) _ w λ proc.
      Kept-deref s p (get_elem? objv 3) _ w λ args. Kept-handle_of s p a _ w λ h.
        Kept-bind s (env.dtrace_stmt_iter h pd.compiled _ none w) _
          (laws.stmt_iter_keeps s h pd.compiled _ none (Inv s) (λ v d i. i)
            (list_statement-Inv env laws orderly s p closed _ h) w o)
          λ last v q. q
