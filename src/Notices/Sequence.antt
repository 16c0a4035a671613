-- ===== src/Notices/Sequence.antt =====
-- generic/dtrace.c, Process: all events of one call of libdtrace.
use tcldtrace.Prelude.{
  ℕ, ◌≡◌, refl, inl, inr, Bool, true, false, none, some, List, [], ◌∷◌, Bytes, lookup,
  if◌then◌else◌, ap, ◌∙◌, ◌||◌, Bool-cases, Option-cases,
}
use tcldtrace.State.{Value, HandleData, World, done, M, bind, handle_of, pure, tcl_ok}
use tcldtrace.Api.{
  Env, Call, Reply, consume_this, consume_error, handle_ok, handle_abort, zero_reply,
}
use tcldtrace.Helpers.Checks.{lib_error}
use tcldtrace.Callbacks.{deliver}
use tcldtrace.Commands.Tracing.{process_handle, process_work}
use tcldtrace.Notices.{
  going, failing, IsReported, IsPaired, notice, report, IsScripted, ran, noticed,
}
use tcldtrace.Notices.Delivery.{deliver-noticed}

-- What libdtrace makes of a reply.
abbrev pub goes_on : Reply → Bool
goes_on consume_this = true
goes_on consume_error = false
goes_on handle_ok = true
goes_on handle_abort = false
goes_on zero_reply = true

goes_on-going : (c : Call) → goes_on (going c) ≡ true
goes_on-going (Call.probe p) = refl
goes_on-going (Call.record_of p) = refl
goes_on-going (Call.buffered b) = refl
goes_on-going (Call.dropped d) = refl
goes_on-going (Call.erred e) = refl
goes_on-going (Call.process pid message) = refl

abbrev pub AreReported : List Call → Type 0
AreReported [] = Unit
AreReported (c ∷ cs) = IsReported c × AreReported cs

-- A function called on some events in turn, until a reply stops it.
pub serve_all : {D : Type 0} → (Call → M D Reply) → List Call → M D Bool
serve_all call [] w = done true w
serve_all call (c ∷ cs) w =
    bind (call c w) λ reply. elim (goes_on reply) [ true ↦ serve_all call cs | false ↦ pure false ]

module _ (fine : List Value → Bool) (hd : HandleData) where
  -- The scripts that some events run, each with its event, up to the first that stops libdtrace.
  pub heard : List Call → List (Call × List Value)
  heard [] = []
  heard (c ∷ cs) =
      let rest = heard cs in
      elim (notice hd c) [
        | none ↦ rest
        | some objv ↦ (c, objv) ∷ (if fine objv || goes_on (failing c) then rest else [])
      ]

  -- Whether none of them stops it.
  pub unbroken : List Call → Bool
  unbroken [] = true
  unbroken (c ∷ cs) =
      let rest = unbroken cs in
      elim (notice hd c) [
        | none ↦ rest
        | some objv ↦ if fine objv || goes_on (failing c) then rest else false
      ]

-- The state after some scripts: what each did outside, and the reports on those that failed.
module _ {D : Type 0} (fine : List Value → Bool) (log : List Value → D → D) where
  pub settled : List (Call × List Value) → World D → World D
  settled [] w = w
  settled ((c, objv) ∷ scripts) w = settled scripts (record w {
    lib = log objv w.lib;
    background = if fine objv then w.background else report c ∷ w.background;
  })

-- What `dtrace_sleep` does, with the events that it serves, if it is called.
abbrev pub slept : {D : Type 0} → Bool → (World D → World D) → World D → World D
slept true sleeps w = sleeps w
slept false sleeps w = w

module _ {D : Type 0} (env : Env D) (fine : List Value → Bool) (log : List Value → D → D)
    (scripted : IsScripted fine log env) (a : ℕ) (hd : HandleData) (interp : hd.interp ≡ true) where
  serve_all-settled :
      (cs : List Call) (w : World D)
      → IsPaired hd
      → AreReported cs
      → lookup a w.heap ≡ some hd
      → serve_all (deliver env a) cs w
        ≡ done (unbroken fine hd cs) (settled fine log (heard fine hd cs) w)
  unfolding serve_all heard unbroken settled
  serve_all-settled [] w paired reported e = refl
  serve_all-settled (c ∷ cs) w paired (reported, more) e =
      rw (deliver-noticed env fine log scripted a hd interp c w paired reported e, serve_all)
        (elim (Option-cases (notice hd c)) [
          | inl silent ↦
              rw (silent, noticed, heard, unbroken)
                (rw (goes_on-going c, bind) (serve_all-settled cs w paired more e))
          | inr (objv, told) ↦ elim (Bool-cases (fine objv)) [
            | inl good ↦
                rw (told, noticed, heard, unbroken)
                  (rw (good, ran, settled)
                    (rw (goes_on-going c, bind)
                      (serve_all-settled cs (record w { lib = log objv w.lib }) paired more e)))
            | inr bad ↦
                let failed : World D = record w {
                  lib = log objv w.lib;
                  background = report c ∷ w.background;
                } in
                rw (told, noticed, heard, unbroken)
                  (rw (bad, ran, settled)
                    (elim (Bool-cases (goes_on (failing c))) [
                      | inl more_to_come ↦
                          rw (more_to_come, bind) (serve_all-settled cs failed paired more e)
                      | inr stops ↦ rw (stops, bind) refl
                    ]))
          ]
        ])

  -- The structure is not among what the scripts change.
  settled-heap :
      (scripts : List (Call × List Value)) (w : World D)
      → (settled fine log scripts w).heap ≡ w.heap
  unfolding settled
  settled-heap [] w = refl
  settled-heap ((c, objv) ∷ scripts) w = settled-heap scripts _

  -- On an open handle whose callbacks each have their argument, where libdtrace has some events to serve
  -- as it sleeps and some as it works, none of them a record of an aggregation and each output with its
  -- action, and calls back for one after another until a reply stops it, and where the scripts leave the
  -- extension alone: Process runs, in the order of the events, those of the sleep first where it sleeps,
  -- for each whose callback is registered the procedure with the words that the C function puts
  -- together, up to the first failure of any but a proc callback in the sleep and again in the work; it
  -- reports every failure in the background, and it succeeds if the work came to its end, and otherwise
  -- fails with libdtrace's error. Every reference count is what it was, and nothing else is changed.
  pub process_handle-heard :
      (command : Bytes) (sleep : Bool) (h : ℕ) (rests took : D → D) (first cs : List Call)
      (w : World D)
      → lookup a w.heap ≡ some hd
      → hd.handle ≡ some h
      → IsPaired hd
      → AreReported first
      → AreReported cs
      → ((call : Call → M D Reply) (v : World D)
          → env.dtrace_sleep h call v
            ≡ bind (serve_all call first (record v { lib = rests v.lib })) (λ _. pure tt))
      → ((call : Call → M D Reply) (v : World D)
          → env.dtrace_work h call v ≡ serve_all call cs (record v { lib = took v.lib }))
      → process_handle env command sleep a w ≡ (
          let v =
            slept sleep
              (λ u. settled fine log (heard fine hd first) (record u { lib = rests u.lib }))
              w in
          let w' = settled fine log (heard fine hd cs) (record v { lib = took v.lib }) in
          if unbroken fine hd cs then done tcl_ok w' else lib_error env command a w')
  unfolding process_handle process_work
  process_handle-heard command sleep h rests took first cs w e e' paired reported₀ reported sleeps
        serves =
      worked sleep
    where
      held : (v : World D) → lookup a v.heap ≡ some hd → handle_of a v ≡ done h v
      held v l = rw (l, handle_of) (rw (e', handle_of) refl)

      finish :
          (v : World D)
          → lookup a v.heap ≡ some hd
          → bind (handle_of a v) (process_work env command a) ≡ (
              let w' = settled fine log (heard fine hd cs) (record v { lib = took v.lib }) in
              if unbroken fine hd cs then done tcl_ok w' else lib_error env command a w')
      finish v l =
          rw (held v l, process_work)
            (rw (serves (deliver env a) v, process_work)
              (rw
                (
                  serve_all-settled cs (record v { lib = took v.lib }) paired reported l,
                  process_work,
                )
                (elim (Bool-cases (unbroken fine hd cs)) [
                  | inl good ↦ rw good refl
                  | inr bad ↦ rw bad refl
                ])))

      worked :
          (sleep : Bool)
          → process_handle env command sleep a w ≡ (
              let v =
                slept sleep
                  (λ u. settled fine log (heard fine hd first) (record u { lib = rests u.lib }))
                  w in
              let w' = settled fine log (heard fine hd cs) (record v { lib = took v.lib }) in
              if unbroken fine hd cs then done tcl_ok w' else lib_error env command a w')
      worked true =
          rw (held w e, process_handle)
            (rw (sleeps (deliver env a) w, process_handle)
              (rw
                (
                  serve_all-settled first (record w { lib = rests w.lib }) paired reported₀ e,
                  process_handle,
                )
                (finish _ (
                  ap (λ heap. lookup a heap)
                    (settled-heap (heard fine hd first) (record w { lib = rests w.lib }))
                  ∙ e))))
      worked false = rw (held w e, process_handle) (finish w e)
