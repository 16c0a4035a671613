-- ===== src/Notices/Delivery.antt =====
-- generic/dtrace.c, chew to prochandler: one event.
use tcldtrace.Prelude.{
  ℕ, ◌≡◌, refl, inl, inr, Bool, true, none, some, List, ◌∷◌, arith, lookup, Bool-cases,
  Option-cases, fun_ext, ◌∙◌,
}
use tcldtrace.State.{Obj, Value, given, HandleData, World, Out, done}
use tcldtrace.Api.{Env, Call, Reply}
use tcldtrace.Callbacks.{
  callback_eval, callback_result, background_error, chew, chewrec, bufhandler, buf_or_agg,
  drophandler, errhandler, prochandler, deliver, cb_probe_desc, cb_probe_output, cb_drop, cb_error,
  cb_proc,
}
use tcldtrace.Safety.Held.{incr_refs-occurs, decr_refs-occurs}
use tcldtrace.Counts.{interp_of-done}
use tcldtrace.Notices.{
  callback_of, name_of, facts, going, failing, IsReported, IsPaired, registered_at, IsScripted, ran,
  noticed,
}

module _ {D : Type 0} (env : Env D) (fine : List Value → Bool) (log : List Value → D → D)
    (scripted : IsScripted fine log env) (a : ℕ) (hd : HandleData) (interp : hd.interp ≡ true) where
  callback_eval-ran :
      (c : Call) (objv : List Value) (w : World D)
      → lookup a w.heap ≡ some hd
      → callback_eval env a objv (name_of c) (failing c) (going c) w ≡ ran fine log c objv w
  unfolding callback_eval callback_result background_error
  callback_eval-ran c objv w e =
      let (up, r, n) = incr_refs-occurs objv w in
      let after : World D = record w { refs = up; lib = log objv w.lib } in
      let (down, r', n') = decr_refs-occurs objv after in
      let same : down ≡ w.refs = fun_ext (λ k. omega (arith, n k, n' k)) in
      rw (interp_of-done a hd w e interp) (
        rw r (
          rw (scripted objv (record w { refs = up })) (
            rw r' (
              rw same (elim (Bool-cases (fine objv)) [
                | inl good ↦ rw (good, ran) refl
                | inr bad ↦
                    rw (bad, ran)
                      (rw (interp_of-done a hd (record w { lib = log objv w.lib }) e interp) refl)
              ])))))

  -- What a function comes to, by what is registered for its event.
  by_slot :
      (c : Call) (k : ℕ) (m : Out D Reply) (w : World D)
      → IsPaired hd
      → callback_of c ≡ some k
      → lookup a w.heap ≡ some hd
      → (hd.callbacks k ≡ none → m ≡ done (going c) w)
      → ((proc extra : Obj)
          → hd.callbacks k ≡ some proc
          → hd.args k ≡ some extra
          → m
            ≡ callback_eval env a
                (given proc ∷ facts hd (given extra) c)
                (name_of c)
                (failing c)
                (going c)
                w)
      → m ≡ noticed fine log hd c w
  by_slot c k m w paired at e free taken = elim (Option-cases (hd.callbacks k)) [
    | inl f ↦
        let unregistered : registered_at hd (callback_of c) ≡ none =
          rw (at, registered_at) (rw (f, registered_at) refl) in
        rw (unregistered, noticed) (free f)
    | inr (proc, s) ↦
        let (extra, s') = paired k proc s in
        let registered : registered_at hd (callback_of c) ≡ some (proc, extra) =
          rw (at, registered_at) (rw (s, registered_at) (rw (s', registered_at) refl)) in
        rw (registered, noticed)
          (taken proc extra s s' ∙ callback_eval-ran c (given proc ∷ facts hd (given extra) c) w e)
  ]

  -- A callback that is registered is called, and one that is not is passed over.
  pub deliver-noticed :
      (c : Call) (w : World D)
      → IsPaired hd
      → IsReported c
      → lookup a w.heap ≡ some hd
      → deliver env a c w ≡ noticed fine log hd c w
  unfolding deliver chew chewrec bufhandler buf_or_agg drophandler errhandler prochandler
  deliver-noticed (Call.probe p) w paired reported e =
      by_slot (Call.probe p) cb_probe_desc (chew env a p w) w paired refl e
        (λ f. rw (e, chew) (rw (f, chew) refl))
        (λ proc extra s s'. rw (e, chew) (rw (s, chew) (rw (s', chew) refl)))
  deliver-noticed (Call.record_of p) w paired reported e = refl
  deliver-noticed (Call.buffered b) w paired (plain, (k, action)) e =
      rw (plain, buf_or_agg)
        (by_slot (Call.buffered b) cb_probe_output (bufhandler env a b w) w paired refl e
          (λ f. rw (e, bufhandler) (rw (f, bufhandler) refl))
          (λ proc extra s s'.
            rw (e, bufhandler)
              (rw (s, bufhandler) (rw (s', bufhandler) (rw (action, bufhandler) refl)))))
  deliver-noticed (Call.dropped d) w paired reported e =
      by_slot (Call.dropped d) cb_drop (drophandler env a d w) w paired refl e
        (λ f. rw (e, drophandler) (rw (f, drophandler) refl))
        (λ proc extra s s'. rw (e, drophandler) (rw (s, drophandler) (rw (s', drophandler) refl)))
  deliver-noticed (Call.erred d) w paired reported e =
      by_slot (Call.erred d) cb_error (errhandler env a d w) w paired refl e
        (λ f. rw (e, errhandler) (rw (f, errhandler) refl))
        (λ proc extra s s'. rw (e, errhandler) (rw (s, errhandler) (rw (s', errhandler) refl)))
  deliver-noticed (Call.process pid message) w paired reported e =
      by_slot (Call.process pid message) cb_proc (prochandler env a pid message w) w paired refl e
        (λ f. rw (e, prochandler) (rw (f, prochandler) refl))
        (λ proc extra s s'. rw (e, prochandler) (rw (s, prochandler) (rw (s', prochandler) refl)))
