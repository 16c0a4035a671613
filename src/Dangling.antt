-- ===== src/Dangling.antt =====
-- generic/dtrace.c, CallbackEval: what becomes of a callback whose script closes its own handle.
use tcldtrace.Prelude.{ℕ, ◌≡◌, refl, false, none, List, [], ◌∷◌, Bytes, pos, arith, lookup}
use tcldtrace.State.{Obj, Value, parsed, World, Out, done, panic, fault, bind, pure}
use tcldtrace.Api.{Env, Reply}
use tcldtrace.Helpers.Registry.{get_hd, find_by, find_entry}
use tcldtrace.Helpers.Checks.{objc_check}
use tcldtrace.Callbacks.{callback_eval, callback_result, interp_of}
use tcldtrace.Commands.Open.{close, close_handle}
use tcldtrace.Commands.Dispatch.{Command, run_command}
use tcldtrace.Safety.Scope.{Scope}
use tcldtrace.Safety.Held.{incr_refs-occurs, decr_refs-occurs}
use tcldtrace.Safety.Invariant.{Good, reframe}
use tcldtrace.Sessions.{Returns, handle_check-open, close_handle-lookup}

Returns-done :
    {D A : Type 0} (Q : A → World D → Type 0) (m : Out D A)
    → Returns Q m
    → (a : A) × (w : World D) × (m ≡ done a w) × Q a w
Returns-done Q (done a w) q = (a, w, refl, q)
Returns-done Q (panic m) q = absurd q
Returns-done Q fault q = absurd q

module _ {D : Type 0} (env : Env D) where
  -- The command Close on an open handle is the function behind its checks.
  run_command-close_handle :
      (name handle : Obj) (s : Scope) (a : ℕ) (w : World D)
      → env.get_int handle ≡ parsed (pos a)
      → Good s a w
      → run_command env Command.closes (name ∷ handle ∷ []) w ≡ close_handle env a w
  unfolding run_command close objc_check get_hd find_by find_entry
  run_command-close_handle name handle s a w e (inv, (hd, h, l, l')) =
      rw e (
        rw ((inv.owned a hd l).0) (handle_check-open env name.str (close_handle env) a h hd w l l'))

  gone_result :
      (a : ℕ) (cbname : Bytes) (errcode go_on : Reply) (w : World D)
      → lookup a w.heap ≡ none
      → callback_result env a cbname errcode go_on false w ≡ fault
  unfolding callback_result interp_of
  gone_result a cbname errcode go_on w e = rw (e, interp_of) refl

  -- On an open handle, where the script of a callback closes that handle and then fails, CallbackEval
  -- goes on to read the structure that is freed.
  pub callback_eval-fault :
      (s : Scope) (a : ℕ) (objv : List Value) (cbname : Bytes) (errcode go_on : Reply)
      (name handle : Obj) (w : World D)
      → env.get_int handle ≡ parsed (pos a)
      → ((v : World D)
          → env.eval_objv objv v
            ≡ bind (run_command env Command.closes (name ∷ handle ∷ []) v) (λ _. pure false))
      → Good s a w
      → callback_eval env a objv cbname errcode go_on w ≡ fault
  unfolding callback_eval interp_of
  callback_eval-fault s a objv cbname errcode go_on name handle w e script (inv, (hd, h, l, l')) =
      let (up, r, c) = incr_refs-occurs objv w in
      let held : World D = record w { refs = up } in
      let bare : Scope = record s { owed = λ n. 0 } in
      let good : Good bare a held =
        (reframe s bare (λ f. f) (λ n k. omega (arith, c n, k)) inv, (hd, h, l, l')) in
      let (code, w', closes, q) =
        Returns-done _ (close_handle env a held) (close_handle-lookup env bare a held good) in
      let (down, r', c') = decr_refs-occurs objv w' in
      rw (l, interp_of)
        (rw (inv.ready a h hd (λ n. cc) l l', interp_of)
          (rw r (
            rw (script held) (
              rw (run_command-close_handle name handle bare a held e good) (
                rw closes
                  (rw r' (gone_result a cbname errcode go_on (record w' { refs = down }) q.2)))))))
