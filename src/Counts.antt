-- ===== src/Counts.antt =====
-- The macro CallbackEval of generic/dtrace.c: the references that it takes on the words of its call.
use tcldtrace.Prelude.{refl, ℕ, ◌≡◌, Bool, true, false, some, List, Bytes, arith, lookup}
use tcldtrace.State.{Value, HandleData, World, done}
use tcldtrace.Api.{Env, Reply}
use tcldtrace.Callbacks.{interp_of, background_error, callback_result, callback_eval}
use tcldtrace.Safety.Held.{incr_refs-occurs, decr_refs-occurs}
use tcldtrace.Sessions.{Returns}

pub interp_of-done :
    {D : Type 0} (a : ℕ) (hd : HandleData) (w : World D)
    → lookup a w.heap ≡ some hd
    → hd.interp ≡ true
    → interp_of a w ≡ done tt w
unfolding interp_of
interp_of-done a hd w e i = rw (e) (rw (i) refl)

module _ {D : Type 0} (env : Env D) where
  -- A script that returns, leaves the reference counts as they were when it began, and leaves the
  -- structure live and with its interpreter.
  pub record IsNeutral (a : ℕ) (objv : List Value) (v : World D) : Type 0 where
    pub code : Bool
    pub after : World D
    pub returns : env.eval_objv objv v ≡ done code after
    pub counts : (n : ℕ) → after.refs n ≡ v.refs n
    pub hd : HandleData
    pub live : lookup a after.heap ≡ some hd
    pub interp : hd.interp ≡ true

  callback_result-refs :
      (a : ℕ) (cbname : Bytes) (errcode go_on : Reply) (code : Bool) (hd : HandleData) (w : World D)
      (refs : ℕ → ℕ)
      → lookup a w.heap ≡ some hd
      → hd.interp ≡ true
      → ((n : ℕ) → w.refs n ≡ refs n)
      → Returns
          (λ _ w'. (n : ℕ) → w'.refs n ≡ refs n)
          (callback_result env a cbname errcode go_on code w)
  unfolding callback_result background_error
  callback_result-refs a cbname errcode go_on true hd w refs e i c = c
  callback_result-refs a cbname errcode go_on false hd w refs e i c =
      rw (interp_of-done a hd w e i) c

  -- On a live structure with its interpreter, and where the script leaves the counts and the structure
  -- as described, CallbackEval returns, whether the script succeeds or fails, and every reference
  -- count is what it was before.
  pub callback_eval-refs :
      (a : ℕ) (objv : List Value) (cbname : Bytes) (errcode go_on : Reply) (hd : HandleData)
      (w : World D)
      → lookup a w.heap ≡ some hd
      → hd.interp ≡ true
      → ((refs : ℕ → ℕ) → IsNeutral a objv (record w { refs = refs }))
      → Returns
          (λ _ w'. (n : ℕ) → w'.refs n ≡ w.refs n)
          (callback_eval env a objv cbname errcode go_on w)
  unfolding callback_eval
  callback_eval-refs a objv cbname errcode go_on hd w e i script =
      let (up, r, c) = incr_refs-occurs objv w in
      let s = script up in
      let (down, r', c') = decr_refs-occurs objv s.after in
      rw (interp_of-done a hd w e i) (
        rw (r) (
          rw (s.returns) (
            rw (r') (
              callback_result-refs a cbname errcode go_on s.code s.hd
                (record s.after { refs = down }) w.refs s.live s.interp
                (λ n. omega (arith, c n, c' n, s.counts n))))))
