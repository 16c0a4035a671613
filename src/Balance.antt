-- ===== src/Balance.antt =====
-- The reference counts of generic/dtrace.c: what Go counts up for a callback, Close counts down.
use tcldtrace.Prelude.{
  ℕ, ◌-◌, ◌<◌, ◌≡◌, refl, inl, inr, none, some, arith, lookup, lookup-insert_self, ◌==◌, Bool-cases,
}
use tcldtrace.State.{Obj, HandleData, World, done}
use tcldtrace.Api.{Env}
use tcldtrace.Commands.Open.{callbacks_count, release_callbacks}
use tcldtrace.Commands.Tracing.{register_callback}
use tcldtrace.Safety.Held.{held, held_by, cell, held-update, release_callbacks-held}
use tcldtrace.Registering.{registered, with_callback, register_callback-registered}
use tcldtrace.Safety.Invariant.{IsWellFormed}

module _ {D : Type 0} (env : Env D) where
  -- On a live, well-formed structure, where a callback is registered in an entry that was free and
  -- the loop of Close then runs over all entries, every reference count ends where the loop would
  -- have left it without the callback: nothing of the callback is kept and nothing is lost.
  pub release_callbacks-register_callback :
      (a k : ℕ) (proc extra : Obj) (hd : HandleData) (w : World D)
      → IsWellFormed hd
      → k < callbacks_count
      → lookup a w.heap ≡ some hd
      → hd.callbacks k ≡ none
      → (w' w₁ w₂ : World D) × (register_callback env a k proc extra w ≡ done tt w')
        × (release_callbacks env a 0 callbacks_count w' ≡ done tt w₁)
        × (release_callbacks env a 0 callbacks_count w ≡ done tt w₂)
        × ((n : ℕ) → w₁.refs n ≡ w₂.refs n)
  release_callbacks-register_callback a k proc extra hd w wf known e free =
      let (refs, r, c) = release_callbacks-held env a hd 0 callbacks_count w e wf.slots in
      let (refs', r', c') =
        release_callbacks-held env a (with_callback hd k proc extra) 0 callbacks_count
          (registered a hd k proc extra w)
          (unfold registered in lookup-insert_self a (with_callback hd k proc extra) w.heap)
          (slots wf.slots) in
      (
        registered a hd k proc extra w,
        record (registered a hd k proc extra w) { refs = refs' },
        record w { refs = refs },
        (register_callback-registered env a k proc extra hd w known e).0,
        r',
        r,
        λ n. same refs refs' n (c n) (c' n),
      )
    where
      slots :
          ((j : ℕ) (o : Obj) → hd.callbacks j ≡ some o → (x : Obj) × (hd.args j ≡ some x))
          → (j : ℕ) (o : Obj) → (with_callback hd k proc extra).callbacks j ≡ some o
          → (x : Obj) × ((with_callback hd k proc extra).args j ≡ some x)
      slots old j o h =
          unfold with_callback in
          elim (Bool-cases (k == j)) [
            | inl at ↦ (extra, rw at refl)
            | inr other ↦ let (x, s) = old j o (ground arith) in (x, rw other s)
          ]

      same :
          (refs refs' : ℕ → ℕ) (n : ℕ)
          → refs n ≡ w.refs n - held_by hd n
          → refs' n
            ≡ (registered a hd k proc extra w).refs n
              - held
                  (with_callback hd k proc extra).callbacks
                  (with_callback hd k proc extra).args
                  0
                  callbacks_count
                  n
          → refs' n ≡ refs n
      same refs refs' n c c' =
          let more =
            held-update hd.callbacks hd.args k proc extra 0 callbacks_count n (omega arith)
              (omega (arith, known)) in
          let none_there : cell (hd.callbacks k) (hd.args k) n ≡ 0 = rw free refl in
          unfold registered with_callback in ground (arith, c, c', more, none_there)
