-- ===== src/Safety/Closing.antt =====
-- The command Close keeps the invariant, and leaves nothing of its handle.
use tcldtrace.Prelude.{ℕ, ◌≡◌, none, some, arith, lookup, insert, lookup-insert_self}
use tcldtrace.State.{Code, tcl_ok, HandleData, World, store}
use tcldtrace.Api.{Env}
use tcldtrace.Helpers.Registry.{del_hd}
use tcldtrace.Commands.Open.{close_handle, callbacks_count}
use tcldtrace.Safety.Scope.{Scope, View, view, dropped}
use tcldtrace.Safety.Held.{total-erase, release_callbacks-held}
use tcldtrace.Safety.Invariant.{Post, carry, Good, store-Tables}
use tcldtrace.Safety.Registry.{Under, After, del_hd-Inv}

module _ {D : Type 0} (env : Env D) (s : Scope) (a : ℕ) (G : Code → View → Type 0)
    (drops : (v : View) → s.frame v → lookup a v.handles ≡ some a → G tcl_ok (dropped a v)) where
  pub close_handle-After : (w : World D) → Good s a w → Post s (After s G) (close_handle env a w)
  unfolding close_handle
  close_handle-After w (inv, (hd, h, e, e')) =
      let (own, wf) = inv.owned a hd e in
      let new : HandleData = record hd { handle = none } in
      let w₁ : World D = record w { lib = env.dtrace_close h w.lib; heap = insert a new w.heap } in
      let there = lookup-insert_self a new w.heap in
      let t =
        store-Tables a hd new w.refs inv e
          (record {
            count_le = wf.count_le;
            cells = wf.cells;
            written = wf.written;
            slots = wf.slots;
          })
          (λ h' ex l. absurd (cc)) (λ n. omega arith) in
      let (refs, r, c) = release_callbacks-held env a new 0 callbacks_count w₁ there wf.slots in
      rw (e, close_handle)
        (rw (e', close_handle)
          (rw (e, close_handle)
            (rw (e, store)
              (rw (r, close_handle)
                (carry s (Under s (G tcl_ok)) (After s G) (del_hd a (record w₁ { refs = refs })) _
                  (del_hd-Inv s (G tcl_ok) none a w.refs (record w₁ { refs = refs }) t
                    (λ b same. absurd (cc)) own (drops (view w) inv.framed own)
                    (λ n.
                      omega
                        (arith, t.counted n, total-erase a new (insert a new w.heap) n there, c n)))
                  (λ _ w'' i. i))))))
