-- ===== src/Registering.antt =====
-- generic/dtrace.c, Go: what registering a callback does to the handle and to the reference counts.
pub mod Sequence
use tcldtrace.Prelude.{ℕ, ◌<◌, ◌≡◌, refl, ◌≢◌, some, arith, lookup, insert, lt→ltb}
use tcldtrace.State.{Obj, HandleData, World, done, store, bump}
use tcldtrace.Api.{Env}
use tcldtrace.Commands.Open.{callbacks_count}
use tcldtrace.Commands.Tracing.{register_callback, update}

-- The structure with one callback registered, and the state with that structure and the references
-- that the two entries take.
unfoldable pub with_callback : HandleData → ℕ → Obj → Obj → HandleData
with_callback hd k proc extra = record hd {
  callbacks = update hd.callbacks k proc;
  args = update hd.args k extra;
}

unfoldable pub registered : {D : Type 0} → ℕ → HandleData → ℕ → Obj → Obj → World D → World D
unfolding with_callback
registered a hd k proc extra w = record w {
  heap = insert a (with_callback hd k proc extra) w.heap;
  refs = bump (bump w.refs proc.ident) extra.ident;
}

module _ {D : Type 0} (env : Env D) where
  -- On a live structure, a known callback is entered with its argument, each of the two objects is
  -- counted once more, and the other entries stay. An object that stood in the entry before, and is
  -- neither of the two, keeps its count.
  pub register_callback-registered :
      (a k : ℕ) (proc extra : Obj) (hd : HandleData) (w : World D)
      → k < callbacks_count
      → lookup a w.heap ≡ some hd
      → (register_callback env a k proc extra w ≡ done tt (registered a hd k proc extra w))
        × ((with_callback hd k proc extra).callbacks k ≡ some proc)
        × ((with_callback hd k proc extra).args k ≡ some extra)
        × ((j : ℕ) → k ≢ j → (with_callback hd k proc extra).callbacks j ≡ hd.callbacks j)
        × ((o : Obj)
            → hd.callbacks k ≡ some o
            → o.ident ≢ proc.ident
            → o.ident ≢ extra.ident
            → (registered a hd k proc extra w).refs o.ident ≡ w.refs o.ident)
  unfolding register_callback registered with_callback
  register_callback-registered a k proc extra hd w known e = (
    rw (lt→ltb k callbacks_count known, register_callback)
        (rw (e, register_callback) (rw (e, store) refl)),
    ground arith,
    ground arith,
    (λ j ne. ground arith),
    (λ o old np ne. ground arith),
  )
