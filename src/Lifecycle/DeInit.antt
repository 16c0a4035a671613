-- ===== src/Lifecycle/DeInit.antt =====
-- generic/dtrace.c: Dtrace_DeInit and onDestroy. The memory of the two hash tables is not part of
-- the state, so what a second run of the cleanup meets in it is left out.
use tcldtrace.Prelude.{[], ◌∷◌, ℕ, Dict, erase}
use tcldtrace.State.{M, done, bind, ◌>>=◌, ◌>>◌, load, deref, modify}
use tcldtrace.Api.{Env, lib_update}
use tcldtrace.Lifecycle.Init.{Cleanup, on_destroy, exit_handler}

module _ {D : Type 0} where
  -- `ckfree` of a `handle_data`
  unfoldable pub free_hd : ℕ → M D (Unit {0})
  free_hd a = do hd ← load a; modify (λ w. record w { heap = erase a w.heap })

module _ {D : Type 0} (env : Env D) where
  -- The first loop: the structure is freed, and then asked for its vector of processes.
  unfoldable pub close_handles : Dict ℕ → M D (Unit {0})
  unfolding free_hd
  close_handles [] w = done tt w
  close_handles ((id, a) ∷ rest) w = bind (load a w) λ hd. do
    h ← deref hd.handle
    lib_update (env.dtrace_close h)
    free_hd a
    freed ← load a
    close_handles rest

  -- `Dtrace_DeInit` of tables that stand: both loops, each followed by the end of its table.
  unfoldable pub dtrace_deinit : M D (Unit {0})
  unfolding close_handles
  dtrace_deinit w =
      bind (close_handles w.handles w) λ _ w'. done tt (record w' { handles = []; programs = [] })

  -- `onDestroy` hands its data on; the exit handler is `Dtrace_DeInit` itself.
  unfoldable pub cleanup : Cleanup → M D (Unit {0})
  unfolding dtrace_deinit
  cleanup on_destroy = dtrace_deinit
  cleanup exit_handler = dtrace_deinit
