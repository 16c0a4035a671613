-- ===== src/Sessions.antt =====
-- Identifiers, from their creation to the end of their handle: new_hd, register_pd, Close of
-- generic/dtrace.c.
use tcldtrace.Prelude.{
  ℕ, ◌<◌, ◌≡◌, refl, ◌≢◌, Bytes, none, some, [], ◌∷◌, ◌++◌, pos, arith, lookup, insert,
  lookup-insert, lookup-insert_self, lookup-erase, lookup-erase_self, lt→ltb, text,
}
use tcldtrace.State.{
  Obj, str, parsed, Code, tcl_ok, tcl_error, M, HandleData, World, Out, done, panic, fault, store,
}
use tcldtrace.Api.{Env}
use tcldtrace.Helpers.Registry.{
  new_hd, del_hd, register_pd, get_hd, get_pd, find_by, find_entry, int_max,
}
use tcldtrace.Helpers.Checks.{objc_check, handle_check, fail_with, error_class}
use tcldtrace.Commands.Open.{close_handle, close, callbacks_count}
use tcldtrace.Safety.Scope.{Scope}
use tcldtrace.Safety.Held.{release_callbacks-held}
use tcldtrace.Safety.Invariant.{Inv, Good}
use tcldtrace.Safety.Registry.{free_programs_all}

-- A computation that returns, and what then holds: neither a panic nor a fault.
abbrev pub Returns : {D A : Type 0} → (A → World D → Type 0) → Out D A → Type 0
Returns Q (done a w) = Q a w
Returns Q (panic m) = ⊥
Returns Q fault = ⊥

module _ {D : Type 0} (env : Env D) where
  -- The macro handleCheck lets an open handle pass.
  pub handle_check-open :
      (command : Bytes) (rest : ℕ → M D Code) (a h : ℕ) (hd : HandleData) (w : World D)
      → lookup a w.heap ≡ some hd
      → hd.handle ≡ some h
      → handle_check env command (some a) rest w ≡ rest a w
  unfolding handle_check
  handle_check-open command rest a h hd w l l' = rw (l, handle_check) (rw (l', handle_check) refl)

module _ {D : Type 0} (env : Env D) (s : Scope) where
  -- Under the invariant and with a counter that has not run out, new_hd returns. Its number was in
  -- no use and lies below the next one; the new handle is found under it, every other number finds
  -- what it found before, and the programs are untouched.
  pub new_hd-get_hd :
      (w : World D)
      → Inv s w
      → w.next_free_id < int_max
      → Returns
          (λ id w'.
            (lookup id w.handles ≡ none)
            × (id < w'.next_free_id)
            × ((o : Obj) → env.get_int o ≡ parsed (pos id) → get_hd env o w' ≡ done (some id) w')
            × ((j : ℕ) → j ≢ id → lookup j w'.handles ≡ lookup j w.handles)
            × (w'.programs ≡ w.programs))
          (new_hd w)
  unfolding new_hd get_hd find_by find_entry
  new_hd-get_hd w inv room =
      let new = inv.fresh_id w.next_free_id (omega arith) in
      rw (lt→ltb w.next_free_id int_max room, new)
        (
          new,
          omega arith,
          (λ o e. rw e (rw (lookup-insert_self w.next_free_id w.next_free_id w.handles) refl)),
          (λ j ne. ground (arith, lookup-insert w.next_free_id j w.next_free_id w.handles)),
          refl,
        )

  -- Under the invariant and with a counter that has not run out, register_pd returns. The program
  -- is found under its number, with the handle it was compiled for, every other number finds what
  -- it found before, and the handles are untouched.
  register_pd-get_pd :
      (a compiled : ℕ) (w : World D)
      → Inv s w
      → w.next_free_pid < int_max
      → Returns
          (λ id w'.
            ((o : Obj)
              → env.get_int o ≡ parsed (pos id)
              → get_pd env o w' ≡ done (some (record { compiled = compiled; hd = a })) w')
            × ((j : ℕ) → j ≢ id → lookup j w'.programs ≡ lookup j w.programs)
            × (w'.handles ≡ w.handles))
          (register_pd a compiled w)
  unfolding register_pd get_pd find_by find_entry
  register_pd-get_pd a compiled w inv room =
      rw (lt→ltb w.next_free_pid int_max room, inv.fresh_pid w.next_free_pid (omega arith))
        (
          (λ o e. rw e (
              rw
                (lookup-insert_self w.next_free_pid (record { compiled = compiled; hd = a })
                  w.programs)
                refl)),
          (λ j ne. ground (
            arith,
            lookup-insert w.next_free_pid j (record { compiled = compiled; hd = a }) w.programs,
          )),
          refl,
        )

module _ {D : Type 0} where
  -- Deleting a handle whose structure is live returns. It takes the entry and the structure, leaves
  -- every other handle, and takes all the programs there are, also those of other handles.
  del_hd-lookup :
      (id : ℕ) (hd : HandleData) (w : World D)
      → lookup id w.handles ≡ some id
      → lookup id w.heap ≡ some hd
      → Returns
          (λ _ w'.
            (lookup id w'.handles ≡ none)
            × (lookup id w'.heap ≡ none)
            × ((j : ℕ) → j ≢ id → lookup j w'.handles ≡ lookup j w.handles)
            × ((k : ℕ) → lookup k w'.programs ≡ none))
          (del_hd id w)
  unfolding del_hd
  del_hd-lookup id hd w e l =
      rw (e, del_hd)
        (rw (l, del_hd)
          (
            lookup-erase_self id w.handles,
            lookup-erase_self id w.heap,
            (λ j ne. ground (arith, lookup-erase id j w.handles)),
            (λ k. rw (free_programs_all w.programs) (unfold lookup in refl)),
          ))

module _ {D : Type 0} (env : Env D) (s : Scope) where
  -- Under the invariant, an open handle is closed without fail. Its number then finds nothing and its
  -- structure is freed, every other number finds what it found before, and no program is left.
  pub close_handle-lookup :
      (a : ℕ) (w : World D)
      → Good s a w
      → Returns
          (λ code w'.
            (code ≡ tcl_ok)
            × (lookup a w'.handles ≡ none)
            × (lookup a w'.heap ≡ none)
            × ((j : ℕ) → j ≢ a → lookup j w'.handles ≡ lookup j w.handles)
            × ((k : ℕ) → lookup k w'.programs ≡ none))
          (close_handle env a w)
  unfolding close_handle del_hd
  close_handle-lookup a w (inv, (hd, h, e, e')) =
      let (named, wf) = inv.owned a hd e in
      let new : HandleData = record hd { handle = none } in
      let (refs, r, _) =
        release_callbacks-held env a new 0 callbacks_count
          (record w { lib = env.dtrace_close h w.lib; heap = insert a new w.heap })
          (lookup-insert_self a new w.heap) wf.slots in
      rw (e, close_handle)
        (rw (e', close_handle)
          (rw (e, close_handle)
            (rw (e, store)
              (rw (r, close_handle)
                (rw (named, del_hd)
                  (rw (lookup-insert_self a new w.heap, del_hd)
                    (
                      refl,
                      lookup-erase_self a w.handles,
                      lookup-erase_self a (insert a new w.heap),
                      (λ j ne. ground (arith, lookup-erase a j w.handles)),
                      (λ k. rw (free_programs_all w.programs) (unfold lookup in refl)),
                    )))))))

  -- Close of a number that finds no handle fails with the code of a bad handle, appends a message
  -- that names the command to the result, and changes nothing else.
  close-missing :
      (command handle : Obj) (n : ℕ) (w : World D)
      → env.get_int handle ≡ parsed (pos n)
      → lookup n w.handles ≡ none
      → close env (command ∷ handle ∷ []) w
        ≡ done tcl_error (record w {
          result = str (env.get_string w.result ++ (command.str ++ text " bad handle"));
          error_code = error_class (text "HANDLE");
        })
  unfolding close objc_check get_hd find_by find_entry handle_check fail_with
  close-missing command handle n w e missing = rw (e, close) (rw (missing, handle_check) refl)
