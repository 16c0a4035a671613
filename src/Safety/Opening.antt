-- ===== src/Safety/Opening.antt =====
-- The commands Open and Close keep the invariant.
use tcldtrace.Prelude.{
  ◌∷◌, [], ℕ, ◌-◌, ◌%◌, ◌≤◌, ◌≡◌, refl, inl, inr, Bool, true, ◌&&◌, Option, none, some, List, Bytes,
  arith, lookup, insert, lookup-insert, ltb, ◌==◌, Bool-cases, text, length, drop, get_elem?_below,
  ap, sym,
}
use tcldtrace.State.{Obj, Parsed-cases, Code, tcl_ok, tcl_error, HandleData, World, M, store}
use tcldtrace.Api.{Env, Opened, opened, failed}
use tcldtrace.Helpers.Registry.{new_hd, del_hd, int_max}
use tcldtrace.Helpers.Checks.{fail_with}
use tcldtrace.Commands.Open.{
  set_options, open_throw, set_defaults, establish, open_done, open_handlers, options_result,
  open_options, open_result, open_handle, open_command,
}
use tcldtrace.Safety.Scope.{Scope, View, view, added, dropped}
use tcldtrace.Safety.Held.{total-erase_le}
use tcldtrace.Safety.Invariant.{Post, carry, Post-bind, Inv, InvBut, store-Tables}
use tcldtrace.Safety.Registry.{Named, Under, After, weaken, new_hd-Inv, del_hd-Inv}
use tcldtrace.Safety.Options.{GoodBut, AllFilled, drop-AllFilled, set_options-Good}

module _ {D : Type 0} (env : Env D) (s : Scope) (G : Code → View → Type 0) where
  -- While `Open` works on a structure, the tables are as they are to be if it succeeds, and without
  -- that structure as they are to be if it fails.
  abbrev at : ℕ → Scope
  at id = record s { frame = λ v. G tcl_ok v × G tcl_error (dropped id v) }

  -- The state of `Open` between `dtrace_open` and the end.
  abbrev Opening : ℕ → World D → Type 0
  Opening id = GoodBut (at id) (some id) id

  open_throw-Inv :
      (command : Bytes) (id : ℕ) (code message : Bytes) (w : World D)
      → Opening id w
      → Post s (After s G) (open_throw env command id code message w)
  unfolding open_throw fail_with
  open_throw-Inv command id code message w (inv, (hd, h, e, e')) =
      rw (e, open_throw)
        (rw (e', open_throw)
          (carry s (Under s (G tcl_error)) (After s G) (del_hd id _) _
            (del_hd-Inv (at id) (G tcl_error) (some id) id w.refs _ inv (λ b same. cc)
              (inv.owned id hd e).0 inv.framed.1
              (λ n. omega (arith, inv.counted n, total-erase_le id w.heap n)))
            (λ _ w' i. i)))

  set_defaults-Opening :
      (id : ℕ) (w : World D) → Opening id w → Post s (λ _. Opening id) (set_defaults env id w)
  unfolding set_defaults
  set_defaults-Opening id w (inv, (hd, h, e, e')) =
      rw (e, set_defaults)
        (rw (e', set_defaults)
          (elim (Bool-cases (env.dtrace_setopt h (text "bufsize") (text "4m") w.lib).0) [
            | inl good ↦ rw (good, set_defaults) (inv, (hd, h, e, e'))
            | inr bad ↦ rw (bad, set_defaults) (inv, (hd, h, e, e'))
          ]))

  establish-Inv :
      (command : Bytes) (id : ℕ) (register : ℕ → ℕ → D → Bool × D) (message : Bytes)
      (rest : M D Code)
      → ((w : World D) → Opening id w → Post s (After s G) (rest w))
      → (w : World D) → Opening id w
      → Post s (After s G) (establish env command id register message rest w)
  unfolding establish
  establish-Inv command id register message rest k w (inv, (hd, h, e, e')) =
      rw (e, establish)
        (rw (e', establish)
          (elim (Bool-cases (register h id w.lib).0) [
            | inl good ↦ rw (good, establish) (k _ (inv, (hd, h, e, e')))
            | inr bad ↦
                rw (bad, establish)
                  (open_throw-Inv command id (text "LIB") message _ (inv, (hd, h, e, e')))
          ]))

  -- With its interpreter stored the structure is like any other.
  finish-Tables :
      (id : ℕ) (hd : HandleData) (w : World D)
      → InvBut (at id) id w
      → lookup id w.heap ≡ some hd
      → Inv (at id) (record w { heap = insert id (record hd { interp = true }) w.heap })
  finish-Tables id hd w inv e =
      let wf = (inv.owned id hd e).1 in
      let new : HandleData = record hd { interp = true } in
      let t =
        store-Tables id hd new w.refs inv e
          (record {
            count_le = wf.count_le;
            cells = wf.cells;
            written = wf.written;
            slots = wf.slots;
          })
          (λ h' ex l. refl) (λ n. omega arith) in
      record {
        named = t.named;
        owned = t.owned;
        attached = t.attached;
        ready = λ b h hd' ex l l'. elim (Bool-cases (id == b)) [
          | inl same ↦
              let is : new ≡ hd' = ground (arith, lookup-insert id b new w.heap) in
              sym (ap (λ x. x.interp) is)
          | inr other ↦ t.ready b h hd' (λ s. ground arith) l l'
        ];
        fresh_id = t.fresh_id;
        fresh_pid = t.fresh_pid;
        framed = t.framed;
        counted = t.counted;
      }

  open_done-Inv : (id : ℕ) (w : World D) → Opening id w → Post s (After s G) (open_done env id w)
  unfolding open_done
  open_done-Inv id w (inv, (hd, h, e, e')) =
      rw (e, open_done)
        (rw (e, store)
          (weaken (at id) (G tcl_ok)
            (record w { heap = insert id (record hd { interp = true }) w.heap }) (λ f. f.0)
            (finish-Tables id hd w inv e)))

  open_handlers-Inv :
      (command : Bytes) (id : ℕ) (w : World D)
      → Opening id w
      → Post s (After s G) (open_handlers env command id w)
  unfolding open_handlers
  open_handlers-Inv command id =
      establish-Inv command id env.dtrace_handle_err (text " failed to establish error handler") _ (
        establish-Inv command id env.dtrace_handle_drop (text " failed to establish drop handler") _
          (establish-Inv command id env.dtrace_handle_proc
            (text " failed to establish proc handler") _
            (establish-Inv command id env.dtrace_handle_buffered
              (text " failed to establish buffered handler") _ (open_done-Inv id))))

  options_result-Inv :
      (command : Bytes) (id : ℕ) (bad : Option Bytes) (w : World D)
      → Opening id w
      → Post s (After s G) (options_result env command id bad w)
  unfolding options_result
  options_result-Inv command id none w s = open_handlers-Inv command id w s
  options_result-Inv command id (some option) w s = open_throw-Inv command id _ _ w s

  open_options-Inv :
      (command : Bytes) (id : ℕ) (objv : List Obj) (w : World D)
      → AllFilled s.panics objv
      → Opening id w
      → Post s (After s G) (open_options env command id objv w)
  unfolding open_options
  open_options-Inv command id objv w filled o =
      carry s (Opening id) (After s G) (set_defaults env id w) _ (set_defaults-Opening id w o)
        λ good w₁ o₁. elim (Bool-cases good) [
          | inl done_well ↦ rw done_well (
              carry s (Opening id) (After s G) (set_options env id (drop 1 objv) w₁) _
                (set_options-Good env (at id) (some id) id (drop 1 objv) w₁
                  (drop-AllFilled s.panics 1 objv filled) o₁)
                λ bad w₂. options_result-Inv command id bad w₂)
          | inr bad ↦ rw bad (open_throw-Inv command id _ _ w₁ o₁)
        ]

  open_result-Inv :
      (command : Bytes) (id : ℕ) (objv : List Obj) (r : Opened) (w : World D)
      → AllFilled s.panics objv
      → InvBut (at id) id w
      → Named s id w
      → Post s (After s G) (open_result env command id objv r w)
  unfolding open_result fail_with
  open_result-Inv command id objv (failed error) w filled inv (hd, e, n) =
      carry s (Under s (G tcl_error)) (After s G) (del_hd id w) _
        (del_hd-Inv (at id) (G tcl_error) (some id) id w.refs w inv (λ b same. cc) n inv.framed.1
          (λ k. omega (arith, inv.counted k, total-erase_le id w.heap k)))
        (λ _ w' i. i)
  open_result-Inv command id objv (opened h) w filled inv (hd, e, n) =
      let wf = (inv.owned id hd e).1 in
      let new : HandleData = record hd { handle = some h } in
      let t =
        store-Tables id hd new w.refs inv e
          (record {
            count_le = wf.count_le;
            cells = wf.cells;
            written = wf.written;
            slots = wf.slots;
          })
          (λ h' ex l. absurd (ex refl)) (λ n. omega arith) in
      rw (e, open_result)
        (rw (e, store)
          (open_options-Inv command id objv _ filled
            (t, (new, h, ground (arith, lookup-insert id id new w.heap), refl))))

  module _ (sub : (v : View) → s.frame v → G tcl_error v)
      (adds : (v : View)
        → s.frame v
        → lookup v.next_id v.handles ≡ none
        → G tcl_ok (added v) × G tcl_error (dropped v.next_id (added v))) where
    open_handle-Inv :
        (command : Bytes) (flags : ℕ) (objv : List Obj) (w : World D)
        → AllFilled s.panics objv
        → (int_max ≤ w.next_free_id → s.panics)
        → Inv s w
        → Post s (After s G) (open_handle env command flags objv w)
    unfolding open_handle
    open_handle-Inv command flags objv w filled room inv =
        Post-bind s _ _ (new_hd w) _
          (new_hd-Inv s (λ id v. G tcl_ok v × G tcl_error (dropped id v)) w (adds (view w)) inv
            room)
          λ id w' o.
            open_result-Inv command id objv (env.dtrace_open flags w'.lib).0 _ filled o.0 o.1

    -- The command `Open`.
    pub open_command-Inv :
        (objv : List Obj) (w : World D)
        → (length objv ≡ 0 → s.panics)
        → AllFilled s.panics objv
        → (int_max ≤ w.next_free_id → s.panics)
        → Inv s w
        → Post s (After s G) (open_command env objv w)
    unfolding open_command fail_with
    open_command-Inv [] w long filled room inv = long refl
    open_command-Inv (name ∷ words) w long filled room inv =
        let objv : List Obj = name ∷ words in
        let (l, f') = get_elem?_below (length objv - 1) objv (omega arith) in
        (elim (Bool-cases (ltb 1 (length objv) && length objv % 2 == 0)) [
          | inr plain ↦ rw (plain, open_command) (open_handle-Inv name.str 0 objv w filled room inv)
          | inl flagged ↦
              rw (flagged, open_command)
                (rw (f', open_command)
                  (elim (Parsed-cases (env.get_boolean l)) [
                    | inl (m, bad) ↦
                        rw (bad, open_command) (weaken s (G tcl_error) w (sub (view w)) inv)
                    | inr (b, good) ↦
                        rw (good, open_command) (open_handle-Inv name.str _ objv w filled room inv)
                  ]))
        ])
