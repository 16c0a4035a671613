-- ===== src/Safety/Commands.antt =====
-- Every command but Open and Close keeps the invariant.
use tcldtrace.Prelude.{
  get_elem?, pos, ℕ, ◌≤◌, ◌≡◌, refl, inl, inr, Bool, true, false, none, some, List, Bytes, arith,
  lookup, Bool-cases, Option-cases, length, drop, get_elem?_below, subst,
}
use tcldtrace.State.{
  Obj, parsed, Code, tcl_ok, tcl_error, HandleData, ProgramData, World, M, ◌>>=◌, arg,
}
use tcldtrace.Api.{Env}
use tcldtrace.Helpers.Registry.{get_hd, get_pd, register_pd, int_max}
use tcldtrace.Helpers.Checks.{fail_with, objc_check, handle_check, program_check}
use tcldtrace.Commands.Programs.{strings, compile_handle, exec_program, exec_handle}
use tcldtrace.Commands.Tracing.{stop_handle}
use tcldtrace.Safety.Scope.{Scope, View, view, registered_for}
use tcldtrace.Safety.Invariant.{Post, carry, Post-bind, Inv, Good}
use tcldtrace.Safety.Registry.{
  get_hd-Inv, get_pd-Inv, handle_check-Inv, lib_error-Inv, lib_error-After, register_pd-Inv, After,
  Under, weaken,
}

abbrev Held : {D : Type 0} → World D → ℕ → Type 0
Held w a = (hd : HandleData) × (lookup a w.heap ≡ some hd)

-- The handle whose number the word after a command's name is.
abbrev pub IsNamed : {D : Type 0} → Env D → List Obj → ℕ → Type 0
IsNamed env objv a = (id : Obj) × (get_elem? objv 1 ≡ some id) × (env.get_int id ≡ parsed (pos a))

module _ {D : Type 0} (env : Env D) (s : Scope) where
  -- What the commands on a handle begin with.
  pub handle_command-Inv :
      (G : Code → View → Type 0)
      → ((v : View) → s.frame v → G tcl_error v)
      → (objv : List Obj) (usage : Bytes) (good : Bool) (rest : Bytes → ℕ → M D Code) (w : World D)
      → (good ≡ true → 2 ≤ length objv)
      → Inv s w
      → ((name : Bytes) (a : ℕ) (w' : World D)
          → good ≡ true
          → (w'.next_free_pid ≡ w.next_free_pid) × IsNamed env objv a
          → Good s a w'
          → Post s (After s G) (rest name a w'))
      → Post s (After s G) (
          objc_check env objv usage good
            (do
              name ← arg objv 0
              toid ← arg objv 1
              found ← get_hd env toid
              handle_check env name.str found (rest name.str))
            w)
  unfolding objc_check
  handle_command-Inv G sub objv usage false rest w long inv k =
      weaken s (G tcl_error) w (sub (view w)) inv
  handle_command-Inv G sub objv usage true rest w long inv k =
      let (o, e) = get_elem?_below 0 objv (let h = long refl in omega arith) in
      let (p, e') = get_elem?_below 1 objv (let h = long refl in omega arith) in
      rw (e, objc_check)
        (rw (e', objc_check)
          (Post-bind s _ _ (get_hd env p w) _ (get_hd-Inv env s p w inv) λ found w' r.
            handle_check-Inv env s G o.str found (rest o.str) w' (sub (view w')) r.0 r.1
              λ a is g. k o.str a w' refl (r.2, (p, e', r.3 a is)) g))

  -- What the commands on a program begin with.
  pub program_command-Inv :
      (G : Code → View → Type 0)
      → ((v : View) → s.frame v → G tcl_error v)
      → (objv : List Obj) (usage : Bytes) (good : Bool) (rest : Bytes → ProgramData → ℕ → M D Code)
        (w : World D)
      → (good ≡ true → 2 ≤ length objv)
      → Inv s w
      → ((name : Bytes) (pd : ProgramData) (w' : World D)
          → good ≡ true
          → (a : ℕ) → Good s a w'
          → Post s (After s G) (rest name pd a w'))
      → Post s (After s G) (
          objc_check env objv usage good
            (do
              name ← arg objv 0
              id ← arg objv 1
              found ← get_pd env id
              program_check env name.str found
                  (λ pd. handle_check env name.str (some pd.hd) (rest name.str pd)))
            w)
  unfolding objc_check program_check fail_with
  program_command-Inv G sub objv usage false rest w long inv k =
      weaken s (G tcl_error) w (sub (view w)) inv
  program_command-Inv G sub objv usage true rest w long inv k =
      let (o, e) = get_elem?_below 0 objv (let h = long refl in omega arith) in
      let (p, e') = get_elem?_below 1 objv (let h = long refl in omega arith) in
      rw (e, objc_check)
        (rw (e', objc_check)
          (Post-bind s _ _ (get_pd env p w) _ (get_pd-Inv env s p w inv) λ found w' r.
            elim (Option-cases found) [
              | inl missing ↦ rw missing (weaken s (G tcl_error) w' (sub (view w')) r.0)
              | inr (pd, f) ↦ rw f (
                  handle_check-Inv env s G o.str (some pd.hd) (rest o.str pd) w' (sub (view w')) r.0
                    (λ a same. let is : pd.hd ≡ a = cc in subst (Held w') is (r.1 pd f))
                    (λ a _. k o.str pd w' refl a))
            ]))

  pub compile_handle-After :
      (a : ℕ) (G : Code → View → Type 0)
      → ((v : View) → s.frame v → G tcl_error v)
      → ((v : View) (compiled : ℕ)
          → s.frame v
          → lookup a v.handles ≡ some a
          → lookup v.next_pid v.programs ≡ none
          → G tcl_ok (registered_for a compiled v))
      → (command : Bytes) (objv : List Obj) (w : World D) → 3 ≤ length objv
      → (int_max ≤ w.next_free_pid → s.panics)
      → Good s a w
      → Post s (After s G) (compile_handle env command objv a w)
  unfolding compile_handle
  compile_handle-After a G sub registers command objv w long room (inv, (hd, h, e, e')) =
      let (o, f) = get_elem?_below 2 objv (omega arith) in
      let own = (inv.owned a hd e).0 in
      rw (f, compile_handle)
        (rw (e, compile_handle)
          (rw (e', compile_handle)
            (elim (Option-cases
              (env.dtrace_program_strcompile h o.str (strings (drop 3 objv)) w.lib).0) [
                | inl bad ↦
                    rw (bad, compile_handle)
                      (lib_error-After env s G command a _ (sub (view w)) (inv, (hd, h, e, e')))
                | inr (p, good) ↦
                    rw (good, compile_handle)
                      (carry s (Under s (G tcl_ok)) (After s G) (register_pd a p _) _
                        (register_pd-Inv s (G tcl_ok) a p _ (λ f n. registers (view w) p f own n)
                          (inv, (hd, h, e, e')) room)
                        (λ _ w' i. i))
              ])))

  exec_program-Good :
      (exec : Bool) (a h compiled : ℕ) (w : World D)
      → Good s a w
      → Post s (λ _. Good s a) (exec_program env exec h compiled w)
  unfolding exec_program
  exec_program-Good true a h compiled w g = g
  exec_program-Good false a h compiled w g = g

  pub exec_handle-Inv :
      (exec : Bool) (command : Bytes) (pd : ProgramData) (a : ℕ) (w : World D)
      → Good s a w
      → Post s (λ _. Inv s) (exec_handle env exec command pd a w)
  unfolding exec_handle fail_with
  exec_handle-Inv exec command pd a w (inv, (hd, h, e, e')) =
      rw (e, exec_handle)
        (rw (e', exec_handle)
          (carry s (Good s a) (λ _. Inv s) (exec_program env exec h pd.compiled w) _
            (exec_program-Good exec a h pd.compiled w (inv, (hd, h, e, e')))
            λ r w' g. elim (Option-cases r) [ inl bad ↦ rw bad g.0 | inr (i, good) ↦ rw good g.0 ]))

  pub stop_handle-Inv :
      (command : Bytes) (a : ℕ) (w : World D)
      → Good s a w
      → Post s (λ _. Inv s) (stop_handle env command a w)
  unfolding stop_handle
  stop_handle-Inv command a w (inv, (hd, h, e, e')) =
      rw (e, stop_handle)
        (rw (e', stop_handle)
          (elim (Bool-cases (env.dtrace_stop h w.lib).0) [
            | inl good ↦ rw (good, stop_handle) inv
            | inr bad ↦
                rw (bad, stop_handle) (lib_error-Inv env s command a _ (inv, (hd, h, e, e')))
          ]))
