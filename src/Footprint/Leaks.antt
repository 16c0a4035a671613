-- ===== src/Footprint/Leaks.antt =====
-- Close of generic/dtrace.c, and every command that runs no scripts: each open libdtrace handle keeps
-- one owner.
use tcldtrace.Prelude.{
  ℕ, zero, suc, ◌≡◌, refl, inl, inr, ◌↔◌, Bool, true, false, none, some, List, arith, lookup,
  insert, erase, lookup-insert_self, lookup-insert, lookup-erase, Option-cases, subst,
}
use tcldtrace.State.{Obj, HandleData, World, store}
use tcldtrace.Api.{Env}
use tcldtrace.Helpers.Registry.{del_hd}
use tcldtrace.Commands.Open.{close, close_handle, release_callbacks, callbacks_count}
use tcldtrace.Commands.Dispatch.{Command, run_command}
use tcldtrace.Lifecycle.Init.{fresh_world}
use tcldtrace.Misuse.Unknown.{Table, looks_in}
use tcldtrace.Safety.Steps.{calls_back}
use tcldtrace.Footprint.{IsHeld, Ok, Ok-bind}
use tcldtrace.Footprint.Subjects.{handle_command-Ok, all_Ok}
use tcldtrace.Footprint.Touching.{Touched, declined, worked, is_local, run_command-Ok}
use tcldtrace.Footprint.Owners.{OpenLaws, OwnedIn, Owns, same-Owned, Acts-Owned}
use tcldtrace.Footprint.Entries.{removed-Owned}
use tcldtrace.Footprint.Opening.{del_hd-Owned, open_command-Owned}

module _ {D : Type 0} (env : Env D) where
  -- The loop of Close changes nothing but the reference counts.
  release_callbacks-refs :
      (a i rounds : ℕ) (w : World D)
      → Ok
          (λ _ v. (refs : ℕ → ℕ) × (v ≡ record w { refs = refs }))
          (release_callbacks env a i rounds w)
  unfolding release_callbacks
  release_callbacks-refs a i zero w = (w.refs, refl)
  release_callbacks-refs a i (suc rounds) w = elim (Option-cases (lookup a w.heap)) [
    | inl gone ↦ rw (gone, release_callbacks) tt
    | inr (hd, l) ↦
        rw (l, release_callbacks)
          (elim (Option-cases (hd.callbacks i)) [
            | inl free ↦ rw (free, release_callbacks) (release_callbacks-refs a (suc i) rounds w)
            | inr (proc, s) ↦
                rw (s, release_callbacks)
                  (elim (Option-cases (hd.args i)) [
                    | inl bare ↦ rw (bare, release_callbacks) tt
                    | inr (extra, s') ↦
                        rw (s', release_callbacks) (release_callbacks-refs a (suc i) rounds _)
                  ])
          ])
  ]

module _ {D : Type 0} (live : ℕ → D → Bool) where
  -- A libdtrace handle is open exactly if some live structure has it, every live structure has one, and
  -- no two have the same.
  abbrev pub IsOwner : World D → Type 0
  IsOwner w =
      ((h : ℕ) → (live h w.lib ≡ true) ↔ ((a : ℕ) × Owns w.heap a h))
      × ((a : ℕ) (hd : HandleData) → lookup a w.heap ≡ some hd → (h : ℕ) × Owns w.heap a h)
      × ((a b h : ℕ) → Owns w.heap a h → Owns w.heap b h → a ≡ b)

  pub OwnedIn-IsOwner : (w : World D) → OwnedIn live w → IsOwner w
  OwnedIn-IsOwner w o = (
    λ h. (o.found h, λ (a, (hd, l, e)). up a h hd l e),
    (λ a hd l. let (h, e, up) = o.backed a hd l in (h, (hd, l, e))),
    o.sole,
  )
    where
      up :
          (a h : ℕ) (hd : HandleData)
          → lookup a w.heap ≡ some hd
          → hd.handle ≡ some h
          → live h w.lib ≡ true
      up a h hd l e =
          let (k, e', there) = o.backed a hd l in
          let same : k ≡ h = cc in subst (λ n. live n w.lib ≡ true) same there

module _ {D : Type 0} (env : Env D) (live : ℕ → D → Bool) (laws : OpenLaws env live) where
  close_handle-Owned :
      (a h : ℕ) (w : World D)
      → IsHeld a h w
      → OwnedIn live w
      → Ok (λ _. OwnedIn live) (close_handle env a w)
  unfolding close_handle
  close_handle-Owned a h w (hd, l, e) o =
      let new : HandleData = record hd { handle = none } in
      let w' : World D = record w { lib = env.dtrace_close h w.lib; heap = insert a new w.heap } in
      rw (l, close_handle)
        (rw (e, close_handle)
          (rw (l, close_handle)
            (rw (l, store)
              (Ok-bind (λ _ v. (refs : ℕ → ℕ) × (v ≡ record w' { refs = refs })) (λ _. OwnedIn live)
                (release_callbacks env a 0 callbacks_count w') _
                (release_callbacks-refs env a 0 callbacks_count w')
                λ _ v (refs, is). rw is (
                  Ok-bind (λ _. OwnedIn live) (λ _. OwnedIn live)
                    (del_hd a (record w' { refs = refs })) _
                    (del_hd-Owned live a new (record w' { refs = refs })
                      (lookup-insert_self a new w.heap) (o.named a)
                      (same-Owned live (erase a w.handles) (erase a w.handles) (erase a w.heap)
                        (erase a (insert a new w.heap)) w'.lib w.next_free_id w.next_free_id
                        (λ k b there. there)
                        (λ b. ground (
                          arith,
                          lookup-erase a b (insert a new w.heap),
                          lookup-insert a b new w.heap,
                          lookup-erase a b w.heap,
                        ))
                        (omega arith)
                        (removed-Owned live w.handles a h w.heap w.lib w'.lib w.next_free_id
                          (λ k. laws.closing h k w.lib) (hd, l, e) o)))
                    λ _ u q. q)))))

  Touched-Owned :
      (t : Table) (objv : List Obj) (w v : World D)
      → Touched env t objv w v
      → OwnedIn live w
      → OwnedIn live v
  Touched-Owned t objv w v (declined result error_code) o = o
  Touched-Owned t objv w v (worked a h named held acts) o =
      Acts-Owned live env laws a h w v held acts o

  close-Owned :
      (objv : List Obj) (w : World D)
      → OwnedIn live w
      → Ok (λ _. OwnedIn live) (run_command env Command.closes objv w)
  unfolding run_command close
  close-Owned objv w o =
      handle_command-Ok env objv w (OwnedIn live) (λ result error_code. o) _ _
        (λ _. close_handle env) (λ name a h named held. close_handle-Owned a h w held o)

  open-Owned :
      (objv : List Obj) (w : World D)
      → OwnedIn live w
      → Ok (λ _. OwnedIn live) (run_command env Command.opens objv w)
  unfolding run_command
  open-Owned objv w o = open_command-Owned env live laws objv w o

  local-Owned :
      (command : Command) (objv : List Obj) (w : World D)
      → is_local command ≡ true
      → OwnedIn live w
      → Ok (λ _. OwnedIn live) (run_command env command objv w)
  local-Owned command objv w l o =
      all_Ok env (run_command env command objv w)
        (λ v t. Touched-Owned (looks_in command) objv w v t o) (run_command-Ok env command objv w l)

  pub quiet-Owned :
      (command : Command) (objv : List Obj) (w : World D)
      → calls_back command ≡ false
      → OwnedIn live w
      → Ok (λ _. OwnedIn live) (run_command env command objv w)
  quiet-Owned Command.opens objv w q o = open-Owned objv w o
  quiet-Owned Command.closes objv w q o = close-Owned objv w o
  quiet-Owned Command.processes objv w q o = absurd (cc)
  quiet-Owned Command.lists objv w q o = absurd (cc)
  quiet-Owned Command.aggregates objv w q o = absurd (cc)
  quiet-Owned Command.configures objv w q o = local-Owned Command.configures objv w refl o
  quiet-Owned Command.compiles objv w q o = local-Owned Command.compiles objv w refl o
  quiet-Owned Command.execs objv w q o = local-Owned Command.execs objv w refl o
  quiet-Owned Command.infos objv w q o = local-Owned Command.infos objv w refl o
  quiet-Owned Command.goes objv w q o = local-Owned Command.goes objv w refl o
  quiet-Owned Command.stops objv w q o = local-Owned Command.stops objv w refl o
  quiet-Owned Command.grabs objv w q o = local-Owned Command.grabs objv w refl o
  quiet-Owned Command.launches objv w q o = local-Owned Command.launches objv w refl o

  -- Where libdtrace has no handle open, the extension has none either.
  pub fresh_world-Owned : (d : D) → ((k : ℕ) → live k d ≡ false) → OwnedIn live (fresh_world d)
  unfolding lookup
  fresh_world-Owned d idle = record {
    backed = λ a hd l. absurd (cc);
    found = λ h up. let down = idle h in absurd (cc);
    sole = λ a b h (hd, l, e) x. absurd (cc);
    named = λ k a l. absurd (cc);
    given = λ a hd l. absurd (cc);
  }
