-- ===== src/Footprint/Independence.antt =====
-- A command of generic/dtrace.c on one handle leaves the others alone.
use tcldtrace.Prelude.{
  ℕ, ◌≡◌, ◌≢◌, refl, Bool, true, List, arith, lookup, lookup-insert, ◌∙◌, subst,
}
use tcldtrace.State.{Obj, Value, World, Code, done}
use tcldtrace.Api.{Env}
use tcldtrace.Commands.Dispatch.{Command, run_command}
use tcldtrace.Misuse.Unknown.{Table, looks_in}
use tcldtrace.Scripts.{reset, Script, nested}
use tcldtrace.Footprint.{LibCall, Acts, at_rest, calls, writes, registers, counts, says}
use tcldtrace.Footprint.Subjects.{IsSubject}
use tcldtrace.Footprint.Touching.{Touched, declined, worked, is_local, run_command-Touched}
use tcldtrace.Footprint.Owners.{OpenLaws, OwnedIn, Owns}
use tcldtrace.Footprint.Serving.{CallingLaws}
use tcldtrace.Footprint.Scripted.{Session}
use tcldtrace.Footprint.Nesting.{nested-OwnedIn}

module _ {D : Type 0} (env : Env D) where
  -- Something of libdtrace's state that only calls through one handle change.
  abbrev pub IsAbout : {A : Type 0} → ℕ → (D → A) → Type 0
  IsAbout k sees = (h : ℕ) (d d' : D) → h ≢ k → LibCall env h d d' → sees d' ≡ sees d

  Acts-heap :
      (a h b : ℕ) (w v : World D) → a ≢ b → Acts env a h w v → lookup b v.heap ≡ lookup b w.heap
  Acts-heap a h b w v other at_rest = refl
  Acts-heap a h b w v other (calls t c) = Acts-heap a h b w _ other t
  Acts-heap a h b w v' other (writes {v = v} hd t e) =
      ground (arith, lookup-insert a b hd v.heap, Acts-heap a h b w v other t)
  Acts-heap a h b w v other (registers compiled t) = Acts-heap a h b w _ other t
  Acts-heap a h b w v other (counts refs t) = Acts-heap a h b w _ other t
  Acts-heap a h b w v other (says result error_code t) = Acts-heap a h b w _ other t

  Acts-sees :
      {A : Type 0} (sees : D → A) (a h k : ℕ) (w v : World D)
      → IsAbout k sees
      → h ≢ k
      → Acts env a h w v
      → sees v.lib ≡ sees w.lib
  Acts-sees sees a h k w v about other at_rest = refl
  Acts-sees sees a h k w v' about other (calls {v = v} {d = d} t c) =
      about h v.lib d other c ∙ Acts-sees sees a h k w v about other t
  Acts-sees sees a h k w v about other (writes hd t e) = Acts-sees sees a h k w _ about other t
  Acts-sees sees a h k w v about other (registers compiled t) =
      Acts-sees sees a h k w _ about other t
  Acts-sees sees a h k w v about other (counts refs t) = Acts-sees sees a h k w _ about other t
  Acts-sees sees a h k w v about other (says result error_code t) =
      Acts-sees sees a h k w _ about other t

  -- A command that neither opens nor closes, on another structure than the one with the handle.
  owned-independent :
      {A : Type 0} (live : ℕ → D → Bool) (sees : D → A) (t : Table) (objv : List Obj) (b k : ℕ)
      (w v : World D)
      → OwnedIn live w
      → Touched env t objv w v
      → Owns w.heap b k
      → ((a : ℕ) → IsSubject env t objv w a → a ≢ b)
      → IsAbout k sees
      → (lookup b v.heap ≡ lookup b w.heap) × (sees v.lib ≡ sees w.lib)
  owned-independent live sees t objv b k w v o (declined result error_code) own other about =
      (refl, refl)
  owned-independent live sees t objv b k w v o (worked a h named held acts) own other about =
      let elsewhere : a ≢ b = other a named in
      (
        Acts-heap a h b w v elsewhere acts,
        Acts-sees sees a h k w v about
            (λ same. elsewhere (o.sole a b k (subst (λ n. Owns w.heap a n) same held) own)) acts,
      )

module _ {D : Type 0} (env : Env D) (live : ℕ → D → Bool) (procs : List Value → Script D)
    (opens : OpenLaws env live) (laws : CallingLaws env live) where
  -- Where libdtrace opens and closes handles as documented, after any commands, whose callbacks evaluate
  -- scripts that nest to whatever depth: a command that neither opens nor closes a handle nor runs
  -- scripts, and that returns, leaves every structure as it is but the one that its word names, and
  -- leaves what only the calls through the handle of such a structure change in libdtrace.
  pub nested-independent :
      {A : Type 0} (depth : ℕ) (sees : D → A) (command : Command) (objv : List Obj) (code : Code)
      (b k : ℕ) (w v : World D)
      → Session (nested depth procs env) live w
      → is_local command ≡ true
      → run_command (nested depth procs env) command objv (reset w) ≡ done code v
      → Owns w.heap b k
      → ((a : ℕ) → IsSubject (nested depth procs env) (looks_in command) objv (reset w) a → a ≢ b)
      → IsAbout (nested depth procs env) k sees
      → (lookup b v.heap ≡ lookup b w.heap) × (sees v.lib ≡ sees w.lib)
  nested-independent depth sees command objv code b k w v s local e own other about =
      owned-independent (nested depth procs env) live sees (looks_in command) objv b k (reset w) v
        (nested-OwnedIn env live procs opens laws depth w s)
        (run_command-Touched (nested depth procs env) command objv code (reset w) v local e) own
        other about
