-- ===== src/Safety/Reachable.antt =====
-- All commands together: what is reachable by calls from the start of the process.
use tcldtrace.Prelude.{ℕ, ◌+◌, ◌≤◌, ◌<◌, ◌≡◌, refl, false, none, some, List, arith, lookup, subst}
use tcldtrace.State.{Value, Obj, Code, HandleData, World, Out, done, panic, fault}
use tcldtrace.Api.{Env}
use tcldtrace.Commands.Open.{callbacks_count}
use tcldtrace.Commands.Dispatch.{Command, run_command}
use tcldtrace.Lifecycle.Init.{fresh_world}
use tcldtrace.Sessions.{Returns}
use tcldtrace.Safety.Commands.{IsNamed}
use tcldtrace.Safety.Scope.{Scope, view}
use tcldtrace.Safety.Steps.{Step, Step-frame, calls_back, IsGone, IsGone-IsClosed}
use tcldtrace.Safety.Held.{total, total-erase, hits, held_here}
use tcldtrace.Safety.Invariant.{Post, Inv, reframe}
use tcldtrace.Safety.Laws.{Laws, IsOrderly}
use tcldtrace.Safety.Nested.{any_IsCall, nested-Laws, nested-IsOrderly}
use tcldtrace.Scripts.{Script, nested, reset}
use tcldtrace.Safety.Running.{IsCall}
use tcldtrace.Safety.Stepping.{since, Anything, Stepped, run_command-Stepped}

-- The invariant where a panic or something undefined may end the process, nothing is assumed of the
-- tables, and nothing is owed to others.
abbrev pub open_scope : Scope
open_scope = since Unit (λ n. 0) Anything

-- The same where both are excluded.
abbrev pub quiet_scope : Scope
quiet_scope = since ⊥ (λ n. 0) Anything

module _ {D A : Type 0} (s : Scope) (Q : A → World D → Type 0) where
  Post-done : (m : Out D A) (a : A) (w : World D) → Post s Q m → m ≡ done a w → Q a w
  Post-done m a w p e = subst (Post s Q) e p

  Post-Returns :
      (R : A → World D → Type 0)
      → (s.panics → ⊥)
      → ((a : A) (w : World D) → Q a w → R a w)
      → (m : Out D A) → Post s Q m
      → Returns R m
  Post-Returns R n k (done a w) p = k a w p
  Post-Returns R n k (panic m) p = n p
  Post-Returns R n k fault p = n p

pub fresh_world-Inv : {D : Type 0} (d : D) → Inv open_scope (fresh_world d)
unfolding lookup total
fresh_world-Inv d = record {
  named = λ k a e. absurd (cc);
  owned = λ a hd e. absurd (cc);
  attached = λ k pd e. absurd (cc);
  ready = λ a h hd ex e l. absurd (cc);
  fresh_id = λ k h. refl;
  fresh_pid = λ k h. refl;
  framed = tt;
  counted = λ n. omega arith;
}

-- The states between the commands of a script, from the loading of the extension on.
pub data Reach {D : Type 0} (env : Env D) : World D → Type 0 where
  start : (d : D) → Reach env (fresh_world d)
  call :
      {w w' : World D} (command : Command) (objv : List Obj) (code : Code)
      → Reach env w
      → run_command env command objv (reset w) ≡ done code w'
      → Reach env w'

module _ {D : Type 0} (env : Env D) (laws : Laws env) (orderly : IsOrderly env) where
  pub call-Step :
      (w w' : World D) (command : Command) (objv : List Obj) (code : Code)
      → Inv open_scope w
      → run_command env command objv (reset w) ≡ done code w'
      → Inv open_scope w' × Step (IsNamed env objv) (view w) command code (view w')
  call-Step w w' command objv code inv e =
      Post-done open_scope
        (Stepped env laws orderly Unit (λ n. 0) (IsNamed env objv) (view w) command)
        (run_command env command objv (reset w)) code w'
        (run_command-Stepped env laws orderly Unit (λ n. 0) command objv (reset w) (λ _. tt)
          (any_IsCall tt objv (reset w)) inv)
        e

  reached : (w : World D) → Reach env w → Inv open_scope w
  reached w (start d) = fresh_world-Inv d
  reached w' (call {w = w} command objv code r e) =
      (call-Step w w' command objv code (reached w r) e).0

  -- The words are a call, without conditions.
  returns :
      (w : World D) (command : Command) (objv : List Obj)
      → calls_back command ≡ false
      → Inv open_scope w
      → IsCall ⊥ objv (reset w)
      → Returns
          (λ code w'. Step (IsNamed env objv) (view w) command code (view w'))
          (run_command env command objv (reset w))
  returns w command objv quiet inv c =
      Post-Returns quiet_scope
        (Stepped env laws orderly ⊥ (λ n. 0) (IsNamed env objv) (view w) command)
        (λ code w'. Step (IsNamed env objv) (view w) command code (view w')) (λ x. x)
        (λ code w' q. q.1) (run_command env command objv (reset w))
        (run_command-Stepped env laws orderly ⊥ (λ n. 0) command objv (reset w) (λ loud. cc) c
          (reframe open_scope quiet_scope (λ f. f) (λ n k. k) inv))

-- The states that later commands lead to.
pub data Later {D : Type 0} (env : Env D) (w : World D) : World D → Type 0 where
  now : Later env w w
  after :
      {v v' : World D} (command : Command) (objv : List Obj) (code : Code)
      → Later env w v
      → run_command env command objv (reset v) ≡ done code v'
      → Later env w v'

Later-Reach : {D : Type 0} (env : Env D) (w v : World D) → Reach env w → Later env w v → Reach env v
Later-Reach env w v r now = r
Later-Reach env w v' r (after command objv code l e) =
    call command objv code (Later-Reach env w _ r l) e

module _ {D : Type 0} (env : Env D) (procs : List Value → Script D) (laws : Laws env)
    (depth : ℕ) where
  -- Where libdtrace reaches the state only by calling back, and the callbacks evaluate scripts that call
  -- whatever commands and nest to whatever depth, the invariant holds after any calls of commands that
  -- return, with whatever words: the two tables and the heap agree, every structure is well-formed, and
  -- no object has fewer references than the entries of the handles hold.
  pub Reach-Inv : (w : World D) → Reach (nested depth procs env) w → Inv open_scope w
  Reach-Inv w r =
      reached (nested depth procs env) (nested-Laws env procs laws depth)
        (nested-IsOrderly env procs laws depth) w r

  -- Where libdtrace reaches the state only by calling back, and the callbacks evaluate scripts that nest
  -- to whatever depth: after any calls of commands, a callback that a live structure has registered
  -- comes with its argument, and on both the extension holds a reference that it has not given back.
  pub Reach-held :
      (w : World D) (a k : ℕ) (hd : HandleData) (proc : Obj)
      → Reach (nested depth procs env) w
      → lookup a w.heap ≡ some hd
      → k < callbacks_count
      → hd.callbacks k ≡ some proc
      → (1 ≤ w.refs proc.ident)
        × ((extra : Obj) × (hd.args k ≡ some extra) × (1 ≤ w.refs extra.ident))
  Reach-held w a k hd proc r e below s =
      let inv = Reach-Inv w r in
      let (extra, s') = (inv.owned a hd e).1.slots k proc s in
      let holds : (n : ℕ) → hits proc n + hits extra n ≤ w.refs n = λ n. omega (
        arith,
        inv.counted n,
        total-erase a hd w.heap n e,
        held_here hd.callbacks hd.args k proc extra 0 callbacks_count n (omega arith)
            (omega (arith, below)) s s',
      ) in
      (ground (arith, holds proc.ident), (extra, s', ground (arith, holds extra.ident)))

  -- Where libdtrace reaches the state only by calling back, and the callbacks evaluate scripts that nest
  -- to whatever depth: a command that is called after any others, with whatever words, and that returns
  -- has made a step of the abstract machine on the tables, one that its completion code
  -- allows; a Close or a Compile that succeeds is about the handle whose number
  -- the word after its name is.
  pub run_command-Step :
      (w w' : World D) (command : Command) (objv : List Obj) (code : Code)
      → Reach (nested depth procs env) w
      → run_command (nested depth procs env) command objv (reset w) ≡ done code w'
      → Step (IsNamed (nested depth procs env) objv) (view w) command code (view w')
  run_command-Step w w' command objv code r e =
      (call-Step (nested depth procs env) (nested-Laws env procs laws depth)
        (nested-IsOrderly env procs laws depth) w w' command objv code (Reach-Inv w r) e).1

  -- Where libdtrace reaches the state only by calling back, and the callbacks evaluate scripts that nest
  -- to whatever depth: every command but process, list and aggregations, called after any others, with
  -- its name and words that are not empty and while the two counters have not run out, returns: it
  -- neither panics nor does anything undefined. It has then made a step of the abstract machine.
  pub run_command-Returns :
      (w : World D) (command : Command) (objv : List Obj)
      → calls_back command ≡ false
      → Reach (nested depth procs env) w
      → IsCall ⊥ objv w
      → Returns
          (λ code w'. Step (IsNamed (nested depth procs env) objv) (view w) command code (view w'))
          (run_command (nested depth procs env) command objv (reset w))
  run_command-Returns w command objv quiet r c =
      returns (nested depth procs env) (nested-Laws env procs laws depth)
        (nested-IsOrderly env procs laws depth) w command objv quiet (Reach-Inv w r)
        (record { named = c.named; filled = c.filled; id_room = c.id_room; pid_room = c.pid_room })

  -- Where libdtrace reaches the state only by calling back, and the callbacks evaluate scripts that nest
  -- to whatever depth: a number that was given out and finds no handle any more finds none after any
  -- later calls of commands. Numbers are not used again.
  pub Later-absent :
      (w v : World D) (k : ℕ)
      → Reach (nested depth procs env) w
      → k < w.next_free_id
      → lookup k w.handles ≡ none
      → Later (nested depth procs env) w v
      → lookup k v.handles ≡ none
  Later-absent w v k r given absent l = (gone v l).absent
    where
      gone : (u : World D) → Later (nested depth procs env) w u → IsGone k (view u)
      gone u now = record { given = given; absent = absent }
      gone u' (after {v = u} command objv code l e) =
          Step-frame (IsGone k) (IsGone-IsClosed k) (gone u l) command code (view u') (
            run_command-Step u u' command objv code (Later-Reach (nested depth procs env) w u r l)
              e)
