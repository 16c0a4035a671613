-- ===== src/Interps.antt =====
-- generic/dtrace.h, next_free_id and next_free_pid: the counters are common to all interpreters of the
-- process, the tables are each interpreter's own. Commands in several interpreters, one after another.
use tcldtrace.Prelude.{
  ℕ, ◌≤◌, ◌<◌, ◌≡◌, refl, ◌⊎◌, inl, inr, false, none, some, List, arith, lookup, lookup-insert,
  lookup-erase, ◌==◌, leb, if◌then◌else◌, Bool-cases, subst, sym,
}
use tcldtrace.State.{Value, Obj, Code, World, done}
use tcldtrace.Api.{Env}
use tcldtrace.Commands.Dispatch.{Command, run_command}
use tcldtrace.Lifecycle.Init.{fresh_world}
use tcldtrace.Safety.Scope.{View, view, IsClosed}
use tcldtrace.Safety.Steps.{Step-frame}
use tcldtrace.Safety.Invariant.{Inv}
use tcldtrace.Safety.Laws.{Laws, IsOrderly}
use tcldtrace.Safety.Nested.{nested-Laws, nested-IsOrderly}
use tcldtrace.Scripts.{Script, nested, reset}
use tcldtrace.Safety.Reachable.{open_scope, fresh_world-Inv, call-Step}

-- The process: the counters, libdtrace, and the interpreters, by number, with the extension loaded. The
-- counters and the libdtrace that an interpreter's state holds are those that it last saw.
pub record Process (D : Type 0) : Type 0 where
  pub next_id : ℕ
  pub next_pid : ℕ
  pub lib : D
  pub interps : ℕ → World D

module _ {D : Type 0} where
  -- What a command in an interpreter works on, and what it leaves.
  abbrev pub enter : Process D → ℕ → World D
  enter p i = record (p.interps i) {
    next_free_id = p.next_id;
    next_free_pid = p.next_pid;
    lib = p.lib;
  }

  abbrev pub leave : Process D → ℕ → World D → Process D
  leave p i w = record {
    next_id = w.next_free_id;
    next_pid = w.next_free_pid;
    lib = w.lib;
    interps = λ j. if i == j then w else p.interps j;
  }

  abbrev pub launched : D → Process D
  launched d = record { next_id = 1; next_pid = 1; lib = d; interps = λ i. fresh_world d }

pub data ReachAll {D : Type 0} (env : Env D) : Process D → Type 0 where
  start_all : (d : D) → ReachAll env (launched d)
  call_in :
      {p : Process D} {w : World D} (i : ℕ) (command : Command) (objv : List Obj) (code : Code)
      → ReachAll env p
      → run_command env command objv (reset (enter p i)) ≡ done code w
      → ReachAll env (leave p i w)

-- What a step keeps of the counters and of the numbers given out before it.
record Grows (r v : View) : Type 0 where
  id_le : r.next_id ≤ v.next_id
  pid_le : r.next_pid ≤ v.next_pid
  gone : (k : ℕ) → k < r.next_id → lookup k r.handles ≡ none → lookup k v.handles ≡ none

Grows-IsClosed : (r : View) → IsClosed (Grows r)
Grows-IsClosed r = record {
  adds = λ v g fresh. record {
    id_le = let h = g.id_le in omega arith;
    pid_le = g.pid_le;
    gone = λ k h e.
        let l = g.id_le in
        ground (arith, lookup-insert v.next_id k v.next_id v.handles, g.gone k h e);
  };
  drops = λ v a g e. record {
    id_le = g.id_le;
    pid_le = g.pid_le;
    gone = λ k h e. ground (arith, lookup-erase a k v.handles, g.gone k h e);
  };
  registers = λ v a program g e fresh. record {
    id_le = g.id_le;
    pid_le = let h = g.pid_le in omega arith;
    gone = g.gone;
  };
}

module _ {D : Type 0} where
  record Apart (p : Process D) : Type 0 where
    each : (i : ℕ) → Inv open_scope (enter p i)
    apart :
        (i j k : ℕ)
        → (i == j) ≡ false
        → (lookup k (p.interps i).handles ≡ none) ⊎ (lookup k (p.interps j).handles ≡ none)

  -- Larger counters do no harm to an interpreter.
  later-Inv :
      (w : World D) (id pid : ℕ) (d : D)
      → w.next_free_id ≤ id
      → w.next_free_pid ≤ pid
      → Inv open_scope w
      → Inv open_scope (record w { next_free_id = id; next_free_pid = pid; lib = d })
  later-Inv w id pid d h h' inv = record {
    named = inv.named;
    owned = inv.owned;
    attached = inv.attached;
    ready = inv.ready;
    fresh_id = λ k l. inv.fresh_id k (omega arith);
    fresh_pid = λ k l. inv.fresh_pid k (omega arith);
    framed = tt;
    counted = inv.counted;
  }

  leave-Apart :
      (p : Process D) (i : ℕ) (w : World D)
      → Apart p
      → Inv open_scope w
      → Grows (view (enter p i)) (view w)
      → Apart (leave p i w)
  leave-Apart p i w a inv g = record {
    each = λ j. elim (Bool-cases (i == j)) [
      | inl same ↦ rw same inv
      | inr other ↦
          rw other
            (later-Inv (enter p j) w.next_free_id w.next_free_pid w.lib g.id_le g.pid_le (a.each j))
    ];
    apart = λ j l k ne. elim (Bool-cases (i == j)) [
      | inl same ↦
          let at : i ≡ j = ground arith in
          let off : (i == l) ≡ false = subst (λ n. (n == l) ≡ false) (sym at) ne in
          rw same (rw off (split l k off))
      | inr other ↦ elim (Bool-cases (i == l)) [
        | inl same ↦ rw other (rw same (swap (split j k other)))
        | inr off ↦ rw other (rw off (a.apart j l k ne))
      ]
    ];
  }
    where
      swap : {A B : Type 0} → A ⊎ B → B ⊎ A
      swap (inl x) = inr x
      swap (inr y) = inl y

      split :
          (j k : ℕ)
          → (i == j) ≡ false
          → (lookup k w.handles ≡ none) ⊎ (lookup k (p.interps j).handles ≡ none)
      split j k off = elim (Bool-cases (leb p.next_id k)) [
        | inl new ↦ inr ((a.each j).fresh_id k (ground arith))
        | inr old ↦ elim (a.apart i j k off) [
          | inl here ↦ inl (g.gone k (ground arith) here)
          | inr there ↦ inr there
        ]
      ]

module _ {D : Type 0} (env : Env D) (laws : Laws env) (orderly : IsOrderly env) where
  ReachAll-Apart : (p : Process D) → ReachAll env p → Apart p
  ReachAll-Apart p (start_all d) = record {
    each = λ i. fresh_world-Inv d;
    apart = λ i j k ne. inl (unfold lookup in refl);
  }
  ReachAll-Apart p' (call_in {p = p} {w = w} i command objv code r e) =
      let a = ReachAll-Apart p r in
      let (inv, step) = call-Step env laws orderly (enter p i) w command objv code (a.each i) e in
      leave-Apart p i w a inv (
        Step-frame (Grows (view (enter p i))) (Grows-IsClosed (view (enter p i)))
          (record { id_le = omega arith; pid_le = omega arith; gone = λ k h l. l }) command code
          (view w) step)

module _ {D : Type 0} (env : Env D) (procs : List Value → Script D) (laws : Laws env)
    (depth : ℕ) where
  -- Where libdtrace reaches the state only by calling back, and the callbacks evaluate scripts that nest
  -- to whatever depth, in the interpreter of the command: whatever commands have run in whatever
  -- interpreters, a number that finds a handle in one finds none in another.
  pub ReachAll-apart :
      (p : Process D) (i j k a : ℕ)
      → ReachAll (nested depth procs env) p
      → (i == j) ≡ false
      → lookup k (p.interps i).handles ≡ some a
      → lookup k (p.interps j).handles ≡ none
  ReachAll-apart p i j k a r ne e =
      let all =
        ReachAll-Apart (nested depth procs env) (nested-Laws env procs laws depth)
          (nested-IsOrderly env procs laws depth) p r in
      elim (all.apart i j k ne) [ inl missing ↦ absurd (cc) | inr there ↦ there ]
