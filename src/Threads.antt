-- ===== src/Threads.antt =====
-- generic/dtrace.c, new_hd and register_pd: the counters are common to all threads, and each function
-- takes its number under a mutex. The threads' steps in any order.
pub mod Exclusion
pub mod Progress
use tcldtrace.Prelude.{
  ℕ, ◌+◌, ◌≤◌, ◌<◌, ◌≡◌, refl, ◌≢◌, inl, inr, Bool, true, false, Option, none, some, List, [], ◌∷◌,
  arith, ◌==◌, if◌then◌else◌, Bool-cases, Option-cases, sym, subst, ap, ◌∙◌,
}
use tcldtrace.Helpers.Registry.{int_max}

-- Where a thread stands between the lock and the unlock: `*id` read, and for the increment the counter
-- loaded once more, then stored.
pub data Pc : Type 0 where
  idle locked : Pc
  numbered : ℕ → Pc
  loaded : ℕ → ℕ → Pc
  stored : ℕ → Pc
  served : ℕ → Pc

-- The counter, the owner of the mutex, every thread, and, for the statements below, the numbers that
-- threads went on with, the latest first.
pub record Shared : Type 0 where
  pub next : ℕ
  pub owner : Option ℕ
  pub pc : ℕ → Pc
  pub issued : List ℕ

abbrev pub put : (ℕ → Pc) → ℕ → Pc → ℕ → Pc
put f i p j = if i == j then p else f j

-- Between the lock and the unlock.
abbrev pub IsInside : Pc → Type 0
IsInside idle = ⊥
IsInside locked = Unit
IsInside (numbered id) = Unit
IsInside (loaded id n) = Unit
IsInside (stored id) = Unit
IsInside (served id) = ⊥

-- One step of a thread. `Tcl_MutexLock` waits until the mutex is free; a counter at `int_max` is not
-- increased.
pub data Move (s : Shared) : Shared → Type 0 where
  lock :
      (i : ℕ)
      → s.owner ≡ none
      → s.pc i ≡ idle
      → Move s (record s { owner = some i; pc = put s.pc i locked })
  read : (i : ℕ) → s.pc i ≡ locked → Move s (record s { pc = put s.pc i (numbered s.next) })
  load :
      (i id : ℕ) → s.pc i ≡ numbered id → Move s (record s { pc = put s.pc i (loaded id s.next) })
  store :
      (i id n : ℕ)
      → s.pc i ≡ loaded id n
      → n < int_max
      → Move s (record s { next = n + 1; pc = put s.pc i (stored id) })
  unlock :
      (i id : ℕ)
      → s.pc i ≡ stored id
      → Move s (record s { owner = none; pc = put s.pc i (served id); issued = id ∷ s.issued })
  return : (i id : ℕ) → s.pc i ≡ served id → Move s (record s { pc = put s.pc i idle })

abbrev pub initial : Shared
initial = record { next = 1; owner = none; pc = λ i. idle; issued = [] }

pub data Runs : Shared → Type 0 where
  begin : Runs initial
  move : {s t : Shared} → Runs s → Move s t → Runs t
