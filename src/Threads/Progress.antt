-- ===== src/Threads/Progress.antt =====
-- The mutex of new_hd and register_pd in generic/dtrace.c is always given back.
use tcldtrace.Prelude.{ℕ, ◌+◌, ◌<◌, ◌≡◌, refl, inl, inr, none, ◌∷◌, arith, Option-cases, subst}
use tcldtrace.Helpers.Registry.{int_max}
use tcldtrace.Threads.{
  Pc, idle, locked, numbered, loaded, stored, served, Shared, put, Move, read, load, store, unlock,
  Runs, IsInside,
}
use tcldtrace.Threads.Exclusion.{Fits, Runs-Inv}

-- Some steps, one after another.
pub data Steps (s : Shared) : Shared → Type 0 where
  none_yet : Steps s s
  one_more : {t u : Shared} → Steps s t → Move t u → Steps s u

abbrev pub IsFreed : Shared → Type 0
IsFreed s = (t : Shared) × Steps s t × (t.owner ≡ none)

here_put : (f : ℕ → Pc) (i : ℕ) (p : Pc) → put f i p i ≡ p
here_put f i p = ground arith

IsFreed-stored : (s t : Shared) (i id : ℕ) → Steps s t → t.pc i ≡ stored id → IsFreed s
IsFreed-stored s t i id path e = (
  record { next = t.next; owner = none; pc = put t.pc i (served id); issued = id ∷ t.issued },
  one_more path (unlock i id e),
  refl,
)

IsFreed-loaded :
    (s t : Shared) (i id n : ℕ) → Steps s t → t.pc i ≡ loaded id n → n < int_max → IsFreed s
IsFreed-loaded s t i id n path e room =
    IsFreed-stored s (record t { next = n + 1; pc = put t.pc i (stored id) }) i id
      (one_more path (store i id n e room)) (here_put t.pc i (stored id))

IsFreed-numbered :
    (s t : Shared) (i id : ℕ) → Steps s t → t.pc i ≡ numbered id → t.next < int_max → IsFreed s
IsFreed-numbered s t i id path e room =
    IsFreed-loaded s (record t { pc = put t.pc i (loaded id t.next) }) i id t.next
      (one_more path (load i id e)) (here_put t.pc i (loaded id t.next)) room

IsFreed-locked : (s t : Shared) (i : ℕ) → Steps s t → t.pc i ≡ locked → t.next < int_max → IsFreed s
IsFreed-locked s t i path e room =
    IsFreed-numbered s (record t { pc = put t.pc i (numbered t.next) }) i t.next
      (one_more path (read i e)) (here_put t.pc i (numbered t.next)) room

-- From every state that the threads reach with a counter that has not run out, some further steps
-- lead to a state in which the mutex is free: its owner is never stuck between lock and unlock.
pub Runs-IsFreed : (s : Shared) → Runs s → s.next < int_max → IsFreed s
Runs-IsFreed s r room = elim (Option-cases s.owner) [
  | inl free ↦ (s, none_yet, free)
  | inr (i, own) ↦ at_place (s.pc i) refl ((Runs-Inv s r).owned i own) ((Runs-Inv s r).fits i)
]
  where
    at_place :
        {i : ℕ} (p : Pc)
        → s.pc i ≡ p
        → IsInside (s.pc i)
        → Fits (s.pc i) s.next s.issued
        → IsFreed s
    at_place {i = i} idle e inside fit = absurd (subst IsInside e inside)
    at_place {i = i} locked e inside fit = IsFreed-locked s s i none_yet e room
    at_place {i = i} (numbered id) e inside fit = IsFreed-numbered s s i id none_yet e room
    at_place {i = i} (loaded id n) e inside fit =
        let (_, was, _) : Fits (loaded id n) s.next s.issued =
          subst (λ q. Fits q s.next s.issued) e fit in
        IsFreed-loaded s s i id n none_yet e (omega (arith, was))
    at_place {i = i} (stored id) e inside fit = IsFreed-stored s s i id none_yet e
    at_place {i = i} (served id) e inside fit = absurd (subst IsInside e inside)
