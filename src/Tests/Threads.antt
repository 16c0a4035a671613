-- ===== src/Tests/Threads.antt =====
-- The theorems about threads at a run in which a second thread waits for the first.
use tcldtrace.Prelude.{refl, [], ◌∷◌, some, none, arith}
use tcldtrace.Threads.{
  idle, locked, numbered, loaded, stored, served, Shared, put, lock, read, load, store, unlock,
  return, Runs, begin, move,
}
use tcldtrace.Threads.Exclusion.{Distinct, Runs-Distinct}
use tcldtrace.Threads.Progress.{IsFreed, Runs-IsFreed}

-- The first thread is through, the second holds the mutex.
abbrev second_inside : Shared
second_inside = record {
  next = 2;
  owner = some 1;
  pc =
      put
        (put
          (put
            (put
              (put (put (put (put (λ i. idle) 0 locked) 0 (numbered 1)) 0 (loaded 1 1)) 0
                (stored 1))
              0 (served 1))
            1 locked)
          1 (numbered 2))
        0 idle;
  issued = 1 ∷ [];
}

second_Runs : Runs second_inside
second_Runs =
    move
      (move
        (move
          (move
            (move (move (move (move begin (lock 0 refl refl)) (read 0 refl)) (load 0 1 refl))
              (store 0 1 1 refl (omega arith)))
            (unlock 0 1 refl))
          (lock 1 refl refl))
        (read 1 refl))
      (return 0 1 refl)

-- Both are through.
abbrev both_served : Shared
both_served = record second_inside {
  next = 3;
  owner = none;
  pc = put (put (put second_inside.pc 1 (loaded 2 2)) 1 (stored 2)) 1 (served 2);
  issued = 2 ∷ 1 ∷ [];
}

Runs-Distinct_example : Distinct (2 ∷ 1 ∷ [])
Runs-Distinct_example = Runs-Distinct both_served (
    move (move (move second_Runs (load 1 2 refl)) (store 1 2 2 refl (omega arith)))
      (unlock 1 2 refl))

Runs-IsFreed_example : IsFreed second_inside
Runs-IsFreed_example = Runs-IsFreed second_inside second_Runs (omega arith)
