-- ===== src/Threads/Exclusion.antt =====
-- The mutex of new_hd and register_pd in generic/dtrace.c keeps the threads apart, and their numbers.
use tcldtrace.Prelude.{
  ℕ, ◌+◌, ◌≤◌, ◌<◌, ◌≡◌, refl, ◌≢◌, inl, inr, true, false, Option, none, some, List, [], ◌∷◌, arith,
  ◌==◌, Bool-cases, sym, subst, ap, ◌∙◌,
}
use tcldtrace.Threads.{
  Pc, idle, locked, numbered, loaded, stored, served, Shared, put, Move, lock, read, load, store,
  unlock, return, Runs, begin, move, IsInside,
}

abbrev pub Below : ℕ → List ℕ → Type 0
Below n [] = Unit
Below n (k ∷ ks) = (k < n) × Below n ks

Below-mono : (m n : ℕ) (ks : List ℕ) → m ≤ n → Below m ks → Below n ks
Below-mono m n [] h b = tt
Below-mono m n (k ∷ ks) h b = (let l = b.0 in omega arith, Below-mono m n ks h b.1)

-- No number twice.
abbrev pub Absent : ℕ → List ℕ → Type 0
Absent n [] = Unit
Absent n (k ∷ ks) = (k ≢ n) × Absent n ks

abbrev pub Distinct : List ℕ → Type 0
Distinct [] = Unit
Distinct (k ∷ ks) = Absent k ks × Distinct ks

Below-Absent : (n : ℕ) (ks : List ℕ) → Below n ks → Absent n ks
Below-Absent n [] b = tt
Below-Absent n (k ∷ ks) b = (λ e. let l = b.0 in absurd (omega (arith, e)), Below-Absent n ks b.1)

-- What a thread's place says of the counter and of the numbers issued.
abbrev pub Fits : Pc → ℕ → List ℕ → Type 0
Fits idle next issued = Unit
Fits locked next issued = Below next issued
Fits (numbered id) next issued = (id ≡ next) × Below next issued
Fits (loaded id n) next issued = (id ≡ next) × (n ≡ next) × Below next issued
Fits (stored id) next issued = (id < next) × Below id issued
Fits (served id) next issued = Unit

pub record Inv (s : Shared) : Type 0 where
  pub holds : (i : ℕ) → IsInside (s.pc i) → s.owner ≡ some i
  pub owned : (i : ℕ) → s.owner ≡ some i → IsInside (s.pc i)
  pub fits : (i : ℕ) → Fits (s.pc i) s.next s.issued
  pub free : s.owner ≡ none → Below s.next s.issued
  pub distinct : Distinct s.issued

outside : (p : Pc) (next : ℕ) (issued : List ℕ) → (IsInside p → ⊥) → Fits p next issued
outside idle next issued o = tt
outside locked next issued o = absurd (o tt)
outside (numbered id) next issued o = absurd (o tt)
outside (loaded id n) next issued o = absurd (o tt)
outside (stored id) next issued o = absurd (o tt)
outside (served id) next issued o = tt

-- One thread at another place, with what then holds of it and of the others.
moved :
    (s : Shared) (i : ℕ) (p : Pc) (next : ℕ) (owner : Option ℕ) (issued : List ℕ)
    → ((j : ℕ)
        → (i == j) ≡ false
        → (IsInside (s.pc j) → owner ≡ some j) × Fits (s.pc j) next issued)
    → (IsInside p → owner ≡ some i)
    → ((j : ℕ) → owner ≡ some j → IsInside (put s.pc i p j))
    → Fits p next issued
    → (owner ≡ none → Below next issued)
    → Distinct issued
    → Inv (record { next = next; owner = owner; pc = put s.pc i p; issued = issued })
moved s i p next owner issued others own held fit free apart = record {
  owned = held;
  holds = λ j. elim (Bool-cases (i == j)) [
    | inl same ↦
        let at : i ≡ j = ground arith in
        rw same (λ inside. subst (λ k. owner ≡ some k) at (own inside))
    | inr other ↦ rw other (others j other).0
  ];
  fits = λ j. elim (Bool-cases (i == j)) [
    | inl same ↦ rw same fit
    | inr other ↦ rw other (others j other).1
  ];
  free = free;
  distinct = apart;
}

-- While one thread owns the mutex no other is inside.
alone :
    (s : Shared) (i : ℕ) (next : ℕ) (owner : Option ℕ) (issued : List ℕ)
    → Inv s
    → ((j : ℕ) → s.owner ≡ some j → i ≡ j)
    → (j : ℕ) → (i == j) ≡ false
    → (IsInside (s.pc j) → owner ≡ some j) × Fits (s.pc j) next issued
alone s i next owner issued inv only j other =
    let out : IsInside (s.pc j) → ⊥ =
      λ inside. let same = only j (inv.holds j inside) in absurd (ground arith) in
    ((λ inside. absurd (out inside)), outside (s.pc j) next issued out)

owns : (s : Shared) (i : ℕ) → Inv s → IsInside (s.pc i) → (j : ℕ) → s.owner ≡ some j → i ≡ j
owns s i inv inside j e = let own = inv.holds i inside in cc

-- The owner that moves on inside is the one that is inside.
stays :
    (s : Shared) (i : ℕ) (p : Pc)
    → Inv s
    → IsInside (s.pc i)
    → IsInside p
    → (j : ℕ) → s.owner ≡ some j
    → IsInside (put s.pc i p j)
stays s i p inv inside more j e =
    let at : i ≡ j = owns s i inv inside j e in
    let same : (i == j) ≡ true = ground arith in rw same more

Move-Inv : (s t : Shared) → Move s t → Inv s → Inv t
Move-Inv s t (lock i free e) inv =
    moved s i locked s.next (some i) s.issued
      (alone s i s.next (some i) s.issued inv (λ j own. absurd (cc))) (λ _. refl)
      (λ j own. let at : i ≡ j = cc in let same : (i == j) ≡ true = ground arith in rw same tt)
      (inv.free free) (λ n. absurd (cc)) inv.distinct
Move-Inv s t (read i e) inv =
    let inside : IsInside (s.pc i) = subst IsInside (sym e) tt in
    let fit : Fits locked s.next s.issued = subst (λ p. Fits p s.next s.issued) e (inv.fits i) in
    moved s i (numbered s.next) s.next s.owner s.issued
      (alone s i s.next s.owner s.issued inv (owns s i inv inside)) (λ _. inv.holds i inside)
      (stays s i (numbered s.next) inv inside tt) (refl, fit) inv.free inv.distinct
Move-Inv s t (load i id e) inv =
    let inside : IsInside (s.pc i) = subst IsInside (sym e) tt in
    let fit : Fits (numbered id) s.next s.issued =
      subst (λ p. Fits p s.next s.issued) e (inv.fits i) in
    moved s i (loaded id s.next) s.next s.owner s.issued
      (alone s i s.next s.owner s.issued inv (owns s i inv inside)) (λ _. inv.holds i inside)
      (stays s i (loaded id s.next) inv inside tt) (fit.0, refl, fit.1) inv.free inv.distinct
Move-Inv s t (store i id n e room) inv =
    let inside : IsInside (s.pc i) = subst IsInside (sym e) tt in
    let (is, was, below) : Fits (loaded id n) s.next s.issued =
      subst (λ p. Fits p s.next s.issued) e (inv.fits i) in
    let own = inv.holds i inside in
    moved s i (stored id) (n + 1) s.owner s.issued
      (alone s i (n + 1) s.owner s.issued inv (owns s i inv inside)) (λ _. own)
      (stays s i (stored id) inv inside tt)
      (omega (arith, is, was), subst (λ k. Below k s.issued) (sym is) below) (λ f. absurd (cc))
      inv.distinct
Move-Inv s t (unlock i id e) inv =
    let inside : IsInside (s.pc i) = subst IsInside (sym e) tt in
    let (more, below) : Fits (stored id) s.next s.issued =
      subst (λ p. Fits p s.next s.issued) e (inv.fits i) in
    moved s i (served id) s.next none (id ∷ s.issued)
      (alone s i s.next none (id ∷ s.issued) inv (owns s i inv inside)) (λ x. absurd x)
      (λ j n. absurd (cc)) tt
      (λ _. (more, Below-mono id s.next s.issued (omega (arith, more)) below))
      (Below-Absent id s.issued below, inv.distinct)
Move-Inv s t (return i id e) inv =
    moved s i idle s.next s.owner s.issued (λ j _. (inv.holds j, inv.fits j)) (λ x. absurd x)
      (λ j own. elim (Bool-cases (i == j)) [
        | inl same ↦
            let at : j ≡ i = ground arith in
            absurd (subst IsInside (ap s.pc at ∙ e) (inv.owned j own))
        | inr other ↦ rw other (inv.owned j own)
      ])
      tt inv.free inv.distinct

pub Runs-Inv : (s : Shared) → Runs s → Inv s
Runs-Inv s begin = record {
  holds = λ i inside. absurd inside;
  owned = λ i e. absurd (cc);
  fits = λ i. tt;
  free = λ _. tt;
  distinct = tt;
}
Runs-Inv t (move {s = s} r m) = Move-Inv s t m (Runs-Inv s r)

-- In whatever order the threads take their steps, no two calls go on with the same number.
pub Runs-Distinct : (s : Shared) → Runs s → Distinct s.issued
Runs-Distinct s r = (Runs-Inv s r).distinct

-- At no time are two threads between the lock and the unlock.
pub Runs-exclusive : (s : Shared) (i j : ℕ) → Runs s → IsInside (s.pc i) → IsInside (s.pc j) → i ≡ j
Runs-exclusive s i j r in_i in_j = let inv = Runs-Inv s r in owns s i inv in_i j (inv.holds j in_j)
