-- ===== src/Safety/Held.antt =====
-- The reference counts of generic/dtrace.c: how often the entries of the handles hold an object, and
-- what the loops over references do to the counts.
use tcldtrace.Prelude.{
  ℕ, zero, suc, ◌+◌, ◌-◌, ◌≤◌, ◌<◌, ◌≡◌, refl, inl, inr, false, Option, none, some, List, [], ◌∷◌,
  arith, Dict, lookup, insert, erase, ◌==◌, if◌then◌else◌, Bool-cases, Option-cases, subst, ap, ◌∙◌,
}
use tcldtrace.State.{Obj, Value, given, str, int, list, HandleData, World, done, bump, drop_one}
use tcldtrace.Api.{Env}
use tcldtrace.Callbacks.{incr_refs, decr_refs}
use tcldtrace.Commands.Open.{callbacks_count, release_callbacks}
use tcldtrace.Commands.Tracing.{update}

-- How often an entry holds the object of a number.
abbrev pub hits : Obj → ℕ → ℕ
hits o n = if o.ident == n then 1 else 0

abbrev pub cell : Option Obj → Option Obj → ℕ → ℕ
cell none x n = 0
cell (some proc) none n = 0
cell (some proc) (some extra) n = hits proc n + hits extra n

-- How often the entries of the two arrays, a number of them from an index on, hold it.
unfoldable pub held : (ℕ → Option Obj) → (ℕ → Option Obj) → ℕ → ℕ → ℕ → ℕ
held callbacks args i zero n = 0
held callbacks args i (suc rounds) n =
    cell (callbacks i) (args i) n + held callbacks args (suc i) rounds n

abbrev pub held_by : HandleData → ℕ → ℕ
held_by hd n = held hd.callbacks hd.args 0 callbacks_count n

module _ (callbacks args : ℕ → Option Obj) (k : ℕ) (proc extra : Obj) where
  -- An entry outside the range does not count.
  held_outside :
      (i rounds n : ℕ)
      → k < i
      → held (update callbacks k proc) (update args k extra) i rounds n
        ≡ held callbacks args i rounds n
  unfolding held
  held_outside i zero n h = refl
  held_outside i (suc rounds) n h =
      let rest = held_outside (suc i) rounds n (omega arith) in
      let other : (k == i) ≡ false = ground arith in rw other (omega (arith, rest))

  -- An entry that is written holds its new objects once each, and what it held before no more.
  pub held-update :
      (i rounds n : ℕ)
      → i ≤ k
      → k < i + rounds
      → held (update callbacks k proc) (update args k extra) i rounds n
          + cell (callbacks k) (args k) n
        ≡ held callbacks args i rounds n + (hits proc n + hits extra n)
  unfolding held
  held-update i zero n l h = absurd (omega arith)
  held-update i (suc rounds) n l h = elim (Bool-cases (k == i)) [
    | inl same ↦
        let at : k ≡ i = ground arith in
        let here : cell (callbacks k) (args k) n ≡ cell (callbacks i) (args i) n =
          ap (λ j. cell (callbacks j) (args j) n) at in
        let rest = held_outside (suc i) rounds n (omega (arith, at)) in
        rw same (omega (arith, rest, here))
    | inr other ↦
        let rest = held-update (suc i) rounds n (ground arith) (omega arith) in
        rw other (omega (arith, rest))
  ]

-- An entry in the range holds its two objects.
pub held_here :
    (callbacks args : ℕ → Option Obj) (k : ℕ) (proc extra : Obj) (i rounds n : ℕ)
    → i ≤ k
    → k < i + rounds
    → callbacks k ≡ some proc
    → args k ≡ some extra
    → hits proc n + hits extra n ≤ held callbacks args i rounds n
unfolding held
held_here callbacks args k proc extra i zero n l h s s' = absurd (omega arith)
held_here callbacks args k proc extra i (suc rounds) n l h s s' = elim (Bool-cases (k == i)) [
  | inl same ↦
      let at : i ≡ k = ground arith in
      let here : cell (callbacks i) (args i) n ≡ cell (some proc) (some extra) n =
        ap (λ j. cell (callbacks j) (args j) n) at ∙ (rw s (rw s' refl)) in
      omega (arith, here)
  | inr other ↦ omega (
    arith,
    held_here callbacks args k proc extra (suc i) rounds n (ground arith) (omega arith) s s',
  )
]

-- How often the live structures hold it.
unfoldable pub total : Dict HandleData → ℕ → ℕ
total [] n = 0
total ((k, hd) ∷ heap) n = held_by hd n + total heap n

pub total-erase_le :
    (a : ℕ) (heap : Dict HandleData) (n : ℕ) → total (erase a heap) n ≤ total heap n
unfolding total erase
total-erase_le a [] n = omega arith
total-erase_le a ((k, hd) ∷ heap) n = elim (Bool-cases (k == a)) [
  | inl same ↦ rw same (omega (arith, total-erase_le a heap n))
  | inr other ↦ rw other (omega (arith, total-erase_le a heap n))
]

-- A structure that is freed takes what it held.
pub total-erase :
    (a : ℕ) (hd : HandleData) (heap : Dict HandleData) (n : ℕ)
    → lookup a heap ≡ some hd
    → total (erase a heap) n + held_by hd n ≤ total heap n
unfolding total erase lookup
total-erase a hd [] n e = absurd (cc)
total-erase a hd ((k, x) ∷ heap) n e = elim (Bool-cases (k == a)) [
  | inl same ↦
      let is : x ≡ hd = ground arith in
      rw same (
        subst (λ y. total (erase a heap) n + held_by y n ≤ held_by x n + total heap n) is
          (omega (arith, total-erase_le a heap n)))
  | inr other ↦ rw other (omega (arith, total-erase a hd heap n (ground arith)))
]

pub total-insert :
    (a : ℕ) (hd : HandleData) (heap : Dict HandleData) (n : ℕ)
    → total (insert a hd heap) n ≡ held_by hd n + total (erase a heap) n
unfolding total insert
total-insert a hd heap n = refl

-- How often the object of a number is among the words of a call.
pub occurs : List Value → ℕ → ℕ
occurs [] n = 0
occurs (given o ∷ vs) n = hits o n + occurs vs n
occurs (str s ∷ vs) n = occurs vs n
occurs (int z ∷ vs) n = occurs vs n
occurs (list l ∷ vs) n = occurs vs n

module _ {D : Type 0} where
  pub incr_refs-occurs :
      (objv : List Value) (w : World D)
      → (refs : ℕ → ℕ) × (incr_refs objv w ≡ done tt (record w { refs = refs }))
        × ((n : ℕ) → refs n ≡ w.refs n + occurs objv n)
  unfolding incr_refs occurs
  incr_refs-occurs [] w = (w.refs, refl, λ n. omega arith)
  incr_refs-occurs (given o ∷ vs) w =
      let (refs, r, c) = incr_refs-occurs vs (record w { refs = bump w.refs o.ident }) in
      (refs, r, λ n. ground (arith, c n))
  incr_refs-occurs (str s ∷ vs) w = incr_refs-occurs vs w
  incr_refs-occurs (int z ∷ vs) w = incr_refs-occurs vs w
  incr_refs-occurs (list l ∷ vs) w = incr_refs-occurs vs w

  pub decr_refs-occurs :
      (objv : List Value) (w : World D)
      → (refs : ℕ → ℕ) × (decr_refs objv w ≡ done tt (record w { refs = refs }))
        × ((n : ℕ) → refs n ≡ w.refs n - occurs objv n)
  unfolding decr_refs occurs
  decr_refs-occurs [] w = (w.refs, refl, λ n. omega arith)
  decr_refs-occurs (given o ∷ vs) w =
      let (refs, r, c) = decr_refs-occurs vs (record w { refs = drop_one w.refs o.ident }) in
      (refs, r, λ n. ground (arith, c n))
  decr_refs-occurs (str s ∷ vs) w = decr_refs-occurs vs w
  decr_refs-occurs (int z ∷ vs) w = decr_refs-occurs vs w
  decr_refs-occurs (list l ∷ vs) w = decr_refs-occurs vs w

module _ {D : Type 0} (env : Env D) where
  -- The loop of `Close` counts each object down as often as the entries hold it.
  pub release_callbacks-held :
      (a : ℕ) (hd : HandleData) (i rounds : ℕ) (w : World D)
      → lookup a w.heap ≡ some hd
      → ((j : ℕ) (c : Obj) → hd.callbacks j ≡ some c → (x : Obj) × (hd.args j ≡ some x))
      → (refs : ℕ → ℕ) × (release_callbacks env a i rounds w ≡ done tt (record w { refs = refs }))
        × ((n : ℕ) → refs n ≡ w.refs n - held hd.callbacks hd.args i rounds n)
  unfolding release_callbacks held
  release_callbacks-held a hd i zero w e slots = (w.refs, refl, λ n. omega arith)
  release_callbacks-held a hd i (suc rounds) w e slots = elim (Option-cases (hd.callbacks i)) [
    | inl free ↦
        let (refs, r, c) = release_callbacks-held a hd (suc i) rounds w e slots in
        (
          refs,
          rw (e, release_callbacks) (rw (free, release_callbacks) r),
          λ n. rw free (omega (arith, c n)),
        )
    | inr (proc, s) ↦
        let (x, s') = slots i proc s in
        let (refs, r, c) =
          release_callbacks-held a hd (suc i) rounds
            (record w { refs = drop_one (drop_one w.refs proc.ident) x.ident }) e slots in
        (
          refs,
          rw (e, release_callbacks) (rw (s, release_callbacks) (rw (s', release_callbacks) r)),
          λ n. rw s (rw s' (ground (arith, c n))),
        )
  ]
