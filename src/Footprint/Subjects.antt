-- ===== src/Footprint/Subjects.antt =====
-- The beginning of the commands of generic/dtrace.c: the structure that a command is about, and what
-- holds where it is not found.
use tcldtrace.Prelude.{
  ℕ, ◌≡◌, refl, inl, inr, Bool, true, false, some, List, Bytes, ℤ, pos, negsuc, lookup,
  Option-cases, get_elem?,
}
use tcldtrace.State.{
  Obj, Value, Parsed, parsed, refused, ProgramData, World, Out, M, Code, arg, ◌>>=◌,
}
use tcldtrace.Api.{Env}
use tcldtrace.Helpers.Registry.{get_hd, get_pd, find_by, find_entry}
use tcldtrace.Helpers.Checks.{fail_with, objc_check, handle_check, program_check}
use tcldtrace.Misuse.Unknown.{Table, of_handles, of_programs, no_table}
use tcldtrace.Footprint.{IsHeld, Ok}

module _ {D : Type 0} (env : Env D) where
  -- The structure that a command is about: the one that its first word names, or the one of the program
  -- that the word names.
  abbrev pub IsSubject : Table → List Obj → World D → ℕ → Type 0
  IsSubject of_handles objv w a =
      (id : Obj) × (n : ℕ) × (get_elem? objv 1 ≡ some id)
      × (env.get_int id ≡ parsed (pos n))
      × (lookup n w.handles ≡ some a)
  IsSubject of_programs objv w a =
      (id : Obj) × (n : ℕ) × (pd : ProgramData) × (get_elem? objv 1 ≡ some id)
      × (env.get_int id ≡ parsed (pos n))
      × (lookup n w.programs ≡ some pd)
      × (pd.hd ≡ a)
  IsSubject no_table objv w a = ⊥

  -- The two beginnings of a command, with what holds where only the result and the error code are set,
  -- and what the rest of the command does with its subject.
  module _ (objv : List Obj) (w : World D) (Q : World D → Type 0)
      (said : (result : Value) (error_code : List Bytes)
        → Q (record w { result = result; error_code = error_code })) where
    checked :
        (command : Bytes) (a : ℕ) (rest : ℕ → M D Code)
        → ((h : ℕ) → IsHeld a h w → Ok (λ _. Q) (rest a w))
        → Ok (λ _. Q) (handle_check env command (some a) rest w)
    unfolding handle_check fail_with
    checked command a rest k = elim (Option-cases (lookup a w.heap)) [
      | inl gone ↦ rw (gone, handle_check) tt
      | inr (hd, l) ↦ elim (Option-cases hd.handle) [
        | inl shut ↦ rw (l, handle_check) (rw (shut, handle_check) (said _ _))
        | inr (h, e) ↦ rw (l, handle_check) (rw (e, handle_check) (k h (hd, l, e)))
      ]
    ]

    pub handle_command-Ok :
        (usage : Bytes) (good : Bool) (rest : Bytes → ℕ → M D Code)
        → ((name : Bytes) (a h : ℕ)
            → IsSubject of_handles objv w a
            → IsHeld a h w
            → Ok (λ _. Q) (rest name a w))
        → Ok
            (λ _. Q)
            (objc_check env objv usage good
              (do
                name ← arg objv 0
                toid ← arg objv 1
                found ← get_hd env toid
                handle_check env name.str found (rest name.str))
              w)
    unfolding objc_check get_hd find_by find_entry handle_check fail_with
    handle_command-Ok usage false rest k = said _ _
    handle_command-Ok usage true rest k = elim (Option-cases (get_elem? objv 0)) [
      | inl gone ↦ rw (gone, objc_check) tt
      | inr (o, first) ↦ elim (Option-cases (get_elem? objv 1)) [
        | inl gone ↦ rw (first, objc_check) (rw (gone, objc_check) tt)
        | inr (id, second) ↦
            rw (first, objc_check)
              (rw (second, objc_check) (looked o id second (env.get_int id) refl))
      ]
    ]
      where
        looked :
            (o id : Obj)
            → get_elem? objv 1 ≡ some id
            → (p : Parsed ℤ) → env.get_int id ≡ p
            → Ok
                (λ _. Q)
                (let (w', found) = find_by env p w.handles w in
                  handle_check env o.str found (rest o.str) w')
        looked o id second (refused m) e = said _ _
        looked o id second (parsed (negsuc n)) e = said _ _
        looked o id second (parsed (pos n)) e = elim (Option-cases (lookup n w.handles)) [
          | inl unknown ↦ rw unknown (said _ _)
          | inr (a, known) ↦
              rw known (checked o.str a (rest o.str) (λ h. k o.str a h (id, n, second, e, known)))
        ]

    pub program_command-Ok :
        (usage : Bytes) (good : Bool) (rest : Bytes → ProgramData → ℕ → M D Code)
        → ((name : Bytes) (pd : ProgramData) (a h : ℕ)
            → IsSubject of_programs objv w a
            → IsHeld a h w
            → Ok (λ _. Q) (rest name pd a w))
        → Ok
            (λ _. Q)
            (objc_check env objv usage good
              (do
                name ← arg objv 0
                id ← arg objv 1
                found ← get_pd env id
                program_check env name.str found
                    (λ pd. handle_check env name.str (some pd.hd) (rest name.str pd)))
              w)
    unfolding objc_check get_pd find_by find_entry program_check fail_with
    program_command-Ok usage false rest k = said _ _
    program_command-Ok usage true rest k = elim (Option-cases (get_elem? objv 0)) [
      | inl gone ↦ rw (gone, objc_check) tt
      | inr (o, first) ↦ elim (Option-cases (get_elem? objv 1)) [
        | inl gone ↦ rw (first, objc_check) (rw (gone, objc_check) tt)
        | inr (id, second) ↦
            rw (first, objc_check)
              (rw (second, objc_check) (looked o id second (env.get_int id) refl))
      ]
    ]
      where
        looked :
            (o id : Obj)
            → get_elem? objv 1 ≡ some id
            → (p : Parsed ℤ) → env.get_int id ≡ p
            → Ok
                (λ _. Q)
                (let (w', found) = find_by env p w.programs w in
                  program_check env o.str found
                    (λ pd. handle_check env o.str (some pd.hd) (rest o.str pd))
                    w')
        looked o id second (refused m) e = said _ _
        looked o id second (parsed (negsuc n)) e = said _ _
        looked o id second (parsed (pos n)) e = elim (Option-cases (lookup n w.programs)) [
          | inl unknown ↦ rw unknown (said _ _)
          | inr (pd, known) ↦ rw known (
              checked o.str pd.hd (rest o.str pd)
                (λ h. k o.str pd pd.hd h (id, n, pd, second, e, known, refl)))
        ]

  pub all_Ok :
      {P Q : World D → Type 0} (m : Out D Code)
      → ((v : World D) → P v → Q v)
      → Ok (λ _. P) m
      → Ok (λ _. Q) m
  all_Ok (Out.done c v) f q = f v q
  all_Ok (Out.panic m) f q = tt
  all_Ok Out.fault f q = tt
