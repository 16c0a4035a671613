-- ===== src/Safety/Registry.antt =====
-- The helpers and the macros of generic/dtrace.c keep the invariant.
use tcldtrace.Prelude.{
  Bool-cases, ltb, inl, inr, ◌≤◌, ℕ, ◌+◌, ◌≤◌, ◌≡◌, refl, inl, inr, Option, none, some, [], ◌∷◌,
  Bytes, ℤ, pos, negsuc, arith, Dict, lookup, erase, lookup-insert, lookup-erase, ◌==◌, Bool-cases,
  Option-cases,
}
use tcldtrace.State.{
  Obj, Parsed, parsed, refused, Code, tcl_error, HandleData, ProgramData, World, zeroed, M,
}
use tcldtrace.Api.{Env}
use tcldtrace.Helpers.Registry.{
  free_programs, new_hd, del_hd, register_pd, get_hd, get_pd, find_by, int_max,
}
use tcldtrace.Helpers.Checks.{handle_check, lib_error}
use tcldtrace.Safety.Scope.{Scope, View, view, added, dropped, registered_for}
use tcldtrace.Safety.Held.{total}
use tcldtrace.Safety.Invariant.{
  Post, Tables, Inv, InvBut, Good, reframe, new-Tables, register-Tables, delete-Tables,
}

empty_of_lookup :
    (programs : Dict ProgramData) → ((j : ℕ) → lookup j programs ≡ none) → programs ≡ []
unfolding lookup
empty_of_lookup [] h = refl
empty_of_lookup ((k, pd) ∷ rest) h = absurd (ground (arith, h k))

free_programs_covered :
    (found programs : Dict ProgramData)
    → ((j : ℕ) → lookup j found ≡ none → lookup j programs ≡ none)
    → free_programs found programs ≡ []
unfolding free_programs lookup
free_programs_covered [] programs h = empty_of_lookup programs (λ j. h j refl)
free_programs_covered ((k, pd) ∷ found) programs h =
    free_programs_covered found (erase k programs) λ j e. elim (Bool-cases (k == j)) [
      | inl same ↦ rw (lookup-erase k j programs, same) refl
      | inr other ↦ rw (lookup-erase k j programs, other) (h j (rw other e))
    ]

-- The loop over the programs ends with an empty table.
pub free_programs_all : (programs : Dict ProgramData) → free_programs programs programs ≡ []
free_programs_all programs = free_programs_covered programs programs (λ j e. e)

module _ {D : Type 0} (s : Scope) where
  -- The invariant with another frame, and with one that depends on the completion code.
  abbrev pub Under : (View → Type 0) → World D → Type 0
  Under F = Inv (record s { frame = F })

  abbrev pub After : (Code → View → Type 0) → Code → World D → Type 0
  After G code = Inv (record s { frame = G code })

  pub weaken :
      (F : View → Type 0) (w : World D) → (s.frame (view w) → F (view w)) → Inv s w → Under F w
  weaken F w sub inv = reframe s (record s { frame = F }) sub (λ n c. c) inv

  -- What `new_hd` returns: a live structure with no libdtrace handle yet.
  abbrev pub Named : ℕ → World D → Type 0
  Named id w = (hd : HandleData) × (lookup id w.heap ≡ some hd) × (lookup id w.handles ≡ some id)

  pub new_hd-Inv :
      (F : ℕ → View → Type 0) (w : World D)
      → (s.frame (view w)
          → lookup w.next_free_id w.handles ≡ none
          → F w.next_free_id (added (view w)))
      → Inv s w
      → (int_max ≤ w.next_free_id → s.panics)
      → Post s (λ id w'. InvBut (record s { frame = F id }) id w' × Named id w') (new_hd w)
  unfolding new_hd
  new_hd-Inv F w adds inv room =
      let fresh = inv.fresh_id w.next_free_id (omega arith) in
      let t = new-Tables (F w.next_free_id) (adds inv.framed fresh) inv in
      elim (Bool-cases (ltb w.next_free_id int_max)) [
        | inl fits ↦
            rw (fits, fresh)
              (
                t,
                (
                  zeroed,
                  ground (arith, lookup-insert w.next_free_id w.next_free_id zeroed w.heap),
                  ground
                      (arith, lookup-insert w.next_free_id w.next_free_id w.next_free_id w.handles),
                ),
              )
        | inr full ↦ rw (full, new_hd) (room (ground arith))
      ]

  pub del_hd-Inv :
      (F : View → Type 0) (opening : Option ℕ) (id : ℕ) (refs : ℕ → ℕ) (w : World D)
      → Tables s opening (view w) w.heap refs
      → ((b : ℕ) → opening ≡ some b → id ≡ b)
      → lookup id w.handles ≡ some id
      → F (dropped id (view w))
      → ((n : ℕ) → s.owed n + total (erase id w.heap) n ≤ w.refs n)
      → Post s (λ _. Under F) (del_hd id w)
  unfolding del_hd
  del_hd-Inv F opening id refs w inv only e drops pays =
      let (hd, _, l) = inv.named id id e in
      rw (e, del_hd)
        (rw (l, del_hd)
          (rw (free_programs_all w.programs) (delete-Tables F id w.refs drops inv only pays)))

  pub register_pd-Inv :
      (F : View → Type 0) (a compiled : ℕ) (w : World D)
      → (s.frame (view w)
          → lookup w.next_free_pid w.programs ≡ none
          → F (registered_for a compiled (view w)))
      → Good s a w
      → (int_max ≤ w.next_free_pid → s.panics)
      → Post s (λ _. Under F) (register_pd a compiled w)
  unfolding register_pd
  register_pd-Inv F a compiled w registers (inv, (hd, h, e, _)) room =
      let fresh = inv.fresh_pid w.next_free_pid (omega arith) in
      elim (Bool-cases (ltb w.next_free_pid int_max)) [
        | inl fits ↦
            rw (fits, fresh) (register-Tables F a compiled hd (registers inv.framed fresh) inv e)
        | inr full ↦ rw (full, register_pd) (room (ground arith))
      ]

module _ {D : Type 0} (env : Env D) (s : Scope) where
  find_handle-Inv :
      (r : Parsed ℤ) (w : World D)
      → Inv s w
      → let (w', found) = find_by env r w.handles w in
        Inv s w'
        × ((a : ℕ) → found ≡ some a → (hd : HandleData) × (lookup a w'.heap ≡ some hd))
        × (w'.next_free_pid ≡ w.next_free_pid)
        × ((a : ℕ) → found ≡ some a → r ≡ parsed (pos a))
  unfolding find_by
  find_handle-Inv (refused message) w inv = (inv, (λ a e. absurd (cc)), refl, λ a e. absurd (cc))
  find_handle-Inv (parsed (pos n)) w inv = (
    inv,
    (λ a e. let (hd, _, l) = inv.named n a e in (hd, l)),
    refl,
    λ a e. let (hd, same, l) = inv.named n a e in rw same refl,
  )
  find_handle-Inv (parsed (negsuc n)) w inv = (inv, (λ a e. absurd (cc)), refl, λ a e. absurd (cc))

  -- `get_hd` finds a live structure or nothing.
  pub get_hd-Inv :
      (toid : Obj) (w : World D)
      → Inv s w
      → Post s
          (λ found w'.
            Inv s w'
            × ((a : ℕ) → found ≡ some a → (hd : HandleData) × (lookup a w'.heap ≡ some hd))
            × (w'.next_free_pid ≡ w.next_free_pid)
            × ((a : ℕ) → found ≡ some a → env.get_int toid ≡ parsed (pos a)))
          (get_hd env toid w)
  unfolding get_hd
  get_hd-Inv toid w inv = find_handle-Inv (env.get_int toid) w inv

  find_program-Inv :
      (r : Parsed ℤ) (w : World D)
      → Inv s w
      → let (w', found) = find_by env r w.programs w in
        Inv s w'
        × ((pd : ProgramData)
            → found ≡ some pd
            → (hd : HandleData) × (lookup pd.hd w'.heap ≡ some hd))
  unfolding find_by
  find_program-Inv (refused message) w inv = (inv, λ pd e. absurd (cc))
  find_program-Inv (parsed (pos n)) w inv = (inv, λ pd e. inv.attached n pd e)
  find_program-Inv (parsed (negsuc n)) w inv = (inv, λ pd e. absurd (cc))

  -- `get_pd` finds a program of a live structure or nothing.
  pub get_pd-Inv :
      (id : Obj) (w : World D)
      → Inv s w
      → Post s
          (λ found w'.
            Inv s w'
            × ((pd : ProgramData)
                → found ≡ some pd
                → (hd : HandleData) × (lookup pd.hd w'.heap ≡ some hd)))
          (get_pd env id w)
  unfolding get_pd
  get_pd-Inv id w inv = find_program-Inv (env.get_int id) w inv

  -- A check that fails leaves the state as it is, with the code of an error.
  pub handle_check-Inv :
      (G : Code → View → Type 0) (command : Bytes) (found : Option ℕ) (rest : ℕ → M D Code)
      (w : World D)
      → (s.frame (view w) → G tcl_error (view w))
      → Inv s w
      → ((a : ℕ) → found ≡ some a → (hd : HandleData) × (lookup a w.heap ≡ some hd))
      → ((a : ℕ) → found ≡ some a → Good s a w → Post s (After s G) (rest a w))
      → Post s (After s G) (handle_check env command found rest w)
  unfolding handle_check
  handle_check-Inv G command none rest w sub inv live k = weaken s (G tcl_error) w sub inv
  handle_check-Inv G command (some a) rest w sub inv live k =
      let (hd, e) = live a refl in
      elim (Option-cases hd.handle) [
        | inl missing ↦
            rw (e, handle_check) (rw (missing, handle_check) (weaken s (G tcl_error) w sub inv))
        | inr (h, e') ↦
            rw (e, handle_check) (rw (e', handle_check) (k a refl (inv, (hd, h, e, e'))))
      ]

  pub lib_error-After :
      (G : Code → View → Type 0) (command : Bytes) (a : ℕ) (w : World D)
      → (s.frame (view w) → G tcl_error (view w))
      → Good s a w
      → Post s (After s G) (lib_error env command a w)
  unfolding lib_error
  lib_error-After G command a w sub (inv, (hd, h, e, e')) =
      rw (e, e') (weaken s (G tcl_error) w sub inv)

  pub lib_error-Inv :
      (command : Bytes) (a : ℕ) (w : World D)
      → Good s a w
      → Post s (λ _. Inv s) (lib_error env command a w)
  lib_error-Inv command a w g = lib_error-After (λ _. s.frame) command a w (λ f. f) g
