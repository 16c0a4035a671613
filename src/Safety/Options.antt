-- ===== src/Safety/Options.antt =====
-- Reading and setting options, and the command Configure.
use tcldtrace.Prelude.{
  ℕ, suc, bytes_eq, ◌≡◌, refl, ◌≢◌, inl, inr, Option, none, some, List, [], ◌∷◌, Bytes, ℤ, arith,
  lookup, insert, lookup-insert, ◌==◌, Bool-cases, Option-cases, text, length, drop, get_elem?,
  get_elem?_below, subst,
}
use tcldtrace.State.{Obj, HandleData, World, store}
use tcldtrace.Api.{Env}
use tcldtrace.Helpers.Options.{internal_option, get_option, get_library_option, set_option}
use tcldtrace.Helpers.Checks.{fail_with}
use tcldtrace.Commands.Open.{set_options}
use tcldtrace.Commands.Configure.{
  get_options, basic_options, configure_all, configure_one, configure_set, configure_handle,
}
use tcldtrace.Safety.Scope.{Scope, view}
use tcldtrace.Safety.Invariant.{Post, carry, Tables, Inv, Live, Good, store-Tables}

-- The invariant and a live handle, with perhaps a structure being opened.
abbrev pub GoodBut : {D : Type 0} → Scope → Option ℕ → ℕ → World D → Type 0
GoodBut s opening a w = Tables s opening (view w) w.heap w.refs × Live a w

-- No argument is the empty string, or else there is a proof of something.
abbrev pub AllFilled : Type 0 → List Obj → Type 0
AllFilled X [] = Unit
AllFilled X (o ∷ os) = (o.str ≡ [] → X) × AllFilled X os

abbrev AllNamed : List Bytes → Type 0
AllNamed [] = Unit
AllNamed (s ∷ ss) = (s ≢ []) × AllNamed ss

basic_options-AllNamed : AllNamed basic_options
unfolding basic_options text
basic_options-AllNamed = ((λ e. cc), ((λ e. cc), ((λ e. cc), ((λ e. cc), tt))))

pub drop-AllFilled : (X : Type 0) (n : ℕ) (os : List Obj) → AllFilled X os → AllFilled X (drop n os)
drop-AllFilled X ℕ.zero os h = h
drop-AllFilled X (suc n) [] h = tt
drop-AllFilled X (suc n) (o ∷ os) h = drop-AllFilled X n os h.1

get-AllFilled :
    (X : Type 0) (i : ℕ) (os : List Obj) (o : Obj)
    → AllFilled X os
    → get_elem? os i ≡ some o
    → o.str ≡ []
    → X
get-AllFilled X i [] o f e = absurd (cc)
get-AllFilled X ℕ.zero (x ∷ os) o f e = let is : x ≡ o = cc in subst (λ y. y.str ≡ [] → X) is f.0
get-AllFilled X (suc i) (x ∷ os) o f e = get-AllFilled X i os o f.1 e

module _ {D : Type 0} (env : Env D) (s : Scope) where
  -- A change of `foldpdesc` alone.
  fold-Good :
      (opening : Option ℕ) (a : ℕ) (hd : HandleData) (h : ℕ) (v : ℤ) (w : World D)
      → Tables s opening (view w) w.heap w.refs
      → lookup a w.heap ≡ some hd
      → hd.handle ≡ some h
      → GoodBut s opening a (record w { heap = insert a (record hd { foldpdesc = v }) w.heap })
  fold-Good opening a hd h v w inv e e' =
      let wf = (inv.owned a hd e).1 in
      let new : HandleData = record hd { foldpdesc = v } in
      (
        store-Tables a hd new w.refs inv e
            (record {
              count_le = wf.count_le;
              cells = wf.cells;
              written = wf.written;
              slots = wf.slots;
            })
            (λ h' ex l. inv.ready a h' hd ex e l) (λ n. omega arith),
        (new, h, ground (arith, lookup-insert a a new w.heap), e'),
      )

  pub set_option-Good :
      (opening : Option ℕ) (a : ℕ) (option value : Bytes) (w : World D)
      → (option ≡ [] → s.panics)
      → GoodBut s opening a w
      → Post s (λ _. GoodBut s opening a) (set_option env a option value w)
  unfolding set_option internal_option bytes_eq text
  set_option-Good opening a [] value w filled (inv, (hd, h, e, e')) =
      rw (e, set_option) (rw (e', set_option) (filled refl))
  set_option-Good opening a (c ∷ cs) value w filled (inv, (hd, h, e, e')) =
      elim (Bool-cases (internal_option (c ∷ cs))) [
        | inl own ↦
            rw (own, set_option)
              (rw (e, set_option) (rw (e, store) (fold-Good opening a hd h _ w inv e e')))
        | inr other ↦
            rw (other, set_option) (rw (e, set_option) (rw (e', set_option) (inv, (hd, h, e, e'))))
      ]

  pub get_option-Good :
      (a : ℕ) (option : Bytes) (w : World D)
      → (option ≡ [] → s.panics)
      → Good s a w
      → Post s (λ _. Good s a) (get_option env a option w)
  unfolding get_option get_library_option internal_option bytes_eq text
  get_option-Good a [] w filled (inv, (hd, h, e, e')) =
      rw (e, get_option) (rw (e', get_option) (filled refl))
  get_option-Good a (c ∷ cs) w filled (inv, (hd, h, e, e')) =
      elim (Bool-cases (internal_option (c ∷ cs))) [
        | inl own ↦ rw (own, get_option) (rw (e, get_option) (inv, (hd, h, e, e')))
        | inr other ↦
            rw (other, get_option) (rw (e, get_option) (rw (e', get_option) (inv, (hd, h, e, e'))))
      ]

  pub set_options-Good :
      (opening : Option ℕ) (a : ℕ) (os : List Obj) (w : World D)
      → AllFilled s.panics os
      → GoodBut s opening a w
      → Post s (λ _. GoodBut s opening a) (set_options env a os w)
  unfolding set_options
  set_options-Good opening a [] w f g = g
  set_options-Good opening a (o ∷ []) w f g = g
  set_options-Good opening a (o ∷ v ∷ rest) w f g =
      carry s (GoodBut s opening a) (λ _. GoodBut s opening a) (set_option env a o.str v.str w) _
        (set_option-Good opening a o.str v.str w f.0 g)
        λ r w' g'. elim (Bool-cases r) [
          | inl good ↦ rw good (set_options-Good opening a rest w' f.1.1 g')
          | inr bad ↦ rw bad g'
        ]

  get_options-Good :
      (a : ℕ) (names : List Bytes) (w : World D)
      → AllNamed names
      → Good s a w
      → Post s (λ _. Good s a) (get_options env a names w)
  unfolding get_options
  get_options-Good a [] w f g = g
  get_options-Good a (name ∷ rest) w f g =
      carry s (Good s a) (λ _. Good s a) (get_option env a name w) _
        (get_option-Good a name w (λ e. absurd (f.0 e)) g)
        λ v w₁ g₁. elim (Option-cases v) [
          | inl missing ↦ rw missing g₁
          | inr (t, found) ↦ rw found (
              carry s (Good s a) (λ _. Good s a) (get_options env a rest w₁) _
                (get_options-Good a rest w₁ f.1 g₁)
                λ more w₂ g₂. elim (Option-cases more) [
                  | inl missing ↦ rw missing g₂
                  | inr (vs, all) ↦ rw all g₂
                ])
        ]

  configure_all-Inv :
      (command : Bytes) (a : ℕ) (w : World D)
      → Good s a w
      → Post s (λ _. Inv s) (configure_all env command a w)
  unfolding configure_all fail_with
  configure_all-Inv command a w g =
      carry s (Good s a) (λ _. Inv s) (get_options env a basic_options w) _
        (get_options-Good a basic_options w basic_options-AllNamed g)
        λ r w' g'. elim (Option-cases r) [
          | inl missing ↦ rw missing g'.0
          | inr (vs, all) ↦ rw all g'.0
        ]

  configure_one-Inv :
      (command : Bytes) (a : ℕ) (option : Bytes) (w : World D)
      → (option ≡ [] → s.panics)
      → Good s a w
      → Post s (λ _. Inv s) (configure_one env command a option w)
  unfolding configure_one fail_with
  configure_one-Inv command a option w filled g =
      carry s (Good s a) (λ _. Inv s) (get_option env a option w) _
        (get_option-Good a option w filled g)
        λ r w' g'. elim (Option-cases r) [
          | inl missing ↦ rw missing g'.0
          | inr (v, found) ↦ rw found g'.0
        ]

  configure_set-Inv :
      (command : Bytes) (a : ℕ) (objv : List Obj) (w : World D)
      → AllFilled s.panics objv
      → Good s a w
      → Post s (λ _. Inv s) (configure_set env command a objv w)
  unfolding configure_set fail_with
  configure_set-Inv command a objv w filled g =
      carry s (Good s a) (λ _. Inv s) (set_options env a (drop 2 objv) w) _
        (set_options-Good none a (drop 2 objv) w (drop-AllFilled s.panics 2 objv filled) g)
        λ r w' g'. elim (Option-cases r) [
          | inl missing ↦ rw missing g'.0
          | inr (v, found) ↦ rw found g'.0
        ]

  pub configure_handle-Inv :
      (command : Bytes) (objv : List Obj) (a : ℕ) (w : World D)
      → AllFilled s.panics objv
      → Good s a w
      → Post s (λ _. Inv s) (configure_handle env command objv a w)
  unfolding configure_handle
  configure_handle-Inv command objv a w filled g = elim (Bool-cases (length objv == 2)) [
    | inl all ↦ rw (all, configure_handle) (configure_all-Inv command a w g)
    | inr more ↦
        rw (more, configure_handle)
          (elim (Bool-cases (length objv == 3)) [
            | inl one ↦
                let (o, found) = get_elem?_below 2 objv (ground arith) in
                rw (one, configure_handle)
                  (rw (found, configure_handle)
                    (configure_one-Inv command a o.str w
                      (get-AllFilled s.panics 2 objv o filled found) g))
            | inr set ↦ rw (set, configure_handle) (configure_set-Inv command a objv w filled g)
          ])
  ]
