-- ===== src/Footprint/Helpers.antt =====
-- The helpers of generic/dtrace.c, on a structure with an open handle, act on nothing else.
use tcldtrace.Prelude.{
  ℕ, inl, inr, List, [], ◌∷◌, Bytes, Bool-cases, Option-cases, length, ◌==◌, get_elem?, drop,
}
use tcldtrace.State.{Obj, World, store}
use tcldtrace.Api.{Env}
use tcldtrace.Helpers.Checks.{fail_with, lib_error}
use tcldtrace.Helpers.Options.{get_option, get_library_option, set_option, internal_option, rest_of}
use tcldtrace.Commands.Open.{set_options}
use tcldtrace.Commands.Configure.{
  basic_options, get_options, configure_all, configure_one, configure_set, configure_handle,
}
use tcldtrace.Footprint.{
  setopt, Acts, calls, writes, says, IsHeld, Acts-IsHeld, Acts-handle_of, Ok, Ok-bind,
}

module _ {D : Type 0} (env : Env D) (a h : ℕ) (w : World D) (open_at : IsHeld a h w) where
  abbrev pub Within : World D → Type 0
  Within = Acts env a h w

  pub fail_with-Within :
      (message : Bytes) (code : List Bytes) (v : World D)
      → Within v
      → Ok (λ _. Within) (fail_with env message code v)
  unfolding fail_with
  fail_with-Within message code v t = says _ code t

  pub lib_error-Within :
      (command : Bytes) (v : World D) → Within v → Ok (λ _. Within) (lib_error env command a v)
  unfolding lib_error fail_with
  lib_error-Within command v t = rw (Acts-handle_of open_at t, lib_error) (says _ _ t)

  rest_of-Within : (option : Bytes) (v : World D) → Within v → Ok (λ _. Within) (rest_of option v)
  rest_of-Within [] v t = tt
  rest_of-Within (c ∷ cs) v t = t

  pub set_option-Within :
      (option value : Bytes) (v : World D)
      → Within v
      → Ok (λ _. Within) (set_option env a option value v)
  unfolding set_option
  set_option-Within option value v t = elim (Bool-cases (internal_option option)) [
    | inl own ↦
        let (hd, l, e) = Acts-IsHeld open_at t in
        rw (own, set_option) (rw (l, set_option) (rw (l, store) (writes _ t e)))
    | inr other ↦
        rw (other, set_option)
          (rw (Acts-handle_of open_at t, set_option)
            (Ok-bind (λ _. Within) (λ _. Within) (rest_of option v) _ (rest_of-Within option v t)
              (λ name u q. calls q (setopt name value))))
  ]

  pub get_option-Within :
      (option : Bytes) (v : World D) → Within v → Ok (λ _. Within) (get_option env a option v)
  unfolding get_option get_library_option
  get_option-Within option v t = elim (Bool-cases (internal_option option)) [
    | inl own ↦
        let (hd, l, e) = Acts-IsHeld open_at t in rw (own, get_option) (rw (l, get_option) t)
    | inr other ↦
        rw (other, get_option)
          (rw (Acts-handle_of open_at t, get_library_option)
            (Ok-bind (λ _. Within) (λ _. Within) (rest_of option v) _ (rest_of-Within option v t)
              (λ name u q. q)))
  ]

  pub set_options-Within :
      (objv : List Obj) (v : World D) → Within v → Ok (λ _. Within) (set_options env a objv v)
  unfolding set_options
  set_options-Within [] v t = t
  set_options-Within (option ∷ []) v t = t
  set_options-Within (option ∷ value ∷ rest) v t =
      Ok-bind (λ _. Within) (λ _. Within) (set_option env a option.str value.str v) _
        (set_option-Within option.str value.str v t)
        λ good u q. elim (Bool-cases good) [
          | inl done_well ↦ rw done_well (set_options-Within rest u q)
          | inr bad ↦ rw bad q
        ]

  get_options-Within :
      (options : List Bytes) (v : World D)
      → Within v
      → Ok (λ _. Within) (get_options env a options v)
  unfolding get_options
  get_options-Within [] v t = t
  get_options-Within (option ∷ rest) v t =
      Ok-bind (λ _. Within) (λ _. Within) (get_option env a option v) _
        (get_option-Within option v t)
        λ value u q. elim (Option-cases value) [
          | inl missing ↦ rw missing q
          | inr (x, found) ↦ rw found (
              Ok-bind (λ _. Within) (λ _. Within) (get_options env a rest u) _
                (get_options-Within rest u q)
                λ more u' q'. elim (Option-cases more) [
                  | inl short ↦ rw short q'
                  | inr (xs, whole) ↦ rw whole q'
                ])
        ]

  configure_all-Within :
      (command : Bytes) (v : World D) → Within v → Ok (λ _. Within) (configure_all env command a v)
  unfolding configure_all fail_with
  configure_all-Within command v t =
      Ok-bind (λ _. Within) (λ _. Within) (get_options env a basic_options v) _
        (get_options-Within basic_options v t)
        λ found u q. elim (Option-cases found) [
          | inl missing ↦ rw missing (says _ _ q)
          | inr (xs, whole) ↦ rw whole (says _ _ q)
        ]

  configure_one-Within :
      (command option : Bytes) (v : World D)
      → Within v
      → Ok (λ _. Within) (configure_one env command a option v)
  unfolding configure_one fail_with
  configure_one-Within command option v t =
      Ok-bind (λ _. Within) (λ _. Within) (get_option env a option v) _
        (get_option-Within option v t)
        λ found u q. elim (Option-cases found) [
          | inl missing ↦ rw missing (says _ _ q)
          | inr (x, there) ↦ rw there (says _ _ q)
        ]

  configure_set-Within :
      (command : Bytes) (objv : List Obj) (v : World D)
      → Within v
      → Ok (λ _. Within) (configure_set env command a objv v)
  unfolding configure_set fail_with
  configure_set-Within command objv v t =
      Ok-bind (λ _. Within) (λ _. Within) (set_options env a (drop 2 objv) v) _
        (set_options-Within (drop 2 objv) v t)
        λ bad u q. elim (Option-cases bad) [
          | inl fine ↦ rw fine q
          | inr (option, refused) ↦ rw refused (says _ _ q)
        ]

  pub configure_handle-Within :
      (command : Bytes) (objv : List Obj) (v : World D)
      → Within v
      → Ok (λ _. Within) (configure_handle env command objv a v)
  unfolding configure_handle
  configure_handle-Within command objv v t = elim (Bool-cases (length objv == 2)) [
    | inl all ↦ rw (all, configure_handle) (configure_all-Within command v t)
    | inr more ↦
        rw (more, configure_handle)
          (elim (Bool-cases (length objv == 3)) [
            | inr pairs ↦ rw (pairs, configure_handle) (configure_set-Within command objv v t)
            | inl one ↦
                rw (one, configure_handle)
                  (elim (Option-cases (get_elem? objv 2)) [
                    | inl gone ↦ rw (gone, configure_handle) tt
                    | inr (option, there) ↦
                        rw (there, configure_handle) (configure_one-Within command option.str v t)
                  ])
          ])
  ]
