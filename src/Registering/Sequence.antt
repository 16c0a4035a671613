-- ===== src/Registering/Sequence.antt =====
-- generic/dtrace.c, Go: callbacks registered one by one, and what becomes of those before a bad one.
use tcldtrace.Prelude.{
  ℕ, ◌<◌, ◌≡◌, refl, ◌≢◌, none, some, List, [], ◌∷◌, ◌++◌, lookup, length, text, ◌∙◌,
}
use tcldtrace.State.{Obj, Value, str, HandleData, World, done, tcl_error, parsed, refused}
use tcldtrace.Api.{Env}
use tcldtrace.Helpers.Checks.{fail_with, error_class}
use tcldtrace.Commands.Open.{callbacks_count}
use tcldtrace.Commands.Tracing.{
  register_callbacks, callback_names, callback_spec, bad_spec, go_handle,
}
use tcldtrace.Configuring.Sequence.{words}
use tcldtrace.Registering.{registered, register_callback-registered}

module _ {D : Type 0} (env : Env D) (a : ℕ) where
  -- Pairs of a callback's name and its list, each good, entered in their order.
  pub data Enters : List (Obj × Obj) → World D → World D → Type 0 where
    nothing : (w : World D) → Enters [] w w
    entered :
        {w v : World D} {rest : List (Obj × Obj)} (name spec : Obj) (k : ℕ) (proc extra : Obj)
        (hd : HandleData)
        → env.get_index name callback_names (text "callback name") ≡ parsed k
        → env.get_elements spec ≡ parsed (proc ∷ extra ∷ [])
        → k < callbacks_count
        → lookup a w.heap ≡ some hd
        → Enters rest (registered a hd k proc extra w) v
        → Enters ((name, spec) ∷ rest) w v

  -- A pair that Go refuses: a name that is no callback's, a text that is no list, or a list that has
  -- not two elements.
  pub data IsBad (name spec : Obj) : Type 0 where
    bad_name :
        (message : List ℕ)
        → env.get_index name callback_names (text "callback name") ≡ refused message
        → IsBad name spec
    bad_list :
        (k : ℕ) (message : List ℕ)
        → env.get_index name callback_names (text "callback name") ≡ parsed k
        → env.get_elements spec ≡ refused message
        → IsBad name spec
    bad_length :
        (k : ℕ) (elements : List Obj)
        → env.get_index name callback_names (text "callback name") ≡ parsed k
        → env.get_elements spec ≡ parsed elements
        → length elements ≢ 2
        → IsBad name spec

  callback_spec-none : (l : List Obj) → length l ≢ 2 → callback_spec l ≡ none
  unfolding callback_spec
  callback_spec-none [] n = refl
  callback_spec-none (x ∷ []) n = refl
  callback_spec-none (x ∷ y ∷ []) n = absurd (n refl)
  callback_spec-none (x ∷ y ∷ z ∷ l) n = refl

  register_callbacks-bad :
      (name spec : Obj) (rest : List Obj) (w : World D)
      → IsBad name spec
      → (result : Value) × (register_callbacks env a (name ∷ spec ∷ rest) w
          ≡ done tcl_error (record w { result = result; error_code = error_class (text "USAGE") }))
  unfolding register_callbacks bad_spec fail_with
  register_callbacks-bad name spec rest w (bad_name message n) =
      (str message, rw (n, register_callbacks) refl)
  register_callbacks-bad name spec rest w (bad_list k message n s) = (
    str (env.get_string (str message) ++ text "callback spec should be {proc {?arg0 arg1 ...?}}"),
    rw (n, register_callbacks) (rw (s, register_callbacks) refl),
  )
  register_callbacks-bad name spec rest w (bad_length k l n s wrong) = (
    str (env.get_string w.result ++ text "callback spec should be {proc {?arg0 arg1 ...?}}"),
    rw (n, register_callbacks)
        (rw (s, register_callbacks) (rw (callback_spec-none l wrong, register_callbacks) refl)),
  )

  register_callbacks-Enters :
      (good : List (Obj × Obj)) (rest : List Obj) (w v : World D)
      → Enters good w v
      → (register_callbacks env a (words good ++ rest) w ≡ register_callbacks env a rest v)
        × (v.lib ≡ w.lib)
  unfolding register_callbacks callback_spec registered
  register_callbacks-Enters g rest w v (nothing u) = (refl, refl)
  register_callbacks-Enters g rest w v
        (entered {rest = more} name spec k proc extra hd n s known e enters) =
      let (on, same) =
        register_callbacks-Enters more rest (registered a hd k proc extra w) v enters in
      (
        rw (n, register_callbacks)
            (rw (s, register_callbacks)
              (rw
                (
                  (register_callback-registered env a k proc extra hd w known e).0,
                  register_callbacks,
                )
                on)),
        same,
      )

  -- On a live structure, where some pairs of words are good and the next has no known callback, no list
  -- or a list of another length than two: Go fails with the code of a usage error and some message. The
  -- pairs before the bad one stay registered, with their references counted, those behind it are not
  -- looked at, and libdtrace is not called.
  pub go_handle-Enters :
      (command : List ℕ) (c handle name spec : Obj) (good : List (Obj × Obj)) (rest : List Obj)
      (w v : World D)
      → Enters good w v
      → IsBad name spec
      → (v.lib ≡ w.lib)
        × ((result : Value) × (go_handle env command
                (c ∷ handle ∷ (words good ++ (name ∷ spec ∷ rest)))
                a
                w
              ≡ done tcl_error
                  (record v { result = result; error_code = error_class (text "USAGE") })))
  unfolding go_handle
  go_handle-Enters command c handle name spec good rest w v enters bad =
      let (on, same) = register_callbacks-Enters good (name ∷ spec ∷ rest) w v enters in
      let (result, stops) = register_callbacks-bad name spec rest v bad in
      (same, (result, rw (on ∙ stops, go_handle) refl))
