-- ===== src/Configuring/Sequence.antt =====
-- generic/dtrace.c, Configure: what a list of options and values does, one by one.
use tcldtrace.Prelude.{
  ℕ, ◌≡◌, refl, true, false, Option, none, some, List, [], ◌∷◌, ◌++◌, Bytes, text, length, ◌==◌,
  arith,
}
use tcldtrace.State.{Obj, World, Out, Code, str, tcl_ok, tcl_error, done}
use tcldtrace.Api.{Env}
use tcldtrace.Helpers.Options.{set_option}
use tcldtrace.Helpers.Checks.{fail_with, error_class}
use tcldtrace.Commands.Open.{set_options}
use tcldtrace.Commands.Configure.{configure_set, configure_handle}

-- The words of options with their values.
abbrev pub words : List (Obj × Obj) → List Obj
words [] = []
words ((option, value) ∷ rest) = option ∷ value ∷ words rest

module _ {D : Type 0} (env : Env D) (a : ℕ) where
  -- Options set one by one, in their order: all of them, or those before the first that is refused.
  pub data Sets : List (Obj × Obj) → World D → Option Obj → World D → Type 0 where
    all_set : (w : World D) → Sets [] w none w
    one_set :
        {w v w' : World D} {rest : List (Obj × Obj)} {refused : Option Obj} (option value : Obj)
        → set_option env a option.str value.str w ≡ done true v
        → Sets rest v refused w'
        → Sets ((option, value) ∷ rest) w refused w'
    one_refused :
        {w w' : World D} (option value : Obj) (rest : List (Obj × Obj))
        → set_option env a option.str value.str w ≡ done false w'
        → Sets ((option, value) ∷ rest) w (some option) w'

  -- The option at which `set_options` stops.
  named : Option Obj → Option Bytes
  named none = none
  named (some option) = some option.str

  set_options-Sets :
      (pairs : List (Obj × Obj)) (refused : Option Obj) (w w' : World D)
      → Sets pairs w refused w'
      → set_options env a (words pairs) w ≡ done (named refused) w'
  unfolding set_options named
  set_options-Sets ps refused w w' (all_set v) = refl
  set_options-Sets ps refused w w' (one_set {v = v} {rest = rest} option value good sets) =
      rw (good, set_options) (set_options-Sets rest refused v w' sets)
  set_options-Sets ps refused w w' (one_refused option value rest bad) = rw (bad, set_options) refl

  -- What the user is told.
  pub answered : Bytes → Option Obj → World D → Out D Code
  unfolding text
  answered command none w = done tcl_ok w
  answered command (some option) w = done tcl_error (record w {
    result =
        str (env.get_string w.result ++ (command ++ (text " bad option change " ++ option.str)));
    error_code = error_class (text "OPTION");
  })

  -- A list of options that is not empty has neither two words nor three.
  configure_handle-set :
      (command : Bytes) (c handle option value : Obj) (rest : List Obj)
      → configure_handle env command (c ∷ handle ∷ option ∷ value ∷ rest) a
        ≡ configure_set env command a (c ∷ handle ∷ option ∷ value ∷ rest)
  unfolding configure_handle
  configure_handle-set command c handle option value rest =
      let many : length (c ∷ handle ∷ option ∷ value ∷ rest) == 2 ≡ false = ground arith in
      let more : length (c ∷ handle ∷ option ∷ value ∷ rest) == 3 ≡ false = ground arith in
      rw (many, configure_handle) (rw (more, configure_handle) refl)

  configure_set-answered :
      (command : Bytes) (c handle : Obj) (rest : List Obj) (refused : Option Obj) (w w' : World D)
      → set_options env a rest w ≡ done (named refused) w'
      → configure_set env command a (c ∷ handle ∷ rest) w ≡ answered command refused w'
  unfolding configure_set fail_with answered named
  configure_set-answered command c handle rest none w w' e = rw (e, configure_set) refl
  configure_set-answered command c handle rest (some option) w w' e = rw (e, configure_set) refl

  -- Where the options of a list that is not empty can be set one by one, Configure with them leaves
  -- the state after the last and succeeds. Where one is refused, it fails with an error that names
  -- that option and leaves the state after the refusal: those before it stay set, and those behind it
  -- are not tried.
  pub configure_handle-Sets :
      (command : Bytes) (c handle option value : Obj) (pairs : List (Obj × Obj))
      (refused : Option Obj) (w w' : World D)
      → Sets ((option, value) ∷ pairs) w refused w'
      → configure_handle env command (c ∷ handle ∷ words ((option, value) ∷ pairs)) a w
        ≡ answered command refused w'
  configure_handle-Sets command c handle option value pairs refused w w' sets =
      rw (configure_handle-set command c handle option value (words pairs)) (
        configure_set-answered command c handle (words ((option, value) ∷ pairs)) refused w w'
          (set_options-Sets ((option, value) ∷ pairs) refused w w' sets))
