-- ===== src/Helpers/Options.antt =====
-- generic/dtrace.c: get_option and set_option, and `internal_option` of generic/dtrace.h.
use tcldtrace.Prelude.{
  ℕ, Bool, true, false, Option, none, some, [], ◌∷◌, Bytes, ℤ, pos, text, bytes_eq, ◌==◌,
  if◌then◌else◌, eq_ℤ,
}
use tcldtrace.State.{Out, M, done, pure, load, store, handle_of, ◌>>=◌, ◌>>◌, gets}
use tcldtrace.Api.{Env, lib}
use tcldtrace.Text.{snprintf, decimal}

unfoldable pub internal_option : Bytes → Bool
internal_option a = bytes_eq a (text "-foldpdesc")

-- `option+1`: past the end of the empty string there is nothing that may be read.
abbrev pub rest_of : {D : Type 0} → Bytes → M D Bytes
rest_of [] w = Out.fault
rest_of (c ∷ cs) w = done cs w

-- `value[0] == '0' && value[1] == 0`
unfoldable pub is_zero : Bytes → Bool
is_zero [] = false
is_zero (c ∷ []) = c == b'0'
is_zero (c ∷ _ ∷ _) = false

module _ {D : Type 0} (env : Env D) where
  -- The text of a value that libdtrace gave; the buffer has 12 bytes.
  unfoldable pub shown : Option ℤ → Option Bytes
  shown none = none
  shown (some opt) =
      some (snprintf 12 (decimal (if eq_ℤ opt env.dtraceopt_unset then pos 0 else opt)))

  -- The branch of `get_option` that asks libdtrace.
  unfoldable pub get_library_option : ℕ → Bytes → M D (Option Bytes)
  unfolding shown
  get_library_option a option = do
    h ← handle_of a
    name ← rest_of option
    opt ← gets (λ w. env.dtrace_getopt h name w.lib)
    pure (shown opt)

  -- `get_option`, from a handle's address: the buffer `value` has 12 bytes; `none` is `NULL`.
  unfoldable pub get_option : ℕ → Bytes → M D (Option Bytes)
  unfolding get_library_option
  get_option a option = elim (internal_option option) [
    | true ↦ do hd ← load a; pure (some (snprintf 12 (decimal hd.foldpdesc)))
    | false ↦ get_library_option a option
  ]

  -- `set_option`: `true` for success.
  unfoldable pub set_option : ℕ → Bytes → Bytes → M D Bool
  unfolding is_zero
  set_option a option value = elim (internal_option option) [
    | true ↦ do
      hd ← load a
      store a (record hd { foldpdesc = if is_zero value then pos 0 else pos 1 })
      pure true
    | false ↦ do h ← handle_of a; name ← rest_of option; lib (env.dtrace_setopt h name value)
  ]
