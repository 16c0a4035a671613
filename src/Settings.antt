-- ===== src/Settings.antt =====
-- generic/dtrace.c, get_option and set_option: what is set is what is read.
use tcldtrace.Prelude.{
  eq_ℤ, ℕ, ◌≤◌, ◌<◌, ◌≡◌, refl, ◌≢◌, inl, inr, Bool, true, false, some, Bytes, ℤ, pos, arith, text,
  lookup, insert, lookup-insert_self, if◌then◌else◌, Bool-cases, length, length-take, take, ap,
}
use tcldtrace.State.{HandleData, World, Out, done, store}
use tcldtrace.Api.{Env}
use tcldtrace.Text.{snprintf, decimal}
use tcldtrace.Helpers.Options.{internal_option, get_option, set_option, is_zero, shown}
use tcldtrace.Format.Decimal.{read_decimal, read_decimal-snprintf}

-- `foldpdesc` after a value was set
pub folded : Bytes → ℤ
folded value = if is_zero value then pos 0 else pos 1

-- The state with the flag of one structure changed.
pub with_fold : {D : Type 0} → ℕ → HandleData → Bytes → World D → World D
unfolding folded
with_fold a hd value w = record w {
  heap = insert a (record hd { foldpdesc = folded value }) w.heap;
}

module _ {D : Type 0} (env : Env D) where
  -- On a live structure, setting the extension's own option succeeds and changes the flag of that
  -- structure alone, and the option then reads as 0 if the value was the text 0, and as 1
  -- otherwise.
  pub get_option-set_option :
      (a : ℕ) (option value : Bytes) (hd : HandleData) (w : World D)
      → internal_option option ≡ true
      → lookup a w.heap ≡ some hd
      → (set_option env a option value w ≡ done true (with_fold a hd value w))
        × (get_option env a option (with_fold a hd value w)
            ≡ done (some (if is_zero value then text "0" else text "1")) (with_fold a hd value w))
  unfolding set_option get_option with_fold folded decimal snprintf text
  get_option-set_option a option value hd w own e = (
    rw (own, set_option) (rw (e, set_option) (rw (e, store) refl)),
    rw (own, get_option)
        (rw (lookup-insert_self a (record hd { foldpdesc = folded value }) w.heap, get_option)
          (shows (is_zero value))),
  )
    where
      shows :
          (b : Bool)
          → Out.done
              (some (snprintf 12 (decimal (if b then pos 0 else pos 1))))
              (with_fold a hd value w)
            ≡ done (some (if b then text "0" else text "1")) (with_fold a hd value w)
      shows true = refl
      shows false = refl

  -- The text shown for an option of libdtrace whose value has at most eleven characters is that of
  -- the number, and that of 0 for an unset one.
  shown-read_decimal :
      (v : ℤ)
      → length (decimal v) < 12
      → (t : Bytes) × (shown env (some v) ≡ some t)
        × (read_decimal t ≡ (if eq_ℤ v env.dtraceopt_unset then pos 0 else v))
  unfolding shown
  shown-read_decimal v fits = elim (Bool-cases (eq_ℤ v env.dtraceopt_unset)) [
    | inl unset ↦ (
      snprintf 12 (decimal (pos 0)),
      rw unset,
      rw unset (read_decimal-snprintf 12 (pos 0) (unfold decimal in omega arith)),
    )
    | inr set_one ↦
        (snprintf 12 (decimal v), rw set_one, rw set_one (read_decimal-snprintf 12 v fits))
  ]

  -- Any other number of libdtrace than the unset one, where it has twelve characters or more, is
  -- cut to eleven of them and so is not what is read.
  shown-truncates :
      (v : ℤ)
      → 12 ≤ length (decimal v)
      → eq_ℤ v env.dtraceopt_unset ≡ false
      → (t : Bytes) × (shown env (some v) ≡ some t) × (length t ≡ 11) × (t ≢ decimal v)
  unfolding shown snprintf
  shown-truncates v long set_one = (
    take 11 (decimal v),
    rw set_one,
    omega (arith, length-take 11 (decimal v)),
    λ e. absurd (omega (arith, ap length e, length-take 11 (decimal v))),
  )
