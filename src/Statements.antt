-- ===== src/Statements.antt =====
-- generic/dtrace.c, List and listStatement: which probes the list callback is called for.
use tcldtrace.Prelude.{
  ◌==◌, arith, subst, ℕ, ◌≡◌, refl, inl, inr, Bool, true, false, Option, none, some, List, [], ◌∷◌,
  lookup, Bool-cases, get_elem?, if◌then◌else◌,
}
use tcldtrace.State.{
  Obj, HandleData, ProgramData, ListArg, World, Out, M, done, panic, fault, bind, pure, tcl_ok,
}
use tcldtrace.Api.{Env, StmtDesc}
use tcldtrace.Callbacks.{is_last, list_probe, list_statement, iteration_result, unmatched}
use tcldtrace.Commands.Programs.{list_handle}

-- A function called on the statements of a program in their order, as `dtrace_stmt_iter` does it, with
-- what it stores in its argument.
unfoldable pub iterate :
    {D : Type 0}
    → (StmtDesc → Option ℕ → M D (Option ℕ))
    → List StmtDesc
    → Option ℕ
    → M D (Option ℕ)
iterate call [] last w = done last w
iterate call (st ∷ sts) last w = bind (call st last w) (iterate call sts)

-- Whether a statement has the enabling of the one before it, if there is one before it.
same_enabling : ℕ → Option ℕ → Bool
same_enabling enabling none = false
same_enabling enabling (some before) = before == enabling

-- The statements without those that directly follow one of the same enabling.
pub without_repeats : Option ℕ → List StmtDesc → List StmtDesc
without_repeats before [] = []
without_repeats before (st ∷ sts) =
    let rest = without_repeats (some st.dtsd_ecbdesc) sts in
    if same_enabling st.dtsd_ecbdesc before then rest else st ∷ rest

is_last-same_enabling :
    (enabling : ℕ) (before : Option ℕ) → is_last enabling before ≡ same_enabling enabling before
unfolding same_enabling
is_last-same_enabling enabling none = refl
is_last-same_enabling enabling (some before) = ground arith

same_enabling-some :
    (enabling : ℕ) (before : Option ℕ)
    → same_enabling enabling before ≡ true
    → before ≡ some enabling
unfolding same_enabling
same_enabling-some enabling none e = absurd (cc)
same_enabling-some enabling (some before) e = let same : before ≡ enabling = ground arith in cc

module _ {D : Type 0} (env : Env D) where
  -- The list callback for the probes of one statement, whatever came before.
  pub visit : ListArg → ℕ → StmtDesc → Option ℕ → M D (Option ℕ)
  visit arg h st last w =
      bind (env.dtrace_probe_iter h st.dted_probe (list_probe env arg) w)
        (iteration_result env h st)

  after_visit :
      (arg : ListArg) (h : ℕ) (st : StmtDesc) (sts : List StmtDesc)
      → ((w : World D)
          → iterate (list_statement env arg h) sts (some st.dtsd_ecbdesc) w
            ≡ iterate
                (visit arg h)
                (without_repeats (some st.dtsd_ecbdesc) sts)
                (some st.dtsd_ecbdesc)
                w)
      → (m : Out D Bool)
      → bind (bind m (iteration_result env h st)) (iterate (list_statement env arg h) sts)
        ≡ bind
            (bind m (iteration_result env h st))
            (iterate (visit arg h) (without_repeats (some st.dtsd_ecbdesc) sts))
  unfolding iteration_result unmatched
  after_visit arg h st sts ih (done true w) = ih w
  after_visit arg h st sts ih (done false w) = refl
  after_visit arg h st sts ih (panic m) = refl
  after_visit arg h st sts ih fault = refl

  iterate-list_statement :
      (arg : ListArg) (h : ℕ) (sts : List StmtDesc) (last : Option ℕ) (w : World D)
      → iterate (list_statement env arg h) sts last w
        ≡ iterate (visit arg h) (without_repeats last sts) last w
  unfolding iterate without_repeats list_statement visit
  iterate-list_statement arg h [] last w = refl
  iterate-list_statement arg h (st ∷ sts) last w =
      elim (Bool-cases (same_enabling st.dtsd_ecbdesc last)) [
        | inl same ↦
            let on = iterate-list_statement arg h sts last w in
            rw (is_last-same_enabling st.dtsd_ecbdesc last, list_statement)
              (rw (same, list_statement)
                (subst
                  (λ l.
                    iterate (list_statement env arg h) sts last w
                    ≡ iterate (visit arg h) (without_repeats l sts) last w)
                  (same_enabling-some st.dtsd_ecbdesc last same) on))
        | inr new ↦
            rw (is_last-same_enabling st.dtsd_ecbdesc last, list_statement)
              (rw (new, list_statement)
                (after_visit arg h st sts
                  (λ v. iterate-list_statement arg h sts (some st.dtsd_ecbdesc) v)
                  (env.dtrace_probe_iter h st.dted_probe (list_probe env arg) w)))
      ]

  -- On an open handle, where libdtrace calls the function for the statements of the program in their
  -- order, List is the visit of every statement but those that directly follow one of the same enabling,
  -- in that order, and then succeeds if every visit returns.
  pub list_handle-without_repeats :
      (objv : List Obj) (proc args : Obj) (pd : ProgramData) (a h : ℕ) (hd : HandleData)
      (sts : List StmtDesc) (w : World D)
      → get_elem? objv 2 ≡ some proc
      → get_elem? objv 3 ≡ some args
      → lookup a w.heap ≡ some hd
      → hd.handle ≡ some h
      → ((call : StmtDesc → Option ℕ → M D (Option ℕ)) (last : Option ℕ) (v : World D)
          → env.dtrace_stmt_iter h pd.compiled call last v ≡ iterate call sts last v)
      → list_handle env objv pd a w
        ≡ bind
            (iterate
              (visit (record { last = none; hd = a; proc = proc; args = args }) h)
              (without_repeats none sts)
              none
              w)
            (λ _. pure tcl_ok)
  unfolding list_handle
  list_handle-without_repeats objv proc args pd a h hd sts w p q e e' iterates =
      let arg : ListArg = record { last = none; hd = a; proc = proc; args = args } in
      rw (p, list_handle)
        (rw (q, list_handle)
          (rw (e, list_handle)
            (rw (e', list_handle)
              (rw (iterates (list_statement env arg h) none w, list_handle)
                (rw (iterate-list_statement arg h sts none w) refl)))))
