-- ===== src/Footprint/Serving.antt =====
-- What generic/dtrace.c relies on in what calls back, as to the owners of the open libdtrace handles,
-- whatever the scripts that the callbacks evaluate do to the tables.
use tcldtrace.Prelude.{ℕ, ◌≡◌, inl, inr, Bool, Option, none, some, List, lookup, Option-cases}
use tcldtrace.State.{Value, HandleData, World, Out, M, bind, store, deref, handle_of}
use tcldtrace.Api.{Env, ProbeDesc, StmtDesc, Call, Reply}
use tcldtrace.Footprint.{Ok, Ok-bind}
use tcldtrace.Footprint.Owners.{OwnedIn, write-Owned}

-- A predicate on the state that does not change while the same handles are open.
abbrev pub IsSteady : {D : Type 0} → (ℕ → D → Bool) → (World D → Type 0) → Type 0
IsSteady {D} live P =
    (w : World D) (d : D) → ((k : ℕ) → live k d ≡ live k w.lib) → P w → P (record w { lib = d })

-- What libdtrace documents of its functions that call back: that they open and
-- close no handle, and reach the state only by calling back.
pub record CallingLaws {D : Type 0} (env : Env D) (live : ℕ → D → Bool) : Type 1 where
  pub sleep :
      (h : ℕ) (call : Call → M D Reply) (P : World D → Type 0)
      → IsSteady live P
      → ((c : Call) (w : World D) → P w → Ok (λ _. P) (call c w))
      → (w : World D) → P w
      → Ok (λ _. P) (env.dtrace_sleep h call w)
  pub work :
      (h : ℕ) (call : Call → M D Reply) (P : World D → Type 0)
      → IsSteady live P
      → ((c : Call) (w : World D) → P w → Ok (λ _. P) (call c w))
      → (w : World D) → P w
      → Ok (λ _. P) (env.dtrace_work h call w)
  pub print :
      (h : ℕ) (call : Call → M D Reply) (P : World D → Type 0)
      → IsSteady live P
      → ((c : Call) (w : World D) → P w → Ok (λ _. P) (call c w))
      → (w : World D) → P w
      → Ok (λ _. P) (env.dtrace_aggregate_print h call w)
  pub stmt_iter :
      (h program : ℕ) (call : StmtDesc → Option ℕ → M D (Option ℕ)) (last : Option ℕ)
      (P : World D → Type 0)
      → IsSteady live P
      → ((st : StmtDesc) (l : Option ℕ) (w : World D) → P w → Ok (λ _. P) (call st l w))
      → (w : World D) → P w
      → Ok (λ _. P) (env.dtrace_stmt_iter h program call last w)
  pub probe_iter :
      (h : ℕ) (pdesc : ProbeDesc) (call : ProbeDesc → M D Reply) (P : World D → Type 0)
      → IsSteady live P
      → ((d : ProbeDesc) (w : World D) → P w → Ok (λ _. P) (call d w))
      → (w : World D) → P w
      → Ok (λ _. P) (env.dtrace_probe_iter h pdesc call w)

-- That the scripts which the callbacks evaluate leave each open handle one owner.
abbrev pub IsTidy : {D : Type 0} → Env D → (ℕ → D → Bool) → Type 0
IsTidy {D} env live =
    (objv : List Value) (w : World D)
    → OwnedIn live w
    → Ok (λ _. OwnedIn live) (env.eval_objv objv w)

module _ {D : Type 0} (live : ℕ → D → Bool) where
  -- A computation whose result, if there is one, leaves each open handle one owner.
  abbrev pub Keeps : {A : Type 0} → Out D A → Type 0
  Keeps m = Ok (λ _. OwnedIn live) m

  pub Keeps-bind :
      {A B : Type 0} (m : Out D A) (f : A → M D B)
      → Keeps m
      → ((a : A) (w : World D) → OwnedIn live w → Keeps (f a w))
      → Keeps (bind m f)
  Keeps-bind m f q k = Ok-bind (λ _. OwnedIn live) (λ _. OwnedIn live) m f q k

  pub Keeps-deref :
      {A B : Type 0} (o : Option A) (f : A → M D B) (w : World D)
      → ((x : A) → Keeps (f x w))
      → Keeps (bind (deref o w) f)
  Keeps-deref none f w k = tt
  Keeps-deref (some x) f w k = k x

  -- A structure with a handle, rewritten with the same handle.
  pub Keeps-store :
      (a : ℕ) (hd new : HandleData) (w : World D)
      → OwnedIn live w
      → lookup a w.heap ≡ some hd
      → new.handle ≡ hd.handle
      → Keeps (store a new w)
  Keeps-store a hd new w o l same =
      let (h, e, up) = o.backed a hd l in
      rw (l, store)
        (write-Owned live w.handles a h new w.heap w.lib w.next_free_id (cc) (hd, l, e) o)

  pub Keeps-handle_of :
      {B : Type 0} (a : ℕ) (f : ℕ → M D B) (w : World D)
      → ((h : ℕ) → Keeps (f h w))
      → Keeps (bind (handle_of a w) f)
  Keeps-handle_of a f w k = elim (Option-cases (lookup a w.heap)) [
    | inl gone ↦ rw (gone, handle_of) tt
    | inr (hd, l) ↦ elim (Option-cases hd.handle) [
      | inl shut ↦ rw (l, handle_of) (rw (shut, handle_of) tt)
      | inr (h, e) ↦ rw (l, handle_of) (rw (e, handle_of) (k h))
    ]
  ]
