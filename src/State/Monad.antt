-- ===== src/State/Monad.antt =====
-- A computation of the extension: it returns, stops the process by `Tcl_Panic`, or does what C leaves
-- undefined, such as a read through a dangling pointer.
use tcldtrace.Prelude.{
  ℕ, ◌+◌, ◌-◌, List, Option, none, some, Bytes, ◌==◌, if◌then◌else◌, lookup, insert, get_elem?,
}
use tcldtrace.State.Objects.{Obj, Value}
use tcldtrace.State.Records.{World, HandleData}

pub data Out (D : Type 0) (A : Type 0) : Type 0 where
  done : A → World D → Out D A
  panic : Bytes → Out D A
  fault : Out D A

abbrev pub M : Type 0 → Type 0 → Type 0
M D A = World D → Out D A

module _ {D : Type 0} where
  abbrev pub bind : {A B : Type 0} → Out D A → (A → M D B) → Out D B
  bind (done a w) f = f a w
  bind (panic m) f = panic m
  bind fault f = fault

  abbrev pub pure : {A : Type 0} → A → M D A
  pure a w = done a w

  abbrev pub gets : {A : Type 0} → (World D → A) → M D A
  gets f w = done (f w) w

  abbrev pub modify : (World D → World D) → M D (Unit {0})
  modify f w = done tt (f w)

  abbrev pub tcl_panic : {A : Type 0} → Bytes → M D A
  tcl_panic m w = panic m

  abbrev pub undefined : {A : Type 0} → M D A
  undefined w = fault

abbrev pub bump : (ℕ → ℕ) → ℕ → ℕ → ℕ
bump f k n = if k == n then f n + 1 else f n

abbrev pub drop_one : (ℕ → ℕ) → ℕ → ℕ → ℕ
drop_one f k n = if k == n then f n - 1 else f n

infixl 5 ◌>>=◌ ◌>>◌
abbrev pub ◌>>=◌ : {D A B : Type 0} → M D A → (A → M D B) → M D B
◌>>=◌ m f w = bind (m w) f

abbrev pub ◌>>◌ : {D B : Type 0} → M D (Unit {0}) → M D B → M D B
◌>>◌ m k w = bind (m w) (λ _. k)

module _ {D : Type 0} where
  -- A pointer that is followed without a test.
  abbrev pub deref : {A : Type 0} → Option A → M D A
  deref none = undefined
  deref (some a) = pure a

  -- Reads and writes the `handle_data` at an address, which must be live.
  abbrev pub load : ℕ → M D HandleData
  load a w = deref (lookup a w.heap) w

  abbrev pub store : ℕ → HandleData → M D (Unit {0})
  store a hd w = elim (lookup a w.heap) [
    | none ↦ fault
    | some _ ↦ done tt (record w { heap = insert a hd w.heap })
  ]

  -- `hd->handle`, as the code hands it to libdtrace.
  abbrev pub handle_of : ℕ → M D ℕ
  handle_of a = do hd ← load a; deref hd.handle

  -- `objv[i]`
  abbrev pub arg : List Obj → ℕ → M D Obj
  arg objv i = deref (get_elem? objv i)

  abbrev pub set_result : Value → M D (Unit {0})
  set_result v = modify (λ w. record w { result = v })

  -- `Tcl_SetErrorCode`
  abbrev pub set_error_code : List Bytes → M D (Unit {0})
  set_error_code c = modify (λ w. record w { error_code = c })

  -- `Tcl_IncrRefCount` and `Tcl_DecrRefCount` of an object's count. The objects' own memory is not
  -- modelled: at 0, where Tcl frees the object, the count stays.
  abbrev pub incr_ref : Obj → M D (Unit {0})
  incr_ref o = modify (λ w. record w { refs = bump w.refs o.ident })

  abbrev pub decr_ref : Obj → M D (Unit {0})
  decr_ref o = modify (λ w. record w { refs = drop_one w.refs o.ident })
