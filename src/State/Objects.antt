-- ===== src/State/Objects.antt =====
-- Tcl values, as the extension builds and receives them.
use tcldtrace.Prelude.{◌≡◌, refl, ◌⊎◌, inl, inr, ℕ, List, [], ◌∷◌, Bytes, ℤ}

-- An object that the interpreter hands over, `Tcl_Obj *`: who it is, and its string.
pub record Obj : Type 0 where
  pub ident : ℕ
  pub str : Bytes

-- An object in an argument vector or a result: one handed over, or one made by `Tcl_NewStringObj`,
-- `Tcl_NewIntObj` and `Tcl_NewListObj`.
mutual
  pub data Value : Type 0 where
    given : Obj → Value
    str : Bytes → Value
    int : ℤ → Value
    list : Values → Value

  pub data Values : Type 0 where
    nil : Values
    cons : Value → Values → Values

abbrev pub values : List Value → Values
values [] = nil
values (v ∷ vs) = cons v (values vs)

-- The completion codes of a command.
pub data Code : Type 0 where
  tcl_ok tcl_error : Code

-- What a Tcl conversion gives: the value, or the message that it leaves as the result.
pub data Parsed {ℓ} (A : Type ℓ) : Type ℓ where
  parsed : A → Parsed A
  refused : Bytes → Parsed A

pub Parsed-cases {ℓ} :
    {A : Type ℓ} (r : Parsed A) → ((m : Bytes) × (r ≡ refused m)) ⊎ ((a : A) × (r ≡ parsed a))
Parsed-cases (parsed a) = inr (a, refl)
Parsed-cases (refused m) = inl (m, refl)
