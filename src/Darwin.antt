-- ===== src/Darwin.antt =====
-- darwin/arch.h: the names of the processor types, and which of them differ in byte order. The values
-- of the `CPU_TYPE_*` constants are those of <mach/machine.h>.
use tcldtrace.Prelude.{
  ◌≡◌, refl, ◌≢◌, ◌↔◌, inl, inr, Bool, true, false, ◌||◌, Option, none, some, Bytes, ℤ, eq_ℤ, pos,
  negsuc, text, bytes_eq, eq_of_bytes_eq, if◌then◌else◌, Bool-cases, arith, sym, ◌∙◌, ap,
}

pub record CpuTypes : Type 0 where
  pub i386 : ℤ
  pub x86_64 : ℤ
  pub powerpc : ℤ
  pub powerpc64 : ℤ

-- The labels of a `switch` differ, and none is the 0 that stands for an unknown name.
pub record IsDistinct (t : CpuTypes) : Type 0 where
  pub second : eq_ℤ t.x86_64 t.i386 ≡ false
  pub third : (eq_ℤ t.powerpc t.i386 ≡ false) × (eq_ℤ t.powerpc t.x86_64 ≡ false)
  pub fourth :
      (eq_ℤ t.powerpc64 t.i386 ≡ false)
      × (eq_ℤ t.powerpc64 t.x86_64 ≡ false)
      × (eq_ℤ t.powerpc64 t.powerpc ≡ false)
  pub nonzero : (t.i386 ≢ pos 0) × (t.x86_64 ≢ pos 0) × (t.powerpc ≢ pos 0) × (t.powerpc64 ≢ pos 0)

module _ (t : CpuTypes) where
  -- `none` is `NULL`.
  unfoldable pub string_for_arch : ℤ → Option Bytes
  string_for_arch arch =
      if eq_ℤ arch t.i386
      then some (text "i386")
      else (if eq_ℤ arch t.x86_64
          then some (text "x86_64")
          else (if eq_ℤ arch t.powerpc
              then some (text "ppc")
              else (if eq_ℤ arch t.powerpc64 then some (text "ppc64") else none)))

  unfoldable pub arch_for_string : Bytes → ℤ
  unfolding bytes_eq
  arch_for_string string =
      if bytes_eq string (text "i386")
      then t.i386
      else (if bytes_eq string (text "x86_64")
          then t.x86_64
          else (if bytes_eq string (text "ppc")
              then t.powerpc
              else (if bytes_eq string (text "ppc64") then t.powerpc64 else pos 0)))

  unfoldable pub needs_swapping : ℤ → ℤ → Bool
  needs_swapping a b =
      if eq_ℤ a t.i386 || eq_ℤ a t.x86_64
      then eq_ℤ b t.powerpc || eq_ℤ b t.powerpc64
      else (if eq_ℤ a t.powerpc || eq_ℤ a t.powerpc64
          then eq_ℤ b t.i386 || eq_ℤ b t.x86_64
          else false)

eq_ℤ_refl : (a : ℤ) → eq_ℤ a a ≡ true
eq_ℤ_refl (pos n) = ground arith
eq_ℤ_refl (negsuc n) = ground arith

eq_of_eq_ℤ : (a b : ℤ) → eq_ℤ a b ≡ true → a ≡ b
eq_of_eq_ℤ (pos m) (pos n) e = ap pos (ground arith)
eq_of_eq_ℤ (pos m) (negsuc n) e = absurd (cc)
eq_of_eq_ℤ (negsuc m) (pos n) e = absurd (cc)
eq_of_eq_ℤ (negsuc m) (negsuc n) e = ap negsuc (ground arith)

apart : (a c e : ℤ) → eq_ℤ a c ≡ true → eq_ℤ e c ≡ false → eq_ℤ a e ≡ false
apart a c e here other = elim (Bool-cases (eq_ℤ a e)) [
  | inl there ↦
      let at : e ≡ c = sym (eq_of_eq_ℤ a e there) ∙ eq_of_eq_ℤ a c here in
      let same : eq_ℤ e c ≡ true = ap (eq_ℤ e) (sym at) ∙ eq_ℤ_refl e in absurd (cc)
  | inr differs ↦ differs
]

module _ (t : CpuTypes) (d : IsDistinct t) where
  -- The four names and their types.
  named :
      (string_for_arch t t.i386 ≡ some (text "i386"))
      × (string_for_arch t t.x86_64 ≡ some (text "x86_64"))
      × (string_for_arch t t.powerpc ≡ some (text "ppc"))
      × (string_for_arch t t.powerpc64 ≡ some (text "ppc64"))
  unfolding string_for_arch
  named = (
    rw (eq_ℤ_refl t.i386, string_for_arch) refl,
    rw (d.second, string_for_arch) (rw (eq_ℤ_refl t.x86_64, string_for_arch) refl),
    rw (d.third.0, string_for_arch)
        (rw (d.third.1, string_for_arch) (rw (eq_ℤ_refl t.powerpc, string_for_arch) refl)),
    rw (d.fourth.0, string_for_arch)
        (rw (d.fourth.1, string_for_arch)
          (rw (d.fourth.2, string_for_arch) (rw (eq_ℤ_refl t.powerpc64, string_for_arch) refl))),
  )

  typed :
      (arch_for_string t (text "i386") ≡ t.i386)
      × (arch_for_string t (text "x86_64") ≡ t.x86_64)
      × (arch_for_string t (text "ppc") ≡ t.powerpc)
      × (arch_for_string t (text "ppc64") ≡ t.powerpc64)
  unfolding arch_for_string bytes_eq text
  typed = (refl, refl, refl, refl)

  string_of :
      (a : ℤ) (s : Bytes) → string_for_arch t a ≡ some s → (arch_for_string t s ≡ a) × (a ≢ pos 0)
  unfolding string_for_arch
  string_of a s e = elim (Bool-cases (eq_ℤ a t.i386)) [
    | inl first ↦ is t.i386 (text "i386") first typed.0 d.nonzero.0 (rw first refl)
    | inr not_first ↦ elim (Bool-cases (eq_ℤ a t.x86_64)) [
      | inl second ↦
          is t.x86_64 (text "x86_64") second typed.1 d.nonzero.1 (rw not_first (rw second refl))
      | inr not_second ↦ elim (Bool-cases (eq_ℤ a t.powerpc)) [
        | inl third ↦
            is t.powerpc (text "ppc") third typed.2 d.nonzero.2
              (rw not_first (rw not_second (rw third refl)))
        | inr not_third ↦ elim (Bool-cases (eq_ℤ a t.powerpc64)) [
          | inl fourth ↦
              is t.powerpc64 (text "ppc64") fourth typed.3 d.nonzero.3
                (rw not_first (rw not_second (rw not_third (rw fourth refl))))
          | inr unknown ↦
              let none_there : string_for_arch t a ≡ none =
                rw not_first (rw not_second (rw not_third (rw unknown refl))) in
              absurd (cc)
        ]
      ]
    ]
  ]
    where
      is :
          (c : ℤ) (name : Bytes)
          → eq_ℤ a c ≡ true
          → arch_for_string t name ≡ c
          → c ≢ pos 0
          → string_for_arch t a ≡ some name
          → (arch_for_string t s ≡ a) × (a ≢ pos 0)
      is c name same back nonzero forth =
          let at : a ≡ c = eq_of_eq_ℤ a c same in
          let names : name ≡ s = cc in (cc, λ z. nonzero (sym at ∙ z))

  of_string :
      (a : ℤ) (s : Bytes) → arch_for_string t s ≡ a → a ≢ pos 0 → string_for_arch t a ≡ some s
  unfolding arch_for_string
  of_string a s e nonzero = elim (Bool-cases (bytes_eq s (text "i386"))) [
    | inl first ↦ is t.i386 (text "i386") first named.0 (rw first refl)
    | inr not_first ↦ elim (Bool-cases (bytes_eq s (text "x86_64"))) [
      | inl second ↦ is t.x86_64 (text "x86_64") second named.1 (rw not_first (rw second refl))
      | inr not_second ↦ elim (Bool-cases (bytes_eq s (text "ppc"))) [
        | inl third ↦
            is t.powerpc (text "ppc") third named.2 (rw not_first (rw not_second (rw third refl)))
        | inr not_third ↦ elim (Bool-cases (bytes_eq s (text "ppc64"))) [
          | inl fourth ↦
              is t.powerpc64 (text "ppc64") fourth named.3
                (rw not_first (rw not_second (rw not_third (rw fourth refl))))
          | inr unknown ↦
              let zero_there : arch_for_string t s ≡ pos 0 =
                rw not_first (rw not_second (rw not_third (rw unknown refl))) in
              absurd (nonzero (sym e ∙ zero_there))
        ]
      ]
    ]
  ]
    where
      is :
          (c : ℤ) (name : Bytes)
          → bytes_eq s name ≡ true
          → string_for_arch t c ≡ some name
          → arch_for_string t s ≡ c
          → string_for_arch t a ≡ some s
      is c name same forth back =
          let names : s ≡ name = eq_of_bytes_eq s name same in
          let at : a ≡ c = cc in ap (string_for_arch t) at ∙ forth ∙ ap some (sym names)

  -- Where the processor types differ and none is 0: a type has a name exactly if the name leads back to
  -- the type and the type is not the 0 that an unknown name gets.
  pub string_for_arch-arch_for_string :
      (a : ℤ) (s : Bytes)
      → (string_for_arch t a ≡ some s) ↔ ((arch_for_string t s ≡ a) × (a ≢ pos 0))
  string_for_arch-arch_for_string a s = (string_of a s, λ (e, nonzero). of_string a s e nonzero)

  -- No type is of both byte orders.
  exclusive :
      (a : ℤ)
      → (eq_ℤ a t.i386 || eq_ℤ a t.x86_64) ≡ true
      → (eq_ℤ a t.powerpc || eq_ℤ a t.powerpc64) ≡ false
  exclusive a little = elim (Bool-cases (eq_ℤ a t.i386)) [
    | inl first ↦ ground (
      arith,
      apart a t.i386 t.powerpc first d.third.0,
      apart a t.i386 t.powerpc64 first d.fourth.0,
    )
    | inr not_first ↦
        let second : eq_ℤ a t.x86_64 ≡ true = ground arith in
        ground (
          arith,
          apart a t.x86_64 t.powerpc second d.third.1,
          apart a t.x86_64 t.powerpc64 second d.fourth.1,
        )
  ]

  -- Where the processor types differ: which of two comes first makes no difference to whether data have
  -- to be swapped between them.
  pub needs_swapping_comm : (a b : ℤ) → needs_swapping t a b ≡ needs_swapping t b a
  unfolding needs_swapping
  needs_swapping_comm a b = ground (arith, exclusive a, exclusive b)
