-- ===== src/Format/Decimal.antt =====
-- The numbers that `snprintf` prints, read back: get_option of generic/dtrace.c shows an option's value
-- whole where it fits into the buffer.
use tcldtrace.Prelude.{
  ℕ, zero, suc, ◌+◌, ◌-◌, ◌*◌, ◌/◌, ◌%◌, ◌≤◌, ◌<◌, ◌≡◌, refl, inl, inr, false, [], ◌∷◌, ◌++◌, Bytes,
  ℤ, pos, negsuc, arith, ltb, ◌==◌, if◌then◌else◌, Bool-cases, length, take_all, ◌∙◌, ap,
}
use tcldtrace.Text.{digits, decimal, snprintf}

-- The value of a row of digits.
pub read_digits : ℕ → Bytes → ℕ
read_digits acc [] = acc
read_digits acc (c ∷ cs) = read_digits (acc * 10 + (c - 48)) cs

-- A decimal number with its sign.
pub read_decimal : Bytes → ℤ
unfolding read_digits
read_decimal [] = pos 0
read_decimal (c ∷ cs) =
    if c == b'-' then negsuc (read_digits 0 cs - 1) else pos (read_digits 0 (c ∷ cs))

read_digits-append :
    (acc : ℕ) (xs ys : Bytes) → read_digits acc (xs ++ ys) ≡ read_digits (read_digits acc xs) ys
unfolding read_digits
read_digits-append acc [] ys = refl
read_digits-append acc (x ∷ xs) ys = read_digits-append (acc * 10 + (x - 48)) xs ys

read_digits-digits : (rounds n : ℕ) → n < rounds → read_digits 0 (digits rounds n) ≡ n
unfolding digits
read_digits-digits zero n h = absurd (omega arith)
read_digits-digits (suc rounds) n h = elim (Bool-cases (ltb n 10)) [
  | inl small ↦ rw small (unfold read_digits in omega arith)
  | inr large ↦
      let big : 10 ≤ n = ground arith in
      rw large (
        read_digits-append 0 (digits rounds (n / 10)) ((48 + n % 10) ∷ [])
        ∙ rw (read_digits-digits rounds (n / 10) (omega arith)) (unfold read_digits in omega arith))
]

-- The first byte of a printed number is a digit.
digits_head :
    (r n : ℕ) → (c : ℕ) × (cs : Bytes) × (digits (suc r) n ≡ c ∷ cs) × ((c == b'-') ≡ false)
unfolding digits
digits_head zero n = elim (Bool-cases (ltb n 10)) [
  | inl small ↦ (48 + n, [], rw small, ground arith)
  | inr large ↦ (48 + n % 10, [], rw large, ground arith)
]
digits_head (suc r) n = elim (Bool-cases (ltb n 10)) [
  | inl small ↦ (48 + n, [], rw small, ground arith)
  | inr large ↦
      let (c, cs, e, digit) = digits_head r (n / 10) in
      (c, cs ++ (48 + n % 10) ∷ [], rw large (ap (λ ds. ds ++ (48 + n % 10) ∷ []) e), digit)
]

-- Whatever number is printed is read back.
pub read_decimal-decimal : (n : ℤ) → read_decimal (decimal n) ≡ n
unfolding decimal read_decimal
read_decimal-decimal (pos n) =
    let (c, cs, e, digit) = digits_head n n in
    rw e (rw digit (rw (← e) (ap pos (read_digits-digits (suc n) n (omega arith)))))
read_decimal-decimal (negsuc n) =
    ap negsuc (omega (arith, read_digits-digits (suc (suc n)) (suc n) (omega arith)))

-- A number whose text fits into the buffer is read back from it.
pub read_decimal-snprintf :
    (size : ℕ) (n : ℤ) → length (decimal n) < size → read_decimal (snprintf size (decimal n)) ≡ n
unfolding snprintf
read_decimal-snprintf size n h =
    rw (take_all (size - 1) (decimal n) (omega arith)) (read_decimal-decimal n)
