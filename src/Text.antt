-- ===== src/Text.antt =====
-- What the code takes from C's library: `snprintf` of decimal numbers into a buffer of a fixed size.
use tcldtrace.Prelude.{
  ℕ, zero, suc, ◌+◌, ◌-◌, ◌/◌, ◌%◌, [], ◌∷◌, ◌++◌, Bytes, ℤ, pos, negsuc, ltb, if◌then◌else◌, take,
}

-- The decimal digits of a number, with the rounds left; a number has at most that many digits.
unfoldable pub digits : ℕ → ℕ → Bytes
digits zero n = []
digits (suc rounds) n =
    let more = digits rounds (n / 10) ++ (48 + n % 10) ∷ [] in
    if ltb n 10 then (48 + n) ∷ [] else more

-- `%d` and `%lld`
unfoldable pub decimal : ℤ → Bytes
unfolding digits
decimal (pos n) = digits (suc n) n
decimal (negsuc n) = b'-' ∷ digits (suc (suc n)) (suc n)

-- `snprintf(buffer, size, …)` keeps `size - 1` bytes and writes the terminating zero.
unfoldable pub snprintf : ℕ → Bytes → Bytes
snprintf size s = take (size - 1) s
