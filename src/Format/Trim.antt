-- ===== src/Format/Trim.antt =====
-- generic/dtrace.c, cutWhiteSpace, against trimming in the usual words: spaces are dropped in front,
-- and from the back.
use tcldtrace.Prelude.{
  ℕ, zero, suc, ◌+◌, ◌≤◌, ◌≡◌, refl, ◌⊎◌, inl, inr, Option, none, some, [], ◌∷◌, Bytes, arith, ltb,
  lt→ltb, ◌==◌, if◌then◌else◌, Bool-cases, length, take, length-take, ◌∙◌, ap, sym, ◌&&◌, ◌↔◌,
}
use tcldtrace.State.{World, Out, done, fault}
use tcldtrace.Helpers.Format.{skip_spaces, last_nonspace, cut_white_space, space, tuple_strlen}

-- A byte in front of a text whose end is stripped.
unfoldable pub keep : ℕ → Bytes → Bytes
keep c [] = if c == space then [] else c ∷ []
keep c (x ∷ xs) = c ∷ x ∷ xs

-- A text without the spaces at its end.
unfoldable pub strip_end : Bytes → Bytes
unfolding keep
strip_end [] = []
strip_end (c ∷ cs) = keep c (strip_end cs)

-- A text without the spaces at its two ends.
unfoldable pub trim : Bytes → Bytes
trim s = strip_end (skip_spaces s)

abbrev found_size : ℕ → Option ℕ → ℕ → Option ℕ
found_size i size zero = size
found_size i size (suc n) = some (i + n)

-- What one more byte does to the size found in the rest.
step_size :
    (i c : ℕ) (size : Option ℕ) (rest : Bytes)
    → found_size (suc i) (if c == space then size else some i) (length rest)
      ≡ found_size i size (length (keep c rest))
unfolding keep
step_size i c size [] = ground arith
step_size i c size (x ∷ xs) = ap some (omega arith)

last_nonspace-strip_end :
    (i : ℕ) (size : Option ℕ) (s : Bytes)
    → i + length s ≤ tuple_strlen
    → last_nonspace i size s ≡ found_size i size (length (strip_end s))
unfolding last_nonspace strip_end
last_nonspace-strip_end i size [] h = refl
last_nonspace-strip_end i size (c ∷ cs) h = rw (lt→ltb i tuple_strlen (omega arith)) (
    last_nonspace-strip_end (suc i) (if c == space then size else some i) cs (omega arith)
    ∙ step_size i c size (strip_end cs))

-- The loop looks at the first 128 bytes only.
last_nonspace-take :
    (k i : ℕ) (size : Option ℕ) (s : Bytes)
    → i + k ≡ tuple_strlen
    → last_nonspace i size s ≡ last_nonspace i size (take k s)
unfolding last_nonspace
last_nonspace-take zero i size [] h = refl
last_nonspace-take zero i size (c ∷ cs) h = ground arith
last_nonspace-take (suc k) i size [] h = refl
last_nonspace-take (suc k) i size (c ∷ cs) h =
    rw (last_nonspace-take k (suc i) (if c == space then size else some i) cs (omega arith)) refl

length-keep-le : (c : ℕ) (rest : Bytes) → length (keep c rest) ≤ suc (length rest)
unfolding keep
length-keep-le c [] = ground arith
length-keep-le c (x ∷ xs) = omega arith

length-strip_end-le : (s : Bytes) → length (strip_end s) ≤ length s
unfolding strip_end
length-strip_end-le [] = omega arith
length-strip_end-le (c ∷ cs) =
    omega (arith, length-strip_end-le cs, length-keep-le c (strip_end cs))

-- A stripped text is the beginning of the text, by its length.
take-keep :
    (c : ℕ) (cs rest : Bytes)
    → take (length rest) cs ≡ rest
    → take (length (keep c rest)) (c ∷ cs) ≡ keep c rest
unfolding keep
take-keep c cs [] h = ground arith
take-keep c cs (x ∷ xs) h = ap (◌∷◌ c) h

take-strip_end : (s : Bytes) → take (length (strip_end s)) s ≡ strip_end s
unfolding strip_end
take-strip_end [] = refl
take-strip_end (c ∷ cs) = take-keep c cs (strip_end cs) (take-strip_end cs)

take-take : (n k : ℕ) (s : Bytes) → n ≤ k → take n (take k s) ≡ take n s
take-take zero k s h = refl
take-take (suc n) zero s h = absurd (omega arith)
take-take (suc n) (suc k) [] h = refl
take-take (suc n) (suc k) (c ∷ cs) h = ap (◌∷◌ c) (take-take n k cs (omega arith))

-- The text that `cutWhiteSpace` sees in its buffer: 128 bytes past the leading spaces, stripped.
pub window : Bytes → Bytes
window s = strip_end (take tuple_strlen (skip_spaces s))

pub last_nonspace-window :
    (s : Bytes) → last_nonspace 0 none (skip_spaces s) ≡ found_size 0 none (length (window s))
unfolding window
last_nonspace-window s =
    last_nonspace-take tuple_strlen 0 none (skip_spaces s) refl
    ∙ last_nonspace-strip_end 0 none (take tuple_strlen (skip_spaces s))
        (omega (arith, length-take tuple_strlen (skip_spaces s)))

take-window :
    (s : Bytes)
    → length (window s) ≤ tuple_strlen
    → take (length (window s)) (skip_spaces s) ≡ window s
unfolding window
take-window s h =
    sym (take-take (length (window s)) tuple_strlen (skip_spaces s) h)
    ∙ take-strip_end (take tuple_strlen (skip_spaces s))

length-window-le : (s : Bytes) → length (window s) ≤ tuple_strlen
unfolding window
length-window-le s = omega (
  arith,
  length-strip_end-le (take tuple_strlen (skip_spaces s)),
  length-take tuple_strlen (skip_spaces s),
)

module _ {D : Type 0} where
  -- The result by the length of the window.
  by_window : Bytes → World D → Out D Bytes
  by_window t w = if ltb 0 (length t) && ltb (length t) tuple_strlen then done t w else fault

  cut_by_size :
      (s t : Bytes) (w : World D)
      → last_nonspace 0 none (skip_spaces s) ≡ found_size 0 none (length t)
      → take (length t) (skip_spaces s) ≡ t
      → cut_white_space s w ≡ by_window t w
  unfolding cut_white_space by_window
  cut_by_size s [] w e e' = rw (e, cut_white_space)
  cut_by_size s (c ∷ cs) w e e' =
      let size : last_nonspace 0 none (skip_spaces s) ≡ some (length cs) =
        e ∙ ap some (omega arith) in
      elim (Bool-cases (ltb (suc (length cs)) tuple_strlen)) [
        | inl fits ↦
            rw (size, cut_white_space)
              (rw (fits, cut_white_space)
                (rw (lt→ltb 0 (suc (length cs)) (omega arith)) (ap (λ x. done x w) e')))
        | inr full ↦
            rw (size, cut_white_space)
              (rw (full, cut_white_space) (rw (lt→ltb 0 (suc (length cs)) (omega arith)) refl))
      ]

  cut_white_space-window : (s : Bytes) (w : World D) → cut_white_space s w ≡ by_window (window s) w
  cut_white_space-window s w =
      cut_by_size s (window s) w (last_nonspace-window s) (take-window s (length-window-le s))

  by_window-fault :
      (t : Bytes) (w : World D)
      → length t ≤ tuple_strlen
      → by_window t w ≡ fault
      → (t ≡ []) ⊎ (length t ≡ tuple_strlen)
  unfolding by_window
  by_window-fault [] w h e = inl refl
  by_window-fault (c ∷ cs) w h e = inr (ground arith)

  fault-by_window :
      (t : Bytes) (w : World D) → (t ≡ []) ⊎ (length t ≡ tuple_strlen) → by_window t w ≡ fault
  unfolding by_window
  fault-by_window [] w h = refl
  fault-by_window (c ∷ cs) w h = ground arith

  -- The cut is undefined exactly where the first 128 bytes past the leading spaces are blank, or
  -- there are 128 of them and the last is no space.
  pub cut_white_space-fault_iff :
      (s : Bytes) (w : World D)
      → (cut_white_space s w ≡ fault) ↔ ((window s ≡ []) ⊎ (length (window s) ≡ tuple_strlen))
  cut_white_space-fault_iff s w =
      rw (cut_white_space-window s w)
        (by_window-fault (window s) w (length-window-le s), fault-by_window (window s) w)
