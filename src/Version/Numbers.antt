-- ===== src/Version/Numbers.antt =====
-- The comparison of digit chunks, against the numbers which they write.
use security_agent.Prelude.{
  ℕ, ◌+◌, ◌-◌, ◌*◌, ◌≤◌, ◌<◌, ◌≡◌, ◌≢◌, refl, Ordering, List, [], ◌∷◌, arith, length, true, false,
  eqb, ◌⊎◌, inl, inr, All, Bool-cases,
}
use security_agent.Version.{
  is_digit, int_of, strip_zeros, or_zero, compare_text, compare_stripped, compare_digit,
}
use security_agent.Version.Comparison.{compare_nat}

abbrev pub IsNumeral : List ℕ → Type 0
IsNumeral = All (λ c. is_digit c ≡ true)

digit_range : (c : ℕ) → is_digit c ≡ true → (b'0' ≤ c) × (c ≤ b'9')
unfolding is_digit
digit_range c h = ground arith

le-int_of : (y : ℕ) (b : List ℕ) → y ≤ int_of y b
unfolding int_of
le-int_of y [] = omega arith
le-int_of y (d ∷ b) = omega (arith, le-int_of (y * 10 + (d - b'0')) b)

-- A larger start stays larger, over at least as many digits.
int_of_lt :
    (x y : ℕ) (a b : List ℕ) → x < y → length a ≤ length b → IsNumeral a → int_of x a < int_of y b
unfolding int_of
int_of_lt x y [] b h l na = omega (arith, le-int_of y b)
int_of_lt x y (c ∷ a) [] h l na = absurd (omega arith)
int_of_lt x y (c ∷ a) (d ∷ b) h l na =
    int_of_lt (x * 10 + (c - b'0')) (y * 10 + (d - b'0')) a b (omega (arith, digit_range c na.0))
      (omega arith) na.1

compare_nat_lt : (m n : ℕ) → m < n → compare_nat m n ≡ Ordering.lt
compare_nat_lt m n h = ground arith

compare_nat_gt : (m n : ℕ) → n < m → compare_nat m n ≡ Ordering.gt
compare_nat_gt m n h = ground arith

trichotomy : (c d : ℕ) → (c < d) ⊎ ((c ≡ d) ⊎ (d < c))
trichotomy c d = ground arith

-- Texts of one length.
compare_text-eq-compare_nat :
    (x : ℕ) (a b : List ℕ)
    → length a ≡ length b
    → IsNumeral a
    → IsNumeral b
    → compare_text a b ≡ compare_nat (int_of x a) (int_of x b)
unfolding compare_text int_of
compare_text-eq-compare_nat x [] [] l na nb = ground arith
compare_text-eq-compare_nat x [] (d ∷ b) l na nb = absurd (omega arith)
compare_text-eq-compare_nat x (c ∷ a) [] l na nb = absurd (omega arith)
compare_text-eq-compare_nat x (c ∷ a) (d ∷ b) l na nb =
    let ih = compare_text-eq-compare_nat (x * 10 + (c - b'0')) a b (omega arith) na.1 nb.1 in
    let less = λ (h : c < d).
      int_of_lt (x * 10 + (c - b'0')) (x * 10 + (d - b'0')) a b
        (omega (arith, digit_range c na.0, digit_range d nb.0)) (omega arith) na.1 in
    let more = λ (h : d < c).
      int_of_lt (x * 10 + (d - b'0')) (x * 10 + (c - b'0')) b a
        (omega (arith, digit_range c na.0, digit_range d nb.0)) (omega arith) nb.1 in
    elim (trichotomy c d) [
      | inl h ↦ ground (arith, less h)
      | inr (inl e) ↦ rw (← e) (ground (arith, ih))
      | inr (inr h) ↦ ground (arith, more h)
    ]

-- What `lstrip("0") or "0"` leaves: no leading zero, but for the numeral "0" alone.
abbrev IsStripped : List ℕ → Type 0
IsStripped [] = ⊥
IsStripped (c ∷ []) = Unit
IsStripped (c ∷ d ∷ s) = c ≢ b'0'

first_ne : (c : ℕ) (s : List ℕ) → c ≢ b'0' → IsStripped (c ∷ s)
first_ne c [] h = tt
first_ne c (d ∷ s) h = h

eqb-false : (a b : ℕ) → eqb a b ≡ false → a ≢ b
eqb-false a b h e = ground arith

strip-IsStripped : (s : List ℕ) → IsStripped (or_zero (strip_zeros s))
unfolding strip_zeros or_zero
strip-IsStripped [] = tt
strip-IsStripped (c ∷ s) = elim (Bool-cases (eqb c b'0')) [
  | inl e ↦ rw e (strip-IsStripped s)
  | inr e ↦ rw e (first_ne c s (eqb-false c b'0' e))
]

strip-IsNumeral : (s : List ℕ) → IsNumeral s → IsNumeral (or_zero (strip_zeros s))
unfolding strip_zeros or_zero is_digit
strip-IsNumeral [] h = (refl, tt)
strip-IsNumeral (c ∷ s) h = elim (Bool-cases (eqb c b'0')) [
  | inl e ↦ rw e (strip-IsNumeral s h.1)
  | inr e ↦ rw e h
]

int_of-strip : (s : List ℕ) → int_of 0 (or_zero (strip_zeros s)) ≡ int_of 0 s
unfolding strip_zeros or_zero int_of
int_of-strip [] = refl
int_of-strip (c ∷ s) = elim (Bool-cases (eqb c b'0')) [
  | inl e ↦ rw e (ground (arith, int_of-strip s))
  | inr e ↦ rw e
]

-- The longer of two stripped numerals writes the larger number.
longer :
    (a b : List ℕ)
    → IsStripped b
    → IsNumeral a
    → IsNumeral b
    → 0 < length a
    → length a < length b
    → int_of 0 a < int_of 0 b
unfolding int_of
longer a [] sb na nb p h = absurd (omega arith)
longer a (d ∷ []) sb na nb p h = absurd (omega arith)
longer a (d ∷ e ∷ b) sb na nb p h =
    int_of_lt 0 (0 * 10 + (d - b'0')) a (e ∷ b) (omega (arith, digit_range d nb.0, sb))
      (omega arith) na

stripped-nonempty : (a : List ℕ) → IsStripped a → 0 < length a
stripped-nonempty [] h = absurd h
stripped-nonempty (c ∷ s) h = omega arith

compare_stripped-eq-compare_nat :
    (a b : List ℕ)
    → IsStripped a
    → IsStripped b
    → IsNumeral a
    → IsNumeral b
    → compare_stripped a b ≡ compare_nat (int_of 0 a) (int_of 0 b)
unfolding compare_stripped
compare_stripped-eq-compare_nat a b sa sb na nb = elim (trichotomy (length a) (length b)) [
  | inl h ↦ ground (arith, longer a b sb na nb (stripped-nonempty a sa) h)
  | inr (inl e) ↦ ground (arith, compare_text-eq-compare_nat 0 a b e na nb)
  | inr (inr h) ↦ ground (arith, longer b a sa nb na (stripped-nonempty b sb) h)
]

-- `_compare_digit`, which strips zeros and compares lengths and texts, gives for two runs of digits
-- of any length, the empty run and leading zeros included, the order of the numbers that they write.
pub compare_digit-eq-compare_nat :
    (a b : List ℕ)
    → IsNumeral a
    → IsNumeral b
    → compare_digit a b ≡ compare_nat (int_of 0 a) (int_of 0 b)
compare_digit-eq-compare_nat a b na nb =
    let step =
      compare_stripped-eq-compare_nat (or_zero (strip_zeros a)) (or_zero (strip_zeros b))
        (strip-IsStripped a) (strip-IsStripped b) (strip-IsNumeral a na) (strip-IsNumeral b nb) in
    unfold compare_digit in rw (int_of-strip a, int_of-strip b) at step
