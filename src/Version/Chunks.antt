-- ===== src/Version/Chunks.antt =====
-- The comparisons of one chunk: of non-digits, of texts and of digits.
use security_agent.Prelude.{ℕ, true, ◌≡◌, refl, List, [], ◌∷◌, arith, length}
use security_agent.Version.{
  then_by, compare_non_digit, compare_text, compare_stripped, compare_digit, strip_zeros, or_zero,
}
use security_agent.Version.Comparison.{
  flip, fits, IsComparison, IsComparison-then_by, IsComparison-on, IsComparison-ext, compare_nat,
  compare_nat-IsComparison,
}

compare_non_digit-flips : (a b : List ℕ) → compare_non_digit b a ≡ flip (compare_non_digit a b)
unfolding compare_non_digit
compare_non_digit-flips [] [] = refl
compare_non_digit-flips [] (d ∷ b) = ground arith
compare_non_digit-flips (c ∷ a) [] = ground arith
compare_non_digit-flips (c ∷ a) (d ∷ b) = ground (arith, compare_non_digit-flips a b)

compare_non_digit-transitive :
    (a b c : List ℕ)
    → fits (compare_non_digit a b) (compare_non_digit b c) (compare_non_digit a c) ≡ true
unfolding compare_non_digit
compare_non_digit-transitive [] [] [] = refl
compare_non_digit-transitive [] [] (e ∷ c) = ground arith
compare_non_digit-transitive [] (d ∷ b) [] = ground arith
compare_non_digit-transitive [] (d ∷ b) (e ∷ c) = ground arith
compare_non_digit-transitive (x ∷ a) [] [] = ground arith
compare_non_digit-transitive (x ∷ a) [] (e ∷ c) = ground arith
compare_non_digit-transitive (x ∷ a) (d ∷ b) [] = ground arith
compare_non_digit-transitive (x ∷ a) (d ∷ b) (e ∷ c) =
    ground (arith, compare_non_digit-transitive a b c)

pub compare_non_digit-IsComparison : IsComparison compare_non_digit
compare_non_digit-IsComparison = record {
  flips = compare_non_digit-flips;
  transitive = compare_non_digit-transitive;
}

compare_text-flips : (a b : List ℕ) → compare_text b a ≡ flip (compare_text a b)
unfolding compare_text
compare_text-flips [] [] = refl
compare_text-flips [] (d ∷ b) = refl
compare_text-flips (c ∷ a) [] = refl
compare_text-flips (c ∷ a) (d ∷ b) = ground (arith, compare_text-flips a b)

compare_text-transitive :
    (a b c : List ℕ) → fits (compare_text a b) (compare_text b c) (compare_text a c) ≡ true
unfolding compare_text
compare_text-transitive [] [] [] = refl
compare_text-transitive [] [] (e ∷ c) = refl
compare_text-transitive [] (d ∷ b) [] = refl
compare_text-transitive [] (d ∷ b) (e ∷ c) = ground arith
compare_text-transitive (x ∷ a) [] [] = refl
compare_text-transitive (x ∷ a) [] (e ∷ c) = refl
compare_text-transitive (x ∷ a) (d ∷ b) [] = ground arith
compare_text-transitive (x ∷ a) (d ∷ b) (e ∷ c) = ground (arith, compare_text-transitive a b c)

pub compare_text-IsComparison : IsComparison compare_text
compare_text-IsComparison = record {
  flips = compare_text-flips;
  transitive = compare_text-transitive;
}

compare_stripped-eq-then_by :
    (a b : List ℕ)
    → then_by (compare_nat (length a) (length b)) (compare_text a b) ≡ compare_stripped a b
unfolding compare_stripped
compare_stripped-eq-then_by a b = ground arith

pub compare_digit-IsComparison : IsComparison compare_digit
unfolding compare_digit
compare_digit-IsComparison =
    IsComparison-on compare_stripped (λ a. or_zero (strip_zeros a))
      (IsComparison-ext (λ a b. then_by (compare_nat (length a) (length b)) (compare_text a b))
        compare_stripped compare_stripped-eq-then_by
        (IsComparison-then_by (λ a b. compare_nat (length a) (length b)) compare_text
          (IsComparison-on compare_nat length compare_nat-IsComparison) compare_text-IsComparison))
