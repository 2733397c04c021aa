-- ===== src/Version/Rounds.antt =====
-- The loop over chunks, and the order on whole versions.
use security_agent.Prelude.{
  ℕ, zero, suc, ◌+◌, ◌≤◌, ◌<◌, ◌≡◌, refl, ap, Ordering, List, [], ◌∷◌, Option, some, arith, length,
  drop, take, length-drop, Bool-cases, inl, inr, get_or,
}
use security_agent.Version.{
  then_by, proceed, is_digit, non_digit_prefix, digit_prefix_len, after_round, compare_round,
  compare_non_digit, compare_digit, compare_parts_loop, compare_parts,
}
use security_agent.Version.Comparison.{IsComparison, IsComparison-then_by, IsComparison-on}
use security_agent.Version.Chunks.{compare_non_digit-IsComparison, compare_digit-IsComparison}

pub length-after_round : (a : List ℕ) → length (after_round a) ≤ length a
length-after_round a =
    let a' = drop (non_digit_prefix a) a in
    omega (arith, length-drop (non_digit_prefix a) a, length-drop (digit_prefix_len a') a')

-- A round takes a character at least.
pub length-after_round_cons : (c : ℕ) (s : List ℕ) → length (after_round (c ∷ s)) ≤ length s
unfolding non_digit_prefix digit_prefix_len
length-after_round_cons c s = elim (Bool-cases (is_digit c)) [
  | inl e ↦ rw e (rw e (omega (arith, length-drop (digit_prefix_len s) s)))
  | inr e ↦ rw e (
      let a' = drop (non_digit_prefix s) s in
      omega (arith, length-drop (non_digit_prefix s) s, length-drop (digit_prefix_len a') a'))
]

rounds_lt :
    (a b : List ℕ)
    → 0 < length a + length b
    → length (after_round a) + length (after_round b) < length a + length b
rounds_lt [] [] h = absurd (omega arith)
rounds_lt [] (d ∷ b) h = omega (arith, length-after_round [], length-after_round_cons d b)
rounds_lt (c ∷ a) [] h = omega (arith, length-after_round [], length-after_round_cons c a)
rounds_lt (c ∷ a) (d ∷ b) h =
    omega (arith, length-after_round_cons c a, length-after_round_cons d b)

-- More than enough fuel changes nothing.
loop-fuel :
    (f g : ℕ) (a b : List ℕ)
    → length a + length b ≤ f
    → length a + length b ≤ g
    → compare_parts_loop f a b ≡ compare_parts_loop g a b
unfolding compare_parts_loop
loop-fuel zero zero [] [] hf hg = refl
loop-fuel zero (suc g) [] [] hf hg = refl
loop-fuel (suc f) zero [] [] hf hg = refl
loop-fuel (suc f) (suc g) [] [] hf hg = refl
loop-fuel zero g [] (d ∷ b) hf hg = absurd (omega arith)
loop-fuel zero g (c ∷ a) b hf hg = absurd (omega arith)
loop-fuel (suc f) zero [] (d ∷ b) hf hg = absurd (omega arith)
loop-fuel (suc f) zero (c ∷ a) b hf hg = absurd (omega arith)
loop-fuel (suc f) (suc g) [] (d ∷ b) hf hg = ap (proceed (compare_round [] (d ∷ b))) (
    loop-fuel f g (after_round []) (after_round (d ∷ b)) (omega (arith, rounds_lt [] (d ∷ b)))
      (omega (arith, rounds_lt [] (d ∷ b))))
loop-fuel (suc f) (suc g) (c ∷ a) [] hf hg = ap (proceed (compare_round (c ∷ a) [])) (
    loop-fuel f g (after_round (c ∷ a)) (after_round []) (omega (arith, rounds_lt (c ∷ a) []))
      (omega (arith, rounds_lt (c ∷ a) [])))
loop-fuel (suc f) (suc g) (c ∷ a) (d ∷ b) hf hg = ap (proceed (compare_round (c ∷ a) (d ∷ b))) (
    loop-fuel f g (after_round (c ∷ a)) (after_round (d ∷ b))
      (omega (arith, rounds_lt (c ∷ a) (d ∷ b))) (omega (arith, rounds_lt (c ∷ a) (d ∷ b))))

round_nil : compare_round [] [] ≡ Ordering.eq
unfolding compare_round non_digit_prefix digit_prefix_len
round_nil = refl

-- One round, at any texts.
loop-round :
    (f : ℕ) (a b : List ℕ)
    → length a + length b ≤ suc f
    → compare_parts_loop (suc f) a b
      ≡ proceed (compare_round a b) (compare_parts_loop f (after_round a) (after_round b))
unfolding compare_parts_loop digit_prefix_len non_digit_prefix
loop-round zero [] [] h = rw round_nil
loop-round (suc f) [] [] h = rw round_nil
loop-round f [] (d ∷ b) h = refl
loop-round f (c ∷ a) [] h = refl
loop-round f (c ∷ a) (d ∷ b) h = refl

pub rounds_le :
    (f : ℕ) (a b : List ℕ)
    → length a + length b ≤ suc f
    → length (after_round a) + length (after_round b) ≤ f
rounds_le f [] [] h = omega (arith, length-after_round [])
rounds_le f [] (d ∷ b) h = omega (arith, rounds_lt [] (d ∷ b))
rounds_le f (c ∷ a) b h = omega (arith, rounds_lt (c ∷ a) b)

proceed-some :
    (x : Ordering) (r : Option Ordering) {o : Ordering}
    → r ≡ some o
    → (o' : Ordering) × (proceed x r ≡ some o')
proceed-some Ordering.lt r e = (Ordering.lt, refl)
proceed-some Ordering.gt r e = (Ordering.gt, refl)
proceed-some Ordering.eq r {o} e = (o, e)

-- The loop of `_compare_parts` ends with a result after at most as many rounds as the two texts
-- have characters together.
pub compare_parts_loop-ends :
    (f : ℕ) (a b : List ℕ)
    → length a + length b ≤ f
    → (o : Ordering) × (compare_parts_loop f a b ≡ some o)
compare_parts_loop-ends zero [] [] h = (Ordering.eq, unfold compare_parts_loop in refl)
compare_parts_loop-ends zero [] (d ∷ b) h = absurd (omega arith)
compare_parts_loop-ends zero (c ∷ a) b h = absurd (omega arith)
compare_parts_loop-ends (suc f) a b h =
    let (o, e) = compare_parts_loop-ends f (after_round a) (after_round b) (rounds_le f a b h) in
    rw (loop-round f a b h)
      (proceed-some (compare_round a b) (compare_parts_loop f (after_round a) (after_round b)) e)

-- `compare_parts` is the loop at any fuel that is enough.
compare_parts_lem :
    (f : ℕ) (a b : List ℕ)
    → length a + length b ≤ f
    → compare_parts a b ≡ get_or (compare_parts_loop f a b) Ordering.eq
compare_parts_lem f a b h =
    unfold compare_parts in
    ap (λ r. get_or r Ordering.eq) (loop-fuel (length a + length b) f a b (omega arith) h)

get_or-proceed :
    (x : Ordering) (r : Option Ordering) {o : Ordering}
    → r ≡ some o
    → get_or (proceed x r) Ordering.eq ≡ then_by x (get_or r Ordering.eq)
get_or-proceed x r e = ground arith

pub compare_parts-step :
    (a b : List ℕ)
    → compare_parts a b
      ≡ then_by (compare_round a b) (compare_parts (after_round a) (after_round b))
compare_parts-step a b =
    let f = length a + length b in
    let (o, e) =
      compare_parts_loop-ends f (after_round a) (after_round b) (rounds_le f a b (omega arith)) in
    rw
      (
        compare_parts_lem (suc f) a b (omega arith),
        loop-round f a b (omega arith),
        compare_parts_lem f (after_round a) (after_round b) (rounds_le f a b (omega arith)),
      )
      (get_or-proceed (compare_round a b) (compare_parts_loop f (after_round a) (after_round b)) e)

pub compare_round-IsComparison : IsComparison compare_round
unfolding compare_round
compare_round-IsComparison =
    IsComparison-then_by
      (λ a b. compare_non_digit (take (non_digit_prefix a) a) (take (non_digit_prefix b) b))
      (λ a b. compare_digit (digits_of a) (digits_of b))
      (IsComparison-on compare_non_digit (λ a. take (non_digit_prefix a) a)
        compare_non_digit-IsComparison)
      (IsComparison-on compare_digit digits_of compare_digit-IsComparison)
  where
    digits_of : List ℕ → List ℕ
    digits_of a = let a' = drop (non_digit_prefix a) a in take (digit_prefix_len a') a'
