-- ===== src/Version/Order.antt =====
-- The laws of `compare_versions`, and how `version_matches` reads it.
use security_agent.Prelude.{
  ℕ, zero, suc, ◌+◌, ◌≤◌, ◌≡◌, refl, Ordering, List, [], ◌∷◌, arith, length, true, not,
}
use security_agent.Version.{
  Parts, then_by, after_round, compare_round, compare_parts, compare_split, compare_versions,
  split_version, version_matches,
}
use security_agent.Version.Comparison.{
  flip, fits, fits-then_by, flip-then_by, IsComparison, IsComparison-then_by, IsComparison-on,
  IsComparison-ext, compare_nat, compare_nat-IsComparison,
}
use security_agent.Version.Rounds.{
  compare_parts-step, compare_round-IsComparison, length-after_round, length-after_round_cons,
}

-- The texts left by a round are shorter, or both rounds had nothing to read.
shrinks : (k : ℕ) (a : List ℕ) → length a ≤ suc k → length (after_round a) ≤ k
shrinks k [] h = omega (arith, length-after_round [])
shrinks k (c ∷ s) h = omega (arith, length-after_round_cons c s)

empty_parts : compare_parts [] [] ≡ Ordering.eq
unfolding compare_parts
empty_parts = refl

parts-flips :
    (k : ℕ) (a b : List ℕ)
    → length a ≤ k
    → length b ≤ k
    → compare_parts b a ≡ flip (compare_parts a b)
parts-flips zero [] [] ha hb = rw empty_parts
parts-flips zero [] (d ∷ b) ha hb = absurd (omega arith)
parts-flips zero (c ∷ a) b ha hb = absurd (omega arith)
parts-flips (suc k) a b ha hb = cc (
  compare_parts-step a b,
  compare_parts-step b a,
  compare_round-IsComparison.flips a b,
  flip-then_by (compare_round a b) (compare_parts (after_round a) (after_round b)),
  parts-flips k (after_round a) (after_round b) (shrinks k a ha) (shrinks k b hb),
)

parts-transitive :
    (k : ℕ) (a b c : List ℕ)
    → length a ≤ k
    → length b ≤ k
    → length c ≤ k
    → fits (compare_parts a b) (compare_parts b c) (compare_parts a c) ≡ true
parts-transitive zero [] [] [] ha hb hc = rw empty_parts
parts-transitive zero [] [] (e ∷ c) ha hb hc = absurd (omega arith)
parts-transitive zero [] (d ∷ b) c ha hb hc = absurd (omega arith)
parts-transitive zero (x ∷ a) b c ha hb hc = absurd (omega arith)
parts-transitive (suc k) a b c ha hb hc =
    let a' = after_round a in
    let b' = after_round b in
    let c' = after_round c in
    let next = parts-transitive k a' b' c' (shrinks k a ha) (shrinks k b hb) (shrinks k c hc) in
    let whole =
      fits-then_by (compare_round a b) (compare_round b c) (compare_round a c) (compare_parts a' b')
        (compare_parts b' c') (compare_parts a' c') (compare_round-IsComparison.transitive a b c)
        next in
    cc (compare_parts-step a b, compare_parts-step b c, compare_parts-step a c, whole)

pub compare_parts-IsComparison : IsComparison compare_parts
compare_parts-IsComparison = record {
  flips = λ a b. parts-flips (length a + length b) a b (omega arith) (omega arith);
  transitive = λ a b c.
      parts-transitive (length a + length b + length c) a b c (omega arith) (omega arith)
        (omega arith);
}

split-eq-then_by :
    (a b : Parts)
    → then_by
        (compare_nat a.epoch b.epoch)
        (then_by (compare_parts a.upstream b.upstream) (compare_parts a.revision b.revision))
      ≡ compare_split a b
unfolding compare_split
split-eq-then_by a b = ground arith

split-IsComparison : IsComparison compare_split
split-IsComparison =
    IsComparison-ext
      (λ a b.
        then_by (compare_nat a.epoch b.epoch)
          (then_by (compare_parts a.upstream b.upstream) (compare_parts a.revision b.revision)))
      compare_split split-eq-then_by
      (IsComparison-then_by (λ a b. compare_nat a.epoch b.epoch)
        (λ a b. then_by (compare_parts a.upstream b.upstream) (compare_parts a.revision b.revision))
        (IsComparison-on compare_nat (λ (p : Parts). p.epoch) compare_nat-IsComparison)
        (IsComparison-then_by (λ a b. compare_parts a.upstream b.upstream)
          (λ a b. compare_parts a.revision b.revision)
          (IsComparison-on compare_parts (λ (p : Parts). p.upstream) compare_parts-IsComparison)
          (IsComparison-on compare_parts (λ (p : Parts). p.revision) compare_parts-IsComparison)))

versions-IsComparison : IsComparison compare_versions
unfolding compare_versions
versions-IsComparison = IsComparison-on compare_split split_version split-IsComparison

-- `compare_versions(b, a)` is the opposite of `compare_versions(a, b)`, for all texts.
pub compare_versions-flip : (a b : List ℕ) → compare_versions b a ≡ flip (compare_versions a b)
compare_versions-flip = versions-IsComparison.flips

-- `compare_versions` is transitive, equal versions included: from the results for a and b and for b
-- and c, whenever these determine it, follows the result for a and c.
pub compare_versions-transitive :
    (a b c : List ℕ)
    → fits (compare_versions a b) (compare_versions b c) (compare_versions a c) ≡ true
compare_versions-transitive = versions-IsComparison.transitive

-- `version_matches` of an operator and of the one with the sides changed agree, and `<=` is the
-- negation of `>` and `>=` that of `<`.
pub version_matches-swap :
    (a b : List ℕ)
    → (version_matches a "<" b ≡ version_matches b ">" a)
      × (version_matches a "<=" b ≡ version_matches b ">=" a)
      × (version_matches a "=" b ≡ version_matches b "=" a)
      × (version_matches a "<=" b ≡ not (version_matches a ">" b))
      × (version_matches a ">=" b ≡ not (version_matches a "<" b))
unfolding version_matches
version_matches-swap a b = ground (arith, compare_versions-flip a b)
