-- ===== src/Sanitize/Masks.antt =====
-- What a mask shows of the text that it replaces.
use security_agent.Prelude.{
  ℕ, ◌≡◌, ap, true, false, List, [], ◌∷◌, ◌++◌, Option, some, codes, arith, eqb, Bool-cases, inl,
  inr,
}
use security_agent.Sanitize.{has, before, mask_matched}

abbrev pub stars : Option (List ℕ)
stars = some (codes "***")

has-append : (c : ℕ) (key value : List ℕ) → has c (key ++ c ∷ value) ≡ true
has-append c [] value = ground arith
has-append c (d ∷ key) value = elim (Bool-cases (eqb d c)) [
  | inl e ↦ rw e
  | inr e ↦ rw e (has-append c key value)
]

before-append : (c : ℕ) (key value : List ℕ) → has c key ≡ false → before c (key ++ c ∷ value) ≡ key
unfolding before
before-append c [] value h = ground arith
before-append c (d ∷ key) value h = elim (Bool-cases (eqb d c)) [
  | inl e ↦ cc (rw e at h)
  | inr e ↦ rw e (ap (λ l. d ∷ l) (before-append c key value (rw e at h)))
]

-- The full mask of a `key=value` text keeps the key and shows nothing of the value: whatever the
-- value is, the result is the same.
pub mask_matched-hides_value :
    (key value : List ℕ)
    → has b'=' key ≡ false
    → mask_matched stars (key ++ b'=' ∷ value) ≡ some (key ++ codes "=***")
unfolding mask_matched
mask_matched-hides_value key value h =
    rw (has-append b'=' key value, before-append b'=' key value h)

-- So does that of a `key: value` text, if no '=' stands in the match.
pub mask_matched-hides_field :
    (key value : List ℕ)
    → has b':' key ≡ false
    → has b'=' (key ++ b':' ∷ value) ≡ false
    → mask_matched stars (key ++ b':' ∷ value) ≡ some (key ++ codes ":***")
unfolding mask_matched
mask_matched-hides_field key value h n =
    rw (n, has-append b':' key value, before-append b':' key value h)
