-- ===== src/Upgrade/Versions.antt =====
-- `_version_key` and `upgrade_needed` of agents/upgrade.py. A digit is one of ASCII's.
use security_agent.Prelude.{
  ℕ, ◌+◌, ◌-◌, ◌*◌, ◌≡◌, ◌<◌, refl, ◌⊎◌, inl, inr, Bool, true, false, ◌&&◌, ◌||◌, List, [], ◌∷◌,
  Option, none, some, String, arith, ltb, leb, eqb, codes, Bool-cases,
}

is_digit : ℕ → Bool
is_digit c = leb 48 c && leb c 57

-- The number that is being read, if there is one, in front of those behind it.
close : Option ℕ → List ℕ → List ℕ
close none numbers = numbers
close (some n) numbers = n ∷ numbers

value : Option ℕ → ℕ
value none = 0
value (some n) = n

-- [int(part) for part in re.findall(r"\d+", text)]
numbers : Option ℕ → List ℕ → List ℕ
unfolding is_digit close value
numbers reading [] = close reading []
numbers reading (c ∷ text) = elim (is_digit c) [
  | true ↦ numbers (some (10 * value reading + (c - 48))) text
  | false ↦ close reading (numbers none text)
]

pub version_key : String → List ℕ
unfolding numbers
version_key v = elim (numbers none (codes v)) [ [] ↦ 0 ∷ [] | n ∷ ns ↦ n ∷ ns ]

-- a < b, on tuples.
tuple_less : List ℕ → List ℕ → Bool
tuple_less a [] = false
tuple_less [] (n ∷ b) = true
tuple_less (m ∷ a) (n ∷ b) = let rest = tuple_less a b in ltb m n || eqb m n && rest

unfoldable pub upgrade_needed : String → String → Bool
unfolding version_key tuple_less
upgrade_needed current target = tuple_less (version_key current) (version_key target)

tuple_less-Irreflexive : (a : List ℕ) → tuple_less a a ≡ false
unfolding tuple_less
tuple_less-Irreflexive [] = refl
tuple_less-Irreflexive (m ∷ a) = ground (arith, tuple_less-Irreflexive a)

tuple_less-Transitive :
    (a b c : List ℕ) → tuple_less a b ≡ true → tuple_less b c ≡ true → tuple_less a c ≡ true
unfolding tuple_less
tuple_less-Transitive a b [] h k = absurd (cc)
tuple_less-Transitive a [] (o ∷ c) h k = absurd (cc)
tuple_less-Transitive [] (n ∷ b) (o ∷ c) h k = refl
tuple_less-Transitive (m ∷ a) (n ∷ b) (o ∷ c) h k = elim (Bool-cases (tuple_less a b)) [
  | inl ab ↦ elim (Bool-cases (tuple_less b c)) [
    | inl bc ↦ ground (arith, tuple_less-Transitive a b c ab bc)
    | inr bc ↦ ground arith
  ]
  | inr ab ↦ ground arith
]

Nat-cases : (m n : ℕ) → (m < n) ⊎ ((m ≡ n) ⊎ (n < m))
Nat-cases m n = ground arith

tuple_less-cases : (a b : List ℕ) → (tuple_less a b ≡ true) ⊎ ((a ≡ b) ⊎ (tuple_less b a ≡ true))
unfolding tuple_less
tuple_less-cases [] [] = inr (inl refl)
tuple_less-cases [] (n ∷ b) = inl refl
tuple_less-cases (m ∷ a) [] = inr (inr refl)
tuple_less-cases (m ∷ a) (n ∷ b) = elim (Nat-cases m n) [
  | inl l ↦ inl (ground arith)
  | inr (inr g) ↦ inr (inr (ground arith))
  | inr (inl e) ↦ elim (tuple_less-cases a b) [
    | inl l ↦ inl (ground arith)
    | inr (inl same) ↦ inr (inl (rw (e, same) refl))
    | inr (inr g) ↦ inr (inr (ground arith))
  ]
]

-- `upgrade_needed` is a strict order of versions up to their keys: no version needs an upgrade to itself, a needed upgrade
-- behind a needed upgrade is one needed upgrade, and of two versions one needs the other or their keys are the same.
pub upgrade_needed-IsOrder :
    (a b c : String)
    → (upgrade_needed a a ≡ false)
      × ((upgrade_needed a b ≡ false)
          ⊎ ((upgrade_needed b c ≡ false) ⊎ (upgrade_needed a c ≡ true)))
      × ((upgrade_needed a b ≡ true)
          ⊎ ((version_key a ≡ version_key b) ⊎ (upgrade_needed b a ≡ true)))
unfolding upgrade_needed
upgrade_needed-IsOrder a b c = (
  tuple_less-Irreflexive (version_key a),
  chain,
  tuple_less-cases (version_key a) (version_key b),
)
  where
    chain :
        (tuple_less (version_key a) (version_key b) ≡ false)
        ⊎ ((tuple_less (version_key b) (version_key c) ≡ false)
            ⊎ (tuple_less (version_key a) (version_key c) ≡ true))
    chain = elim (Bool-cases (tuple_less (version_key a) (version_key b))) [
      | inr ab ↦ inl ab
      | inl ab ↦ elim (Bool-cases (tuple_less (version_key b) (version_key c))) [
        | inr bc ↦ inr (inl bc)
        | inl bc ↦
            inr (inr (tuple_less-Transitive (version_key a) (version_key b) (version_key c) ab bc))
      ]
    ]
