-- ===== src/Scan/Aggregate/Stored.antt =====
-- The stored findings under their keys, in `aggregate` of orchestration/subgraphs/vulnscan/nodes.py.
use security_agent.Prelude.{
  ◌≡◌, sym, ◌∙◌, Bool, true, false, List, [], ◌∷◌, none, some, String, All, Bool-cases, inl, inr,
}
use security_agent.Scan.Targets.{Some}
use security_agent.Scan.Aggregate.{Finding, same_key, Index, find_key, place, index_existing}
use security_agent.Scan.Aggregate.Keys.{same_key-left, same_key_self}

pub find_key-some :
    (P : Finding → Type 0) (f ex : Finding) (canonical : List Finding)
    → find_key f canonical ≡ some ex
    → All P canonical
    → (same_key ex f ≡ true) × P ex
unfolding find_key
find_key-some P f ex [] e h = absurd (cc)
find_key-some P f ex (v ∷ canonical) e (p, h) = elim (Bool-cases (same_key v f)) [
  | inl y ↦
      let same : some v ≡ some ex = rw y at e in let is_ex : v ≡ ex = cc in rw (sym is_ex) (y, p)
  | inr n ↦ find_key-some P f ex canonical (rw n at e) h
]

-- A finding of the same key is kept.
abbrev pub IsKept : List Finding → Finding → Type 0
IsKept canonical v = Some (λ c. same_key c v ≡ true) canonical

pub find_key-none :
    (f v : Finding) (canonical : List Finding)
    → find_key f canonical ≡ none
    → IsKept canonical v
    → same_key v f ≡ false
unfolding find_key
find_key-none f v [] e kept = absurd kept
find_key-none f v (c ∷ canonical) e kept = elim (Bool-cases (same_key c f)) [
  | inl y ↦ absurd (cc (rw y at e))
  | inr n ↦ elim kept [
    | inl here ↦ same_key-left c v f here ∙ n
    | inr there ↦ find_key-none f v canonical (rw n at e) there
  ]
]

module _ (later : String → String → Bool) where
  place-keeps :
      (v x : Finding) (canonical : List Finding)
      → IsKept canonical x
      → IsKept (place later v canonical).0 x
  unfolding place
  place-keeps v x [] kept = absurd kept
  place-keeps v x (c ∷ canonical) kept = elim (Bool-cases (same_key c v)) [
    | inl y ↦ elim (Bool-cases (later v.detected_at c.detected_at)) [
      | inl l ↦
          rw (y, l)
            (elim kept [ inl here ↦ inl (same_key-left c v x y ∙ here) | inr there ↦ inr there ])
      | inr l ↦ rw (y, l) kept
    ]
    | inr n ↦
        rw n (elim kept [ inl here ↦ inl here | inr there ↦ inr (place-keeps v x canonical there) ])
  ]

  place-has : (v : Finding) (canonical : List Finding) → IsKept (place later v canonical).0 v
  unfolding place
  place-has v [] = inl (same_key_self v)
  place-has v (c ∷ canonical) = elim (Bool-cases (same_key c v)) [
    | inl y ↦ elim (Bool-cases (later v.detected_at c.detected_at)) [
      | inl l ↦ rw (y, l) (inl (same_key_self v))
      | inr l ↦ rw (y, l) (inl y)
    ]
    | inr n ↦ rw n (inr (place-has v canonical))
  ]

  index-keeps :
      (x : Finding) (existing : List Finding) (ix : Index)
      → IsKept ix.canonical x
      → IsKept (index_existing later existing ix).canonical x
  unfolding index_existing
  index-keeps x [] ix kept = kept
  index-keeps x (v ∷ existing) ix kept =
      index-keeps x existing _ (place-keeps v x ix.canonical kept)

  -- Every stored finding has one of its key that is kept.
  pub index-IsKept :
      (existing : List Finding) (ix : Index)
      → All (IsKept (index_existing later existing ix).canonical) existing
  unfolding index_existing
  index-IsKept [] ix = tt
  index-IsKept (v ∷ existing) ix =
      (index-keeps v existing _ (place-has v ix.canonical), index-IsKept existing _)

  module _ (P : Finding → Type 0) where
    place-All :
        (v : Finding) (canonical : List Finding)
        → P v
        → All P canonical
        → All P (place later v canonical).0
    unfolding place
    place-All v [] p h = (p, tt)
    place-All v (c ∷ canonical) p (q, h) = elim (Bool-cases (same_key c v)) [
      | inl y ↦ elim (Bool-cases (later v.detected_at c.detected_at)) [
        | inl l ↦ rw (y, l) (p, h)
        | inr l ↦ rw (y, l) (q, h)
      ]
      | inr n ↦ rw n (q, place-All v canonical p h)
    ]

    pub index-All :
        (existing : List Finding) (ix : Index)
        → All P existing
        → All P ix.canonical
        → All P (index_existing later existing ix).canonical
    unfolding index_existing
    index-All [] ix hs h = h
    index-All (v ∷ existing) ix (p, hs) h = index-All existing _ hs (place-All v ix.canonical p h)
