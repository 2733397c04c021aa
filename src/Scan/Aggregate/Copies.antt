-- ===== src/Scan/Aggregate/Copies.antt =====
-- The copies of stored findings that `aggregate` of orchestration/subgraphs/vulnscan/nodes.py deletes.
use security_agent.Prelude.{
  ◌≡◌, refl, Bool, true, false, List, [], ◌∷◌, Option, none, some, String, mem, All, All-append,
  All-map, Bool-cases, inl, inr, ◌⊎◌,
}
use security_agent.Scan.Targets.{Some}
use security_agent.Scan.Aggregate.{Finding, same_key, Index, place, add_id, index_existing}

-- Two elements at different places, the first one before the second.
abbrev pub Pair : {A : Type 0} → (A → A → Type 0) → List A → Type 0
Pair R [] = ⊥
Pair R (x ∷ xs) = Some (R x) xs ⊎ Pair R xs

-- Every element with every one behind it.
abbrev AllPairs : {A : Type 0} → (A → A → Type 0) → List A → Type 0
AllPairs R [] = Unit
AllPairs R (x ∷ xs) = All (R x) xs × AllPairs R xs

module _ {I A : Type 0} (R : I → A → A → Type 0) where
  Pairs-map :
      (P Q : A → A → Type 0) (xs : List A)
      → ((x y : A) → P x y → Q x y)
      → AllPairs P xs
      → AllPairs Q xs
  Pairs-map P Q [] f h = tt
  Pairs-map P Q (x ∷ xs) f (here, h) = (All-map (P x) (Q x) xs (f x) here, Pairs-map P Q xs f h)

  All-behind : (x : A) (ys : List A) → All (λ y. (i : I) → R i x y → Some (R i x) ys) ys
  All-behind x [] = tt
  All-behind x (y ∷ ys) = (
    (λ i r. inl r),
    All-map (λ z. (i : I) → R i x z → Some (R i x) ys)
        (λ z. (i : I) → R i x z → Some (R i x) (y ∷ ys)) ys (λ z rule i r. inr (rule i r))
        (All-behind x ys),
  )

  pub All-Pairs : (xs : List A) → AllPairs (λ x y. (i : I) → R i x y → Pair (R i) xs) xs
  All-Pairs [] = tt
  All-Pairs (x ∷ xs) = (
    All-map (λ y. (i : I) → R i x y → Some (R i x) xs)
        (λ y. (i : I) → R i x y → Pair (R i) (x ∷ xs)) xs (λ y rule i r. inl (rule i r))
        (All-behind x xs),
    Pairs-map (λ y z. (i : I) → R i y z → Pair (R i) xs)
        (λ y z. (i : I) → R i y z → Pair (R i) (x ∷ xs)) xs (λ y z rule i r. inr (rule i r))
        (All-Pairs xs),
  )

-- Of two stored findings, the one before it in the list and one behind it, of one key, the id is that of the one that was
-- detected earlier, or of the one behind where neither was.
abbrev pub IsCopy : (String → String → Bool) → String → Finding → Finding → Type 0
IsCopy later i v w =
    (same_key v w ≡ true)
    × (((v.finding_id ≡ i) × (later w.detected_at v.detected_at ≡ true))
        ⊎ ((w.finding_id ≡ i) × (later w.detected_at v.detected_at ≡ false)))

module _ (later : String → String → Bool) (Q : String → Type 0) where
  -- What two findings of one key make of their ids.
  abbrev Gives : Finding → Finding → Type 0
  Gives v w = (i : String) → IsCopy later i v w → Q i

  pub none_yet : (ys : List Finding) → All (λ y. All (λ c. Gives c y) []) ys
  none_yet [] = tt
  none_yet (y ∷ ys) = (tt, none_yet ys)

  abbrev OptAll : Option String → Type 0
  OptAll none = Unit
  OptAll (some i) = Q i

  place-copy :
      (v : Finding) (canonical : List Finding)
      → All (λ c. Gives c v) canonical
      → OptAll (place later v canonical).1
  unfolding place
  place-copy v [] h = tt
  place-copy v (c ∷ canonical) (g, h) = elim (Bool-cases (same_key c v)) [
    | inl y ↦ elim (Bool-cases (later v.detected_at c.detected_at)) [
      | inl l ↦ rw (y, l) (g c.finding_id (y, inl (refl, l)))
      | inr l ↦ rw (y, l) (g v.finding_id (y, inr (refl, l)))
    ]
    | inr n ↦ rw n (place-copy v canonical h)
  ]

  place-Gives :
      (v y : Finding) (canonical : List Finding)
      → Gives v y
      → All (λ c. Gives c y) canonical
      → All (λ c. Gives c y) (place later v canonical).0
  unfolding place
  place-Gives v y [] g h = (g, tt)
  place-Gives v y (c ∷ canonical) g (first, h) = elim (Bool-cases (same_key c v)) [
    | inl e ↦ elim (Bool-cases (later v.detected_at c.detected_at)) [
      | inl l ↦ rw (e, l) (g, h)
      | inr l ↦ rw (e, l) (first, h)
    ]
    | inr e ↦ rw e (first, place-Gives v y canonical g h)
  ]

  add_id-All :
      (o : Option String) (ids : List String) → OptAll o → All Q ids → All Q (add_id later o ids)
  unfolding add_id
  add_id-All none ids o h = h
  add_id-All (some i) ids o h = elim (Bool-cases (mem i ids)) [
    | inl e ↦ rw e h
    | inr e ↦ rw e (All-append Q ids (i ∷ []) h (o, tt))
  ]

  Gives-place :
      (v : Finding) (canonical ys : List Finding)
      → All (Gives v) ys
      → All (λ y. All (λ c. Gives c y) canonical) ys
      → All (λ y. All (λ c. Gives c y) (place later v canonical).0) ys
  Gives-place v canonical [] g h = tt
  Gives-place v canonical (y ∷ ys) (g, gs) (h, hs) =
      (place-Gives v y canonical g h, Gives-place v canonical ys gs hs)

  pub index-copies :
      (existing : List Finding) (ix : Index)
      → AllPairs Gives existing
      → All (λ y. All (λ c. Gives c y) ix.canonical) existing
      → All Q ix.dup_ids
      → All Q (index_existing later existing ix).dup_ids
  unfolding index_existing
  index-copies [] ix pairs h ids = ids
  index-copies (v ∷ existing) ix (gs, pairs) (h, hs) ids =
      index-copies existing _ pairs (Gives-place v ix.canonical existing gs hs)
        (add_id-All (place later v ix.canonical).1 ix.dup_ids (place-copy v ix.canonical h) ids)
