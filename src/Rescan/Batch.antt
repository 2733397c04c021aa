-- ===== src/Rescan/Batch.antt =====
-- The next batch of rescan.py: the queue sorted, filtered and cut, and how it relates to the queue.
use security_agent.Prelude.{
  ℕ, zero, suc, ◌<◌, ◌≡◌, refl, ◌⊎◌, inl, inr, true, false, List, [], ◌∷◌, String, arith, ltb, leb,
  mem, take, Bool-cases, List-cases, same_text, ◌==◌, eq_iff,
}
use security_agent.Rescan.{
  Entry, batch_size, insert, sort_by_attempts, below, ids_of, next_batch, exhausted,
}

abbrev pub Member : Entry → List Entry → Type 0
Member d [] = ⊥
Member d (e ∷ entries) = (e ≡ d) ⊎ Member d entries

take-Member :
    (n : ℕ) (d : Entry) (entries : List Entry) → Member d (take n entries) → Member d entries
take-Member zero d entries h = absurd h
take-Member (suc n) d [] h = absurd h
take-Member (suc n) d (e ∷ entries) (inl h) = inl h
take-Member (suc n) d (e ∷ entries) (inr h) = inr (take-Member n d entries h)

below-Member :
    (max : ℕ) (d : Entry) (entries : List Entry)
    → Member d (below max entries)
    → Member d entries × (d.attempts < max)
unfolding below
below-Member max d [] h = absurd h
below-Member max d (e ∷ entries) h = elim (Bool-cases (ltb e.attempts max)) [
  | inl l ↦
      let here : (e ≡ d) ⊎ Member d (below max entries) = rw l at h in
      elim here [
        | inl same ↦ let low : e.attempts < max = ground arith in (inl same, rw same at low)
        | inr m ↦ let (found, low) = below-Member max d entries m in (inr found, low)
      ]
  | inr l ↦ let (found, low) = below-Member max d entries (rw l at h) in (inr found, low)
]

insert-Member :
    (e d : Entry) (entries : List Entry) → Member d (insert e entries) → (e ≡ d) ⊎ Member d entries
unfolding insert
insert-Member e d [] h = h
insert-Member e d (f ∷ entries) h = elim (Bool-cases (leb e.attempts f.attempts)) [
  | inl l ↦ rw l at h
  | inr l ↦
      let here : (f ≡ d) ⊎ Member d (insert e entries) = rw l at h in
      elim here [
        | inl same ↦ inr (inl same)
        | inr m ↦ elim (insert-Member e d entries m) [ inl same ↦ inl same | inr n ↦ inr (inr n) ]
      ]
]

sort-Member :
    (d : Entry) (entries : List Entry) → Member d (sort_by_attempts entries) → Member d entries
unfolding sort_by_attempts
sort-Member d [] h = h
sort-Member d (e ∷ entries) h = elim (insert-Member e d (sort_by_attempts entries) h) [
  | inl same ↦ inl same
  | inr m ↦ inr (sort-Member d entries m)
]

ids_of-Member :
    (t : String) (entries : List Entry)
    → mem t (ids_of entries) ≡ true
    → (d : Entry) × Member d entries × (d.finding_id ≡ t)
unfolding ids_of
ids_of-Member t [] h = absurd (cc)
ids_of-Member t (e ∷ entries) h = elim (Bool-cases (e.finding_id == t)) [
  | inl s ↦ (e, inl refl, (eq_iff e.finding_id t).0 s)
  | inr s ↦ let (d, m, same) = ids_of-Member t entries (rw s at h) in (d, inr m, same)
]

-- A finding of the next batch is one of the queue, with attempts left.
pub next_batch-Member :
    (max : ℕ) (t : String) (entries : List Entry)
    → mem t (next_batch max entries) ≡ true
    → (d : Entry) × Member d entries × (d.finding_id ≡ t) × (d.attempts < max)
unfolding next_batch
next_batch-Member max t entries h =
    let (d, m, same) = ids_of-Member t (take batch_size (below max (sort_by_attempts entries))) h in
    let (found, low) =
      below-Member max d (sort_by_attempts entries)
        (take-Member batch_size d (below max (sort_by_attempts entries)) m) in
    (d, sort-Member d entries found, same, low)

insert-Kept :
    (e d : Entry) (entries : List Entry) → (e ≡ d) ⊎ Member d entries → Member d (insert e entries)
unfolding insert
insert-Kept e d [] h = h
insert-Kept e d (f ∷ entries) h = elim (Bool-cases (leb e.attempts f.attempts)) [
  | inl l ↦ rw l h
  | inr l ↦ elim h [
    | inl same ↦ rw l (inr (insert-Kept e d entries (inl same)))
    | inr (inl same) ↦ rw l (inl same)
    | inr (inr m) ↦ rw l (inr (insert-Kept e d entries (inr m)))
  ]
]

sort-Kept :
    (d : Entry) (entries : List Entry) → Member d entries → Member d (sort_by_attempts entries)
unfolding sort_by_attempts
sort-Kept d [] h = h
sort-Kept d (e ∷ entries) (inl same) = insert-Kept e d (sort_by_attempts entries) (inl same)
sort-Kept d (e ∷ entries) (inr m) =
    insert-Kept e d (sort_by_attempts entries) (inr (sort-Kept d entries m))

below-Kept :
    (max : ℕ) (d : Entry) (entries : List Entry)
    → Member d entries
    → d.attempts < max
    → Member d (below max entries)
unfolding below
below-Kept max d [] h low = absurd h
below-Kept max d (e ∷ entries) (inl same) low =
    let early : e.attempts < max = rw same low in
    let test : ltb e.attempts max ≡ true = ground arith in rw test (inl same)
below-Kept max d (e ∷ entries) (inr m) low = elim (Bool-cases (ltb e.attempts max)) [
  | inl l ↦ rw l (inr (below-Kept max d entries m low))
  | inr l ↦ rw l (below-Kept max d entries m low)
]

exhausted-Open :
    (max : ℕ) (entries : List Entry)
    → exhausted max entries ≡ false
    → (d : Entry) × Member d entries × (d.attempts < max)
unfolding exhausted
exhausted-Open max [] h = absurd (cc)
exhausted-Open max (e ∷ entries) h = elim (Bool-cases (leb max e.attempts)) [
  | inr l ↦ (e, inl refl, ground arith)
  | inl l ↦ let (d, m, low) = exhausted-Open max entries (rw l at h) in (d, inr m, low)
]

pub next_batch-some :
    (max : ℕ) (entries : List Entry)
    → exhausted max entries ≡ false
    → (t : String) × (mem t (next_batch max entries) ≡ true)
unfolding next_batch ids_of
next_batch-some max entries h =
    let (d, m, low) = exhausted-Open max entries h in
    let kept : Member d (below max (sort_by_attempts entries)) =
      below-Kept max d (sort_by_attempts entries) (sort-Kept d entries m) low in
    elim (List-cases (below max (sort_by_attempts entries))) [
      | inl e ↦ absurd (rw e at kept)
      | inr (b, bs, e) ↦ (b.finding_id, rw (e, same_text b.finding_id) refl)
    ]
