-- ===== src/TaskQueue/Claims.antt =====
-- The batch that a starting consumer claims.
use security_agent.Prelude.{
  ℕ, zero, suc, ◌≤◌, ◌≡◌, refl, false, List, [], ◌∷◌, Option, none, some, String, arith, length,
  mem, Option-cases, Bool-cases, inl, inr,
}
use security_agent.TaskQueue.{
  Payload, Claim, refused, broken, answered, Redis, Queue, claim_stale, with_claim, claim_batch,
  claim_stale_batch,
}

-- No id of the list is among those seen, nor among the ones before it.
abbrev pub Distinct : List String → List (String × Payload) → Type 0
Distinct seen [] = Unit
Distinct seen ((i, payload) ∷ claimed) = (mem i seen ≡ false) × Distinct (i ∷ seen) claimed

module _ {S : Type 0} (redis : Redis S) where
  -- A call of XAUTOCLAIM raises something else than a ResponseError.
  abbrev pub Breaks : Queue → String → Type 0
  Breaks q consumer = (s : S) × (redis.xautoclaim q.stream q.group consumer s ≡ broken)

  abbrev BatchedFrom : List String → ℕ → Queue → String → Option (List (String × Payload)) → Type 0
  BatchedFrom seen n q consumer none = Breaks q consumer
  BatchedFrom seen n q consumer (some claimed) = (length claimed ≤ n) × Distinct seen claimed

  -- The exception of such a call, or entries up to the bound with different ids.
  abbrev pub Batched : ℕ → Queue → String → Option (List (String × Payload)) → Type 0
  Batched n q consumer claimed = BatchedFrom [] n q consumer claimed

  claim_stale-none :
      (q : Queue) (consumer : String) (s : S)
      → claim_stale redis q consumer s ≡ none
      → Breaks q consumer
  unfolding claim_stale
  claim_stale-none q consumer s e = (s, answer (redis.xautoclaim q.stream q.group consumer s) e)
    where
      answer :
          (c : Claim S)
          → ◌≡◌ {A = Option (Option (String × Payload) × S)}
              (elim c [
                | refused ↦ some (none, s)
                | broken ↦ none
                | answered found s' ↦ some (found, s')
              ])
              none
          → c ≡ broken
      answer refused e = absurd (cc)
      answer broken e = refl
      answer (answered found s') e = absurd (cc)

  with_claim-Batched :
      (i : String) (payload : Payload) (seen : List String) (n : ℕ) (q : Queue) (consumer : String)
      (r : Option (List (String × Payload)) × S)
      → mem i seen ≡ false
      → BatchedFrom (i ∷ seen) n q consumer r.0
      → BatchedFrom seen (suc n) q consumer (with_claim redis (i, payload) r).0
  with_claim-Batched i payload seen n q consumer (none, s) new h = h
  with_claim-Batched i payload seen n q consumer (some claimed, s) new (short, distinct) =
      (ground arith, (new, distinct))

  claim_batch-bounded :
      (q : Queue) (consumer : String) (n : ℕ) (seen : List String) (s : S)
      → BatchedFrom seen n q consumer (claim_batch redis n q consumer seen s).0
  unfolding claim_batch
  claim_batch-bounded q consumer zero seen s = (ground arith, tt)
  claim_batch-bounded q consumer (suc n) seen s =
      elim (Option-cases (claim_stale redis q consumer s)) [
        | inl e ↦ rw (e, claim_batch) (claim_stale-none q consumer s e)
        | inr ((none, s'), e) ↦ rw (e, claim_batch) (ground arith, tt)
        | inr ((some (i, payload), s'), e) ↦ elim (Bool-cases (mem i seen)) [
          | inl seen_before ↦ rw (e, seen_before, claim_batch) (ground arith, tt)
          | inr new ↦
              rw (e, new, claim_batch)
                (with_claim-Batched i payload seen n q consumer
                  (claim_batch redis n q consumer (i ∷ seen) s') new
                  (claim_batch-bounded q consumer n (i ∷ seen) s'))
        ]
      ]

-- A batch comes back, with no more entries than the caller allows and none of them twice, whatever XAUTOCLAIM gives
-- back, or it ends in an exception of XAUTOCLAIM other than a ResponseError.
pub claim_stale_batch-bounded :
    {S : Type 0} (redis : Redis S) (max_claims : ℕ) (q : Queue) (consumer : String) (s : S)
    → Batched redis max_claims q consumer (claim_stale_batch redis max_claims q consumer s).0
unfolding claim_stale_batch
claim_stale_batch-bounded redis max_claims q consumer s =
    claim_batch-bounded redis q consumer max_claims [] s
