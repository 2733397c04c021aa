-- ===== src/Scan/Waits.antt =====
-- How long `collect` of orchestration/subgraphs/vulnscan/nodes.py waits, and what ends its wait.
use security_agent.Prelude.{
  ℕ, zero, suc, ◌+◌, ◌*◌, ◌≤◌, ◌<◌, ◌≡◌, refl, subst, ◌∙◌, Bool, true, false, List, [], ◌∷◌, some,
  String, ◌==◌, ltb, leb, eqb, length, Bool-cases, inl, inr, ◌⊎◌, arith,
}
use security_agent.Scan.{
  Host, Gate, Step, Turn, final_received, final_agents, expected_per_agent, done_complete,
  collect_loop, collect, resolve_targets, count_failed, total_failed, dispatch,
}

-- A turn ends the loop with this result.
abbrev pub Ends : (ℕ → Turn) → ℕ → String → ℕ → ℕ → String × ℕ → Type 0
Ends turns total engine deadline k (status, count) =
    (((turns k).cancelled ≡ true) × (status ≡ "cancelled"))
    ⊎ (((turns k).cancelled ≡ false)
        × (status ≡ "analyzing")
        × (count ≡ length (final_agents (turns k).results))
        × ((total * expected_per_agent engine ≤ final_received (turns k).results)
            ⊎ (deadline ≤ (turns k).time)))

-- A turn that does not end it.
abbrev pub GoesOn : (ℕ → Turn) → ℕ → String → ℕ → ℕ → Type 0
GoesOn turns total engine deadline k = ((turns k).cancelled ≡ false) × ((turns k).time < deadline)

done_sound :
    (total : ℕ) (engine : String) (deadline : ℕ) (t : Turn)
    → done_complete total engine deadline t ≡ true
    → (total * expected_per_agent engine ≤ final_received t.results) ⊎ (deadline ≤ t.time)
unfolding done_complete
done_sound total engine deadline t h = elim (Bool-cases (leb deadline t.time)) [
  | inl late ↦ inr (ground arith)
  | inr early ↦
      inl (elim (Bool-cases (leb (total * expected_per_agent engine) (final_received t.results))) [
        | inl enough ↦ ground arith
        | inr few ↦ ground arith
      ])
]

goes_on :
    (total : ℕ) (engine : String) (deadline : ℕ) (t : Turn)
    → done_complete total engine deadline t ≡ false
    → t.time < deadline
unfolding done_complete
goes_on total engine deadline t h = ground arith

loop_next :
    (turns : ℕ → Turn) (total : ℕ) (engine : String) (deadline fuel k count : ℕ)
    → (turns k).cancelled ≡ false
    → done_complete total engine deadline (turns k) ≡ false
    → collect_loop (suc fuel) turns total engine deadline k count
      ≡ collect_loop fuel turns total engine deadline
          (suc k)
          (length (final_agents (turns k).results))
unfolding collect_loop
loop_next turns total engine deadline fuel k count c d = simp (c, d) refl

-- The loop from turn `k` on ends at a turn, if the deadline comes within its fuel.
loop-Ends :
    (turns : ℕ → Turn) (total : ℕ) (engine : String) (deadline start fuel k count : ℕ)
    → ((j : ℕ) → start + 5 * j ≤ (turns j).time)
    → deadline < start + k + fuel
    → 0 < fuel
    → (j : ℕ) × (r : String × ℕ) × (collect_loop fuel turns total engine deadline k count ≡ some r)
      × Ends turns total engine deadline j r
      × ((i : ℕ) → k ≤ i → i < j → GoesOn turns total engine deadline i)
unfolding collect_loop
loop-Ends turns total engine deadline start zero k count clock near more = absurd (omega arith)
loop-Ends turns total engine deadline start (suc fuel) k count clock near more =
    elim (Bool-cases (turns k).cancelled) [
      | inl c ↦
          (k, ("cancelled", count), rw c refl, inl (c, refl), λ i low high. absurd (omega arith))
      | inr c ↦ elim (Bool-cases (done_complete total engine deadline (turns k))) [
        | inl d ↦ (
          k,
          ("analyzing", length (final_agents (turns k).results)),
          rw (c, d) refl,
          inr (c, refl, refl, done_sound total engine deadline (turns k) d),
          λ i low high. absurd (omega arith),
        )
        | inr d ↦
            let early : (turns k).time < deadline = goes_on total engine deadline (turns k) d in
            let now : start + 5 * k ≤ (turns k).time = clock k in
            let here : GoesOn turns total engine deadline k = (c, early) in
            let (j, r, e, ends, later) =
              loop-Ends turns total engine deadline start fuel (suc k)
                (length (final_agents (turns k).results)) clock (omega arith) (omega arith) in
            (
              j,
              r,
              loop_next turns total engine deadline fuel k count c d ∙ e,
              ends,
              λ i low high. elim (Bool-cases (leb i k)) [
                | inl first ↦
                    let same : k ≡ i = ground arith in
                    subst (GoesOn turns total engine deadline) same here
                | inr after ↦ later i (ground arith) high
              ],
            )
      ]
    ]

-- What `dispatch` leaves of a scan that was sent out.
abbrev pub sent_out : ℕ → ℕ → ℕ → ℕ → String → Step
sent_out n done failed count engine = record {
  status = "scanning";
  total_targets = suc n;
  received_results = count;
  stored = some (record {
    status = "scanning";
    total = suc n;
    done = done;
    failed = failed;
    engine = engine;
  });
}

collect-sent_out :
    (turns : ℕ → Turn) (timeout_sec start n failed done count : ℕ) (engine : String)
    → failed < suc n
    → (engine == "") ≡ false
    → collect turns timeout_sec start false (sent_out n done failed count engine)
      ≡ collect_loop (suc timeout_sec) turns (suc n) engine (start + timeout_sec) 0 0
unfolding collect
collect-sent_out turns timeout_sec start n failed done count engine reachable named =
    let some_reached : leb (suc n) failed ≡ false = ground arith in
    let not_empty : eqb (suc n) 0 ≡ false = ground arith in
    let positive : ltb 0 (suc n) ≡ true = ground arith in
    simp (not_empty, positive, some_reached, named) refl

-- Where a turn's clock has advanced by five seconds for each turn since the start, a scan that was sent out and for which fewer
-- failures than targets were recorded always ends its wait: with "cancelled" at a turn that confirms a cancellation, or
-- with "analyzing" and the number of agents behind the final batches, at a turn where the number of final batches, of whatever
-- agents, has reached that of the targets (twice that for a global scan) or the time limit has passed. No turn before that was cancelled or beyond the limit.
pub collect-Ends :
    (turns : ℕ → Turn) (timeout_sec start n failed done count : ℕ) (engine : String)
    → ((j : ℕ) → start + 5 * j ≤ (turns j).time)
    → failed < suc n
    → (engine == "") ≡ false
    → (j : ℕ) × (r : String × ℕ) × (collect turns timeout_sec start false
          (sent_out n done failed count engine)
        ≡ some r)
      × Ends turns (suc n) engine (start + timeout_sec) j r
      × ((i : ℕ) → i < j → GoesOn turns (suc n) engine (start + timeout_sec) i)
collect-Ends turns timeout_sec start n failed done count engine clock reachable named =
    let (j, r, e, ends, before) =
      loop-Ends turns (suc n) engine (start + timeout_sec) start (suc timeout_sec) 0 0 clock
        (omega arith) (omega arith) in
    (
      j,
      r,
      collect-sent_out turns timeout_sec start n failed done count engine reachable named ∙ e,
      ends,
      λ i high. before i (omega arith) high,
    )

-- The agents that a gate turns away.
count_failed-down :
    (gate : Gate) (up : String → Bool) (e : String) (ids : List String)
    → ((a : String) → gate e a ≡ up a)
    → count_failed (gate e) ids ≡ count_failed up ids
unfolding count_failed
count_failed-down gate up e [] same = refl
count_failed-down gate up e (a ∷ ids) same = rw (same a, count_failed-down gate up e ids same) refl

-- In a global scan each agent that is offline counts as two failures: where half of the targets are, the others get both
-- commands, and yet the scan goes on at once to its analysis with no answer, at any time limit and whatever would come.
pub collect-gives_up :
    (turns : ℕ → Turn) (timeout_sec start : ℕ) (gate : Gate) (up : String → Bool)
    (targets : List String) (hosts : List Host) (a : String) (ids : List String)
    → resolve_targets targets hosts ≡ a ∷ ids
    → ((e b : String) → gate e b ≡ up b)
    → length (a ∷ ids) ≤ count_failed up (a ∷ ids) + count_failed up (a ∷ ids)
    → collect turns timeout_sec start false (dispatch gate "global" targets hosts false)
      ≡ some ("analyzing", 0)
unfolding collect dispatch total_failed
collect-gives_up turns timeout_sec start gate up targets hosts a ids resolved same half =
    let matcher = count_failed-down gate up "matcher" (a ∷ ids) (same "matcher") in
    let nuclei = count_failed-down gate up "nuclei" (a ∷ ids) (same "nuclei") in
    let over : leb (length (a ∷ ids)) (count_failed up (a ∷ ids) + count_failed up (a ∷ ids))
        ≡ true =
      ground arith in
    let not_empty : eqb (length (a ∷ ids)) 0 ≡ false = ground arith in
    let some_targets : ltb 0 (length (a ∷ ids)) ≡ true = ground arith in
    rw resolved (rw (matcher, nuclei) (rw (not_empty, some_targets, over) refl))
