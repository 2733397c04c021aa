-- ===== src/Detection/Sigma/Conditions.antt =====
-- `matches` of detection/sigma.py against what a rule's condition asks, and the fields it reports.
use security_agent.Prelude.{
  ◌≡◌, ◌≢◌, refl, ◌↔◌, ◌⊎◌, inl, inr, true, List, [], ◌∷◌, some, All, Bool-cases, Option-cases,
  List-cases,
}
use security_agent.Detection.{Value, Runtime, event_get}
use security_agent.Detection.Sigma.{
  FieldPredicate, SigmaRule, Fields, Mode, selected, one_of, all_of, put, update, compare,
  block_loop, block_matches, finish_match, logsource_agrees, blocks_of, first_match, merge_matches,
  leading, condition_match, matches,
}

module _ {N : Type 0} where
  -- A predicate holds: the event has the field, and its value compares.
  abbrev pub Holds : Runtime N → Value N → FieldPredicate N → Type 0
  Holds py event p =
      (actual : Value N) × (event_get event p.field ≡ some actual)
      × (compare py actual p.op p.value ≡ true)

  abbrev pub Block : Runtime N → Value N → List (FieldPredicate N) → Type 0
  Block py event block = All (Holds py event) block

  abbrev pub SomeBlock : Runtime N → Value N → List (List (FieldPredicate N)) → Type 0
  SomeBlock py event [] = ⊥
  SomeBlock py event (b ∷ blocks) = Block py event b ⊎ SomeBlock py event blocks

  abbrev pub Condition : Runtime N → Value N → Mode → List (List (FieldPredicate N)) → Type 0
  Condition py event selected blocks = Block py event (leading blocks)
  Condition py event one_of blocks = SomeBlock py event blocks
  Condition py event all_of blocks = All (Block py event) blocks

  block_loop-Block :
      (py : Runtime N) (event : Value N) (block : List (FieldPredicate N)) (matched out : Fields N)
      → block_loop py event block matched ≡ some out
      → Block py event block
  unfolding block_loop
  block_loop-Block py event [] matched out h = tt
  block_loop-Block py event (p ∷ block) matched out h =
      elim (Option-cases (event_get event p.field)) [
        | inl e ↦ absurd (cc (rw (e, block_loop) at h))
        | inr (actual, e) ↦ elim (Bool-cases (compare py actual p.op p.value)) [
          | inl c ↦ (
            (actual, e, c),
            block_loop-Block py event block (put p.field actual matched) out
                (rw (e, c, block_loop) at h),
          )
          | inr c ↦ absurd (cc (rw (e, c, block_loop) at h))
        ]
      ]

  Block-block_loop :
      (py : Runtime N) (event : Value N) (block : List (FieldPredicate N)) (matched : Fields N)
      → Block py event block
      → (out : Fields N) × (block_loop py event block matched ≡ some out)
  unfolding block_loop
  Block-block_loop py event [] matched h = (matched, refl)
  Block-block_loop py event (p ∷ block) matched ((actual, e, c), h) =
      let (out, r) = Block-block_loop py event block (put p.field actual matched) h in
      (out, rw (e, c, block_loop) r)

  first_match-SomeBlock :
      (py : Runtime N) (event : Value N) (blocks : List (List (FieldPredicate N))) (out : Fields N)
      → first_match py event blocks ≡ some out
      → SomeBlock py event blocks
  unfolding first_match block_matches
  first_match-SomeBlock py event [] out h = absurd (cc)
  first_match-SomeBlock py event (b ∷ blocks) out h =
      elim (Option-cases (block_loop py event b [])) [
        | inl e ↦ inr (first_match-SomeBlock py event blocks out (rw (e, first_match) at h))
        | inr (matched, e) ↦ inl (block_loop-Block py event b [] matched e)
      ]

  SomeBlock-first_match :
      (py : Runtime N) (event : Value N) (blocks : List (List (FieldPredicate N)))
      → SomeBlock py event blocks
      → (out : Fields N) × (first_match py event blocks ≡ some out)
  unfolding first_match block_matches
  SomeBlock-first_match py event [] h = absurd h
  SomeBlock-first_match py event (b ∷ blocks) h = elim (Option-cases (block_loop py event b [])) [
    | inr (matched, e) ↦ (matched, rw (e, first_match) refl)
    | inl e ↦ elim h [
      | inl own ↦ let (out, r) = Block-block_loop py event b [] own in absurd (cc)
      | inr rest ↦
          let (out, r) = SomeBlock-first_match py event blocks rest in (out, rw (e, first_match) r)
    ]
  ]

  merge_matches-All :
      (py : Runtime N) (event : Value N) (blocks : List (List (FieldPredicate N)))
      (merged out : Fields N)
      → merge_matches py event blocks merged ≡ some out
      → All (Block py event) blocks
  unfolding merge_matches block_matches
  merge_matches-All py event [] merged out h = tt
  merge_matches-All py event (b ∷ blocks) merged out h =
      elim (Option-cases (block_loop py event b [])) [
        | inl e ↦ absurd (cc (rw (e, merge_matches) at h))
        | inr (matched, e) ↦ (
          block_loop-Block py event b [] matched e,
          merge_matches-All py event blocks (update merged matched) out
              (rw (e, merge_matches) at h),
        )
      ]

  All-merge_matches :
      (py : Runtime N) (event : Value N) (blocks : List (List (FieldPredicate N)))
      (merged : Fields N)
      → All (Block py event) blocks
      → (out : Fields N) × (merge_matches py event blocks merged ≡ some out)
  unfolding merge_matches block_matches
  All-merge_matches py event [] merged h = (merged, refl)
  All-merge_matches py event (b ∷ blocks) merged (own, h) =
      let (matched, e) = Block-block_loop py event b [] own in
      let (out, r) = All-merge_matches py event blocks (update merged matched) h in
      (out, rw (e, merge_matches) r)

  condition_match-Condition :
      (py : Runtime N) (event : Value N) (mode : Mode) (blocks : List (List (FieldPredicate N)))
      (out : Fields N)
      → condition_match py event mode blocks ≡ some out
      → Condition py event mode blocks
  unfolding condition_match block_matches
  condition_match-Condition py event selected blocks out h =
      block_loop-Block py event (leading blocks) [] out h
  condition_match-Condition py event one_of blocks out h =
      first_match-SomeBlock py event blocks out h
  condition_match-Condition py event all_of blocks out h =
      merge_matches-All py event blocks [] out h

  Condition-condition_match :
      (py : Runtime N) (event : Value N) (mode : Mode) (blocks : List (List (FieldPredicate N)))
      → Condition py event mode blocks
      → (out : Fields N) × (condition_match py event mode blocks ≡ some out)
  unfolding condition_match block_matches
  Condition-condition_match py event selected blocks h =
      Block-block_loop py event (leading blocks) [] h
  Condition-condition_match py event one_of blocks h = SomeBlock-first_match py event blocks h
  Condition-condition_match py event all_of blocks h = All-merge_matches py event blocks [] h

  -- What a rule asks of an event.
  abbrev pub Matches : Runtime N → SigmaRule N → Value N → Type 0
  Matches py rule event =
      (rule.selection ≢ [])
      × (logsource_agrees py rule event ≡ true)
      × Condition py event rule.condition_mode (blocks_of rule)

  matches_sound :
      (py : Runtime N) (rule : SigmaRule N) (event : Value N) (out : Fields N)
      → matches py rule event ≡ some out
      → Matches py rule event
  unfolding matches
  matches_sound py rule event out h = elim (List-cases rule.selection) [
    | inl e ↦ absurd (cc (rw (e, matches) at h))
    | inr (p, ps, e) ↦ elim (Bool-cases (logsource_agrees py rule event)) [
      | inr l ↦ absurd (cc (rw (e, l, matches) at h))
      | inl l ↦
          elim (Option-cases (condition_match py event rule.condition_mode (blocks_of rule))) [
            | inl c ↦ absurd (cc (rw (e, l, c, matches) at h))
            | inr (matched, c) ↦ (
              λ bare. absurd (cc),
              l,
              condition_match-Condition py event rule.condition_mode (blocks_of rule) matched c,
            )
          ]
    ]
  ]

  matches_complete :
      (py : Runtime N) (rule : SigmaRule N) (event : Value N)
      → Matches py rule event
      → (out : Fields N) × (matches py rule event ≡ some out)
  unfolding matches
  matches_complete py rule event (filled, l, c) = elim (List-cases rule.selection) [
    | inl e ↦ absurd (filled e)
    | inr (p, ps, e) ↦
        let (matched, m) =
          Condition-condition_match py event rule.condition_mode (blocks_of rule) c in
        (finish_match event rule.detection_fields matched, rw (e, l, m, matches) refl)
  ]

-- A rule matches an event if and only if its first block is not empty, the event's logsource does not contradict the
-- rule's product and service, and its condition holds: of the first block, of some block or of all blocks, as the
-- rule's mode says, each predicate has a value in the event that compares.
pub matches-Matches :
    {N : Type 0} (py : Runtime N) (rule : SigmaRule N) (event : Value N)
    → ((out : Fields N) × (matches py rule event ≡ some out)) ↔ Matches py rule event
matches-Matches py rule event =
    (λ (out, h). matches_sound py rule event out h, matches_complete py rule event)
