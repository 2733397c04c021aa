-- ===== src/VulnHunter/Rounds.antt =====
-- The rounds of a hunt: their length, their counts and their finds.
use security_agent.Prelude.{
  ℕ, zero, suc, ◌+◌, ◌*◌, ◌≤◌, ◌<◌, ◌≡◌, refl, sym, ◌∙◌, ap, true, List, [], ◌∷◌, Option, some,
  String, arith, ◌⊎◌, inl, inr, length, length-append, Option-cases, Bool-cases,
}
use security_agent.VulnHunter.{
  Evidence, Memory, PocOutput, LintResult, ExecutionResult, State, recursion_limit, add_constraint,
  add_constraints, add_negative_evidence, increment_iteration, remember, suggest, finalize,
  generate_poc, vulnerable, check_convergence, finalize_node, done, raised, generate_poc_node,
  linter_check_node, exec_node, sandbox_exec_node, hunt, start,
}

-- The rounds and the candidates are the same.
abbrev Same : Memory → Memory → Type 0
Same m m' = (m.iteration_count ≡ m'.iteration_count) × (m.poc_candidates ≡ m'.poc_candidates)

add_constraint-Same : (c : String) (m : Memory) → Same (add_constraint c m) m
unfolding add_constraint
add_constraint-Same c m = (ground arith, ground arith)

add_constraints-Same : (cs : List String) (m : Memory) → Same (add_constraints cs m) m
unfolding add_constraints
add_constraints-Same [] m = (refl, refl)
add_constraints-Same (c ∷ cs) m =
    let (i, p) = add_constraints-Same cs (add_constraint c m) in
    let (j, q) = add_constraint-Same c m in (i ∙ j, p ∙ q)

add_negative_evidence-Same : (e : Evidence) (m : Memory) → Same (add_negative_evidence e m) m
unfolding add_negative_evidence
add_negative_evidence-Same e m = (ground arith, ground arith)

suggest-Same : (t : String) (m : Memory) → Same (suggest t m) m
unfolding suggest add_constraint
suggest-Same t m = (ground arith, ground arith)

module _ (chat : Memory → Option PocOutput) (lint : String → LintResult)
    (sandbox : String → ExecutionResult) where
  linter_check_node-Same :
      (s : State) → Same (linter_check_node chat lint sandbox s).memory s.memory
  unfolding linter_check_node
  linter_check_node-Same s = elim (Bool-cases (lint s.current_poc).passed) [
    | inl e ↦ rw e (refl, refl)
    | inr e ↦
        let (i, p) = suggest-Same _ (add_negative_evidence _ s.memory) in
        let (j, q) = add_negative_evidence-Same _ s.memory in rw e (i ∙ j, p ∙ q)
  ]

  exec_node-Same : (s : State) → Same (exec_node chat lint sandbox s).memory s.memory
  unfolding exec_node add_negative_evidence
  exec_node-Same s = (ground arith, ground arith)

  sandbox_exec_node-Same :
      (s : State) → Same (sandbox_exec_node chat lint sandbox s).memory s.memory
  unfolding sandbox_exec_node
  sandbox_exec_node-Same s = ground (arith, exec_node-Same s)

  -- A find: the linter passed the candidate, and the sandbox found it to work.
  round_find :
      (s : State)
      → vulnerable
          (sandbox_exec_node chat lint sandbox
            (linter_check_node chat lint sandbox s)).last_exec_result
        ≡ true
      → ((lint s.current_poc).passed ≡ true) × ((sandbox s.current_poc).is_vulnerable ≡ true)
  unfolding linter_check_node sandbox_exec_node exec_node vulnerable
  round_find s h = elim (Bool-cases (lint s.current_poc).passed) [
    | inl e ↦ (e, rw e at h)
    | inr e ↦ absurd (cc (rw e at h))
  ]

  round_poc :
      (s : State)
      → (sandbox_exec_node chat lint sandbox (linter_check_node chat lint sandbox s)).current_poc
        ≡ s.current_poc
  unfolding linter_check_node sandbox_exec_node exec_node
  round_poc s = elim (Bool-cases (lint s.current_poc).passed) [ inl e ↦ rw e | inr e ↦ rw e ]

  round-Same :
      (s : State)
      → Same
          (sandbox_exec_node chat lint sandbox (linter_check_node chat lint sandbox s)).memory
          s.memory
  round-Same s =
      let (i, p) = sandbox_exec_node-Same (linter_check_node chat lint sandbox s) in
      let (j, q) = linter_check_node-Same s in (i ∙ j, p ∙ q)

  generate_poc_node-counts :
      (s s' : State)
      → generate_poc_node chat lint sandbox s ≡ some s'
      → (s'.memory.iteration_count ≡ 1 + s.memory.iteration_count)
        × (length s'.memory.poc_candidates ≡ 1 + length s.memory.poc_candidates)
  unfolding generate_poc_node remember
  generate_poc_node-counts s s' h = elim (Option-cases (chat (increment_iteration s.memory))) [
    | inl e ↦ absurd (cc (rw (e, generate_poc_node) at h))
    | inr (output, e) ↦
        let m = increment_iteration s.memory in
        let (i, p) = add_constraints-Same output.updated_constraints m in
        let g : some (record s { current_poc = output.poc_code; memory = remember output m })
            ≡ some s' =
          rw (e, generate_poc_node) at h in
        let same : record s { current_poc = output.poc_code; memory = remember output m } ≡ s' =
          cc in
        rw (sym same)
          (i, rw (p, length-append m.poc_candidates (output.poc_code ∷ [])) (ground arith))
  ]

  check_convergence-cases :
      (s : State)
      → (check_convergence s ≡ finalize)
        ⊎ ((check_convergence s ≡ generate_poc) × (s.memory.iteration_count < 10))
  unfolding check_convergence
  check_convergence-cases s = ground arith

  hunt-Ends :
      (f : ℕ) (s : State) (nodes : ℕ)
      → s.memory.iteration_count + f ≡ 10
      → s.memory.iteration_count < 10
      → (hunt chat lint sandbox f s nodes ≡ raised)
        ⊎ ((t : State) × (n : ℕ) × (hunt chat lint sandbox f s nodes ≡ done t n)
            × (n ≤ nodes + (3 * f + 1)))
  unfolding hunt
  hunt-Ends zero s nodes e l = absurd (ground arith)
  hunt-Ends (suc f) s nodes e l = elim (Option-cases (generate_poc_node chat lint sandbox s)) [
    | inl g ↦ inl (rw (g, hunt))
    | inr (s1, g) ↦
        let s3 = sandbox_exec_node chat lint sandbox (linter_check_node chat lint sandbox s1) in
        let (count, x) = generate_poc_node-counts s s1 g in
        let (same, y) = round-Same s1 in
        elim (check_convergence-cases s3) [
          | inl c ↦ inr (finalize_node s3, 4 + nodes, rw (g, c, hunt), ground arith)
          | inr (c, low) ↦
              let left : s3.memory.iteration_count + f ≡ 10 = ground arith in
              elim (hunt-Ends f s3 (3 + nodes) left low) [
                | inl r ↦ inl (rw (g, c, hunt) r)
                | inr (t, n, r, b) ↦ inr (t, n, rw (g, c, hunt) r, ground arith)
              ]
        ]
  ]

  finalize_node-find :
      (s : State)
      → (finalize_node s).is_vulnerable ≡ true
      → (vulnerable s.last_exec_result ≡ true) × ((finalize_node s).final_poc ≡ some s.current_poc)
  unfolding finalize_node
  finalize_node-find s h = elim (Bool-cases (vulnerable s.last_exec_result)) [
    | inl e ↦ (e, rw e)
    | inr e ↦ absurd (cc (rw e at h))
  ]

-- A hunt from the start ends: the model's call raises, or the hunt is over after at most 31 nodes, ten
-- rounds of three and the last one, which is within the recursion limit of 35.
pub hunt-in_limit :
    (chat : Memory → Option PocOutput) (lint : String → LintResult)
    (sandbox : String → ExecutionResult) (target : String)
    → (hunt chat lint sandbox 10 (start target) 0 ≡ raised)
      ⊎ ((t : State) × (n : ℕ) × (hunt chat lint sandbox 10 (start target) 0 ≡ done t n)
          × (n ≤ 31)
          × (n < recursion_limit))
hunt-in_limit chat lint sandbox target =
    elim (hunt-Ends chat lint sandbox 10 (start target) 0 refl (ground arith)) [
      | inl r ↦ inl r
      | inr (t, n, e, b) ↦ inr (t, n, e, b, ground arith)
    ]

-- If a hunt reports a vulnerability, its proof of concept is a text that the linter passed and whose run in
-- the sandbox found the vulnerability.
pub hunt-find :
    (chat : Memory → Option PocOutput) (lint : String → LintResult)
    (sandbox : String → ExecutionResult) (f : ℕ) (s : State) (nodes : ℕ) (t : State) (n : ℕ)
    → hunt chat lint sandbox f s nodes ≡ done t n
    → t.is_vulnerable ≡ true
    → (code : String) × (t.final_poc ≡ some code)
      × ((lint code).passed ≡ true)
      × ((sandbox code).is_vulnerable ≡ true)
unfolding hunt
hunt-find chat lint sandbox zero s nodes t n h v = absurd (cc)
hunt-find chat lint sandbox (suc f) s nodes t n h v =
    elim (Option-cases (generate_poc_node chat lint sandbox s)) [
      | inl g ↦ absurd (cc (rw (g, hunt) at h))
      | inr (s1, g) ↦
          let s3 = sandbox_exec_node chat lint sandbox (linter_check_node chat lint sandbox s1) in
          elim (check_convergence-cases chat lint sandbox s3) [
            | inl c ↦
                let over : done (finalize_node s3) (4 + nodes) ≡ done t n = rw (g, c, hunt) at h in
                let same : finalize_node s3 ≡ t = cc in
                let ended : (finalize_node s3).is_vulnerable ≡ true = rw same v in
                let (found, poc) = finalize_node-find chat lint sandbox s3 ended in
                let (passed, works) = round_find chat lint sandbox s1 found in
                (
                  s1.current_poc,
                  rw (sym same) (rw poc (ap some (round_poc chat lint sandbox s1))),
                  passed,
                  works,
                )
            | inr (c, low) ↦
                hunt-find chat lint sandbox f s3 (3 + nodes) t n (rw (g, c, hunt) at h) v
          ]
    ]
