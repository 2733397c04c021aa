-- ===== src/MainGraph/Routes.antt =====
-- Which runs of the main graph reach the responder.
use security_agent.Prelude.{
  sym, ℕ, zero, suc, ◌≤◌, ◌≡◌, ◌≢◌, refl, Bool, true, false, ◌||◌, List, [], ◌∷◌, some, arith, ◌⊎◌,
  inl, inr, Option-cases, eq_iff, String,
}
use security_agent.MainGraph.Ends.{verdict_route, decision_route}
use security_agent.MainGraph.{
  low, Node, entry, orchestrator, investigate, vuln_check, aggregator, respond, ignore, end, State,
  Env, SubResult, Outcome, returned, timed_out, raised, is_verify, execute, next_node, run_graph,
  route_after_verdict, route_decision, triage_result, verdict_of, confidence_of, has_vuln, hunted,
}

-- What a response rests on.
abbrev pub Cause : Env → Type 0
Cause env =
    ((sub : SubResult) × (env.investigation ≡ returned sub)
      × (sub.final_verdict ≡ "true_positive")
      × (800000 ≤ sub.confidence))
    ⊎ ((found : Bool × Bool) × (env.vuln_hunt ≡ returned found) × (found.0 || found.1 ≡ true))

abbrev NotLow : Env → Type 0
NotLow env = (triage_result env).0 ≢ low

-- The invariant of a run, at the node that comes next.
abbrev Inv : Env → Node → State → Type 0
Inv env investigate s = NotLow env × (is_verify s.stage ≡ false)
Inv env vuln_check s = NotLow env
Inv env aggregator s =
    NotLow env × (route_after_verdict (execute env aggregator s) ≡ respond → Cause env)
Inv env respond s = NotLow env × Cause env
Inv env _ s = Unit

abbrev is_respond : Node → Bool
is_respond respond = true
is_respond _ = false

abbrev pub responds : List Node → Bool
responds [] = false
responds (node ∷ nodes) = is_respond node || responds nodes

-- `route_after_verdict` on its two stages.
first_route :
    (s : State)
    → is_verify s.stage ≡ false
    → route_after_verdict s ≡ respond
    → (verdict_of s.sub ≡ "true_positive") × (800000 ≤ confidence_of s.sub)
unfolding route_after_verdict
first_route s h r = ground (arith, (eq_iff (verdict_of s.sub) "true_positive").0)

later_route :
    (s : State)
    → is_verify s.stage ≡ true
    → route_after_verdict s ≡ respond
    → (verdict_of s.sub ≡ "true_positive") ⊎ (has_vuln s.sub ≡ true)
unfolding route_after_verdict
later_route s h r = ground (arith, (eq_iff (verdict_of s.sub) "true_positive").0)

Outcome-cases :
    {A : Type 0} (o : Outcome A)
    → ((a : A) × (o ≡ returned a)) ⊎ ((o ≡ timed_out) ⊎ ((e : String) × (o ≡ raised e)))
Outcome-cases (returned a) = inl (a, refl)
Outcome-cases timed_out = inr (inl refl)
Outcome-cases (raised e) = inr (inr (e, refl))

module _ (env : Env) where
  -- The two stages, through the nodes.
  investigated :
      (s : State)
      → is_verify s.stage ≡ false
      → is_verify (execute env aggregator (execute env investigate s)).stage ≡ false
  unfolding execute
  investigated s h = ground arith

  checked : (s : State) → is_verify (execute env aggregator (execute env vuln_check s)).stage ≡ true
  unfolding execute
  checked s = ground arith

  investigated_sub :
      (s : State)
      → verdict_of (execute env aggregator (execute env investigate s)).sub ≡ "true_positive"
      → 800000 ≤ confidence_of (execute env aggregator (execute env investigate s)).sub
      → Cause env
  unfolding execute
  investigated_sub s v c = elim (Outcome-cases env.investigation) [
    | inl (sub, e) ↦ inl (sub, e, rw e at v, rw e at c)
    | inr (inl e) ↦ absurd (ground (arith, rw e at c))
    | inr (inr (x, e)) ↦ absurd (ground (arith, rw e at c))
  ]

  hunted_vuln :
      (v p : Bool)
      → ((hunted v p).final_verdict ≡ "true_positive") ⊎ (has_vuln (some (hunted v p)) ≡ true)
      → v || p ≡ true
  hunted_vuln true p h = refl
  hunted_vuln false true h = refl
  hunted_vuln false false h = absurd (elim h [ inl e ↦ cc | inr e ↦ cc ])

  -- What the orchestrator leaves to the decision.
  triaged :
      (s : State)
      → route_decision (execute env orchestrator s) ≢ ignore
      → NotLow env × (is_verify (execute env orchestrator s).stage ≡ false)
  unfolding execute route_decision
  triaged s h = (λ e. h (rw e), refl)

  checked_sub :
      (s : State)
      → (verdict_of (execute env aggregator (execute env vuln_check s)).sub ≡ "true_positive")
        ⊎ (has_vuln (execute env aggregator (execute env vuln_check s)).sub ≡ true)
      → Cause env
  unfolding execute
  checked_sub s h = elim (Outcome-cases env.vuln_hunt) [
    | inl (found, e) ↦ inr (found, e, hunted_vuln found.0 found.1 (rw e at h))
    | inr (inl e) ↦ absurd (elim (rw e at h) [ inl v ↦ cc | inr v ↦ cc ])
    | inr (inr (x, e)) ↦ absurd (elim (rw e at h) [ inl v ↦ cc | inr v ↦ cc ])
  ]

  Inv-step :
      (node : Node) (s : State)
      → Inv env node s
      → Inv env (next_node node (execute env node s)) (execute env node s)
  unfolding next_node
  Inv-step entry s i = tt
  Inv-step orchestrator s i =
      let s' = execute env orchestrator s in
      elim (decision_route env s') [
        | inl e ↦ rw e tt
        | inr (inl e) ↦ rw e (triaged s (λ f. absurd (cc))).0
        | inr (inr e) ↦ rw e (triaged s (λ f. absurd (cc)))
      ]
  Inv-step investigate s (n, h) = (
    n,
    λ r.
        let (v, c) =
          first_route (execute env aggregator (execute env investigate s)) (investigated s h) r in
        investigated_sub s v c,
  )
  Inv-step vuln_check s n = (
    n,
    λ r.
        checked_sub s
          (later_route (execute env aggregator (execute env vuln_check s)) (checked s) r),
  )
  Inv-step aggregator s (n, h) = elim (verdict_route env (execute env aggregator s)) [
    | inl e ↦ rw e n
    | inr (inl e) ↦ rw e (n, h e)
    | inr (inr e) ↦ rw e tt
  ]
  Inv-step respond s i = tt
  Inv-step ignore s i = tt
  Inv-step end s i = tt

  -- The first node of a run, and the run behind it.
  run_graph-step :
      (f : ℕ) (node : Node) (s : State) (nodes : List Node) (t : State)
      → node ≢ end
      → run_graph (suc f) env node s ≡ some (nodes, t)
      → (rest : List Node) × (run_graph f env
            (next_node node (execute env node s))
            (execute env node s)
          ≡ some (rest, t))
        × (nodes ≡ node ∷ rest)
  unfolding run_graph
  run_graph-step f end s nodes t h e = absurd (h refl)
  run_graph-step f node s nodes t h e =
      elim (Option-cases
        (run_graph f env (next_node node (execute env node s)) (execute env node s))) [
          | inl d ↦ absurd (cc (rw d at e))
          | inr ((rest, u), d) ↦
              let g : some (node ∷ rest, u) ≡ some (nodes, t) = rw d at e in (rest, cc, cc)
        ]

  run_graph-Inv :
      (f : ℕ) (node : Node) (s : State) (nodes : List Node) (t : State)
      → Inv env node s
      → run_graph f env node s ≡ some (nodes, t)
      → responds nodes ≡ true
      → NotLow env × Cause env
  unfolding run_graph
  run_graph-Inv zero node s nodes t i e r = absurd (cc)
  run_graph-Inv (suc f) respond s nodes t i e r = i
  run_graph-Inv (suc f) end s nodes t i e r =
      let g : [] ≡ nodes = cc in absurd (cc (rw (sym g) at r))
  run_graph-Inv (suc f) node s nodes t i e r =
      let (rest, d, g) = run_graph-step f node s nodes t (λ x. absurd (cc)) e in
      run_graph-Inv f _ (execute env node s) rest t (Inv-step node s i) d (rw g at r)

-- A run that reaches the responder rests on a triage above 'low', and on an investigation that came
-- back with 'true_positive' and a confidence of 0.8 or more, or on a vulnerability check that came
-- back with 'vulnerable' or with a proof of concept: neither a timeout nor an exception of a
-- subgraph leads to a response.
pub run_graph-Cause :
    (env : Env) (f : ℕ) (s : State) (nodes : List Node) (t : State)
    → run_graph f env entry s ≡ some (nodes, t)
    → responds nodes ≡ true
    → ((triage_result env).0 ≢ low) × Cause env
run_graph-Cause env f s nodes t e r = run_graph-Inv env f entry s nodes t tt e r
