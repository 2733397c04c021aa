-- ===== src/MainGraph/Ends.antt =====
-- How long a run of the main graph is, node by node from its end.
use security_agent.Prelude.{ℕ, suc, ◌≡◌, ◌≢◌, refl, true, List, [], ◌∷◌, some, arith, ◌⊎◌, inl, inr}
use security_agent.MainGraph.{
  Node, entry, orchestrator, investigate, vuln_check, aggregator, respond, ignore, end, State, Env,
  is_verify, execute, next_node, run_graph, route_after_verdict, route_decision,
}

abbrev Ends : ℕ → Env → Node → State → Type 0
Ends n env node s = (nodes : List Node) × (t : State) × (run_graph n env node s ≡ some (nodes, t))

module _ (env : Env) where
  Ends-end : (n : ℕ) (s : State) → Ends (suc n) env end s
  unfolding run_graph
  Ends-end n s = ([], s, refl)

  -- One node more.
  Ends-step :
      (n : ℕ) (node : Node) (s : State)
      → node ≢ end
      → Ends n env (next_node node (execute env node s)) (execute env node s)
      → Ends (suc n) env node s
  unfolding run_graph
  Ends-step n end s h r = absurd (h refl)
  Ends-step n node s h (nodes, t, e) = (node ∷ nodes, t, rw e)

  respond-Ends : (n : ℕ) (s : State) → Ends (suc (suc n)) env respond s
  respond-Ends n s =
      Ends-step (suc n) respond s (λ e. cc) (unfold next_node in Ends-end n (execute env respond s))

  ignore-Ends : (n : ℕ) (s : State) → Ends (suc (suc n)) env ignore s
  ignore-Ends n s =
      Ends-step (suc n) ignore s (λ e. cc) (unfold next_node in Ends-end n (execute env ignore s))

  verified_route :
      (s : State)
      → is_verify s.stage ≡ true
      → (route_after_verdict s ≡ respond) ⊎ (route_after_verdict s ≡ end)
  unfolding route_after_verdict
  verified_route s h = ground arith

  pub verdict_route :
      (s : State)
      → (route_after_verdict s ≡ vuln_check)
        ⊎ ((route_after_verdict s ≡ respond) ⊎ (route_after_verdict s ≡ end))
  unfolding route_after_verdict
  verdict_route s = ground arith

  aggregator_stage :
      (s : State) → is_verify s.stage ≡ true → is_verify (execute env aggregator s).stage ≡ true
  unfolding execute
  aggregator_stage s h = ground arith

  verified-Ends :
      (n : ℕ) (s : State) → is_verify s.stage ≡ true → Ends (suc (suc (suc n))) env aggregator s
  unfolding next_node
  verified-Ends n s h =
      let s' = execute env aggregator s in
      Ends-step (suc (suc n)) aggregator s (λ e. cc)
        (elim (verified_route s' (aggregator_stage s h)) [
          | inl e ↦ rw e (respond-Ends n s')
          | inr e ↦ rw e (Ends-end (suc n) s')
        ])

  vuln_check_stage : (s : State) → is_verify (execute env vuln_check s).stage ≡ true
  unfolding execute
  vuln_check_stage s = ground arith

  vuln_check-Ends : (n : ℕ) (s : State) → Ends (suc (suc (suc (suc n)))) env vuln_check s
  unfolding next_node
  vuln_check-Ends n s =
      Ends-step (suc (suc (suc n))) vuln_check s (λ e. cc)
        (verified-Ends n (execute env vuln_check s) (vuln_check_stage s))

  aggregator-Ends : (n : ℕ) (s : State) → Ends (suc (suc (suc (suc (suc n))))) env aggregator s
  unfolding next_node
  aggregator-Ends n s =
      let s' = execute env aggregator s in
      Ends-step (suc (suc (suc (suc n)))) aggregator s (λ e. cc)
        (elim (verdict_route s') [
          | inl e ↦ rw e (vuln_check-Ends n s')
          | inr later ↦ elim later [
            | inl e ↦ rw e (respond-Ends (suc (suc n)) s')
            | inr e ↦ rw e (Ends-end (suc (suc (suc n))) s')
          ]
        ])

  pub decision_route :
      (s : State)
      → (route_decision s ≡ ignore)
        ⊎ ((route_decision s ≡ vuln_check) ⊎ (route_decision s ≡ investigate))
  unfolding route_decision
  decision_route s = ground arith

  investigate-Ends :
      (n : ℕ) (s : State) → Ends (suc (suc (suc (suc (suc (suc n)))))) env investigate s
  unfolding next_node
  investigate-Ends n s =
      Ends-step (suc (suc (suc (suc (suc n))))) investigate s (λ e. cc)
        (aggregator-Ends n (execute env investigate s))

  orchestrator-Ends : (s : State) → Ends 7 env orchestrator s
  unfolding next_node
  orchestrator-Ends s =
      let s' = execute env orchestrator s in
      Ends-step 6 orchestrator s (λ e. cc)
        (elim (decision_route s') [
          | inl e ↦ rw e (ignore-Ends 4 s')
          | inr later ↦ elim later [
            | inl e ↦ rw e (vuln_check-Ends 2 s')
            | inr e ↦ rw e (investigate-Ends 0 s')
          ]
        ])

-- Whatever the subgraphs and the model return, a run of the main graph from any state ends, after at
-- most seven nodes: the route from the aggregator back to the vulnerability check is taken once.
pub run_graph-ends :
    (env : Env) (s : State)
    → (nodes : List Node) × (t : State) × (run_graph 8 env entry s ≡ some (nodes, t))
unfolding next_node
run_graph-ends env s =
    Ends-step env 7 entry s (λ e. cc) (orchestrator-Ends env (execute env entry s))
