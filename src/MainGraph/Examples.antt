-- ===== src/MainGraph/Examples.antt =====
-- Runs of the main graph on concrete events.
use security_agent.Prelude.{◌≡◌, ◌≢◌, refl, false, List, [], ◌∷◌, Option, none, some, codes, arith}
use security_agent.Approval.{pending, approved}
use security_agent.Responder.{Poll}
use security_agent.MainGraph.Ends.{run_graph-ends}
use security_agent.MainGraph.Routes.{Cause, run_graph-Cause}
use security_agent.MainGraph.Runs.{run_graph-responds}
use security_agent.MainGraph.{
  low, Node, entry, orchestrator, investigate, aggregator, respond, Pending, State, Env, SubResult,
  returned, timed_out, raised, initial, triage_result, run_graph, execute, within, respond_limit,
  honeypot_rule, next_node, route_decision, route_after_verdict,
}

abbrev confirmed : SubResult
confirmed = record {
  final_verdict = "true_positive";
  confidence = 930000;
  is_vulnerable = false;
  has_poc = false;
}

abbrev approved_action : Pending
approved_action = record { approval_id = some 7; approval_status = some approved }

-- A login from a honeypot, whose response takes longer than 300 seconds.
abbrev honeypot_env : Env
honeypot_env = record {
  text = codes "ssh: root ran WhoAmI";
  model_triage = none;
  investigation = returned confirmed;
  vuln_hunt = timed_out;
  response = within respond_limit 400 approved_action;
}

abbrev noise_env : Env
noise_env = record {
  text = codes "cron: job done";
  model_triage = some (low, "noise" ∷ []);
  investigation = raised "not reached";
  vuln_hunt = timed_out;
  response = timed_out;
}

abbrev route_of : Option (List Node × State) → List Node
route_of none = []
route_of (some (nodes, s)) = nodes

honeypot_route :
    route_of (run_graph 8 honeypot_env entry initial)
    ≡ entry ∷ orchestrator ∷ investigate ∷ aggregator ∷ respond ∷ []
unfolding run_graph execute next_node route_decision route_after_verdict honeypot_rule triage_result
    within security_agent.Version.lower
honeypot_route = refl

abbrev honeypot_final : State
unfolding execute
honeypot_final =
    let s = execute honeypot_env orchestrator (execute honeypot_env entry initial) in
    execute honeypot_env respond
      (execute honeypot_env aggregator (execute honeypot_env investigate s))

run_graph-ends_example :
    (nodes : List Node) × (t : State) × (run_graph 8 honeypot_env entry initial ≡ some (nodes, t))
run_graph-ends_example = run_graph-ends honeypot_env initial

run_graph-Cause_example : ((triage_result honeypot_env).0 ≢ low) × Cause honeypot_env
unfolding run_graph execute next_node route_decision route_after_verdict honeypot_rule triage_result
    within security_agent.Version.lower
run_graph-Cause_example =
    run_graph-Cause honeypot_env 8 initial
      (entry ∷ orchestrator ∷ investigate ∷ aggregator ∷ respond ∷ []) honeypot_final refl refl

run_graph-responds_example :
    (t : State) × (run_graph 8 honeypot_env entry initial
      ≡ some (entry ∷ orchestrator ∷ investigate ∷ aggregator ∷ respond ∷ [], t))
    × (t.final_verdict ≡ some "true_positive")
unfolding triage_result honeypot_rule security_agent.Version.lower
run_graph-responds_example =
    run_graph-responds honeypot_env initial confirmed (λ e. absurd (cc)) refl refl refl
      (ground arith)

-- An L4 playbook that is approved after 400 seconds, of the 900 that it has.
abbrev slow_approval : List Poll
slow_approval =
    record { elapsed = 200; message = none; row = pending }
    ∷ record { elapsed = 400; message = some approved; row = approved }
    ∷ []
