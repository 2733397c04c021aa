-- ===== src/MainGraph/Runs.antt =====
-- The runs of the main graph on a noise event and on a confirmed one, node by node.
use security_agent.Prelude.{
  ℕ, suc, ◌≤◌, ◌≡◌, ◌≢◌, refl, false, List, [], ◌∷◌, none, some, arith, mem, le→leb,
}
use security_agent.MainGraph.{
  Priority, low, medium, high, Node, entry, orchestrator, investigate, aggregator, respond, ignore,
  end, State, Env, SubResult, returned, finished, is_verify, execute, next_node, run_graph,
  route_after_verdict, route_decision, triage_result, verdict_of, confidence_of,
}

run_graph-at_end : (f : ℕ) (env : Env) (s : State) → run_graph (suc f) env end s ≡ some ([], s)
unfolding run_graph
run_graph-at_end f env s = refl

-- A node before a run.
run_graph-before :
    (f : ℕ) (env : Env) (node : Node) (s : State) (rest : List Node) (t : State)
    → node ≢ end
    → run_graph f env (next_node node (execute env node s)) (execute env node s) ≡ some (rest, t)
    → run_graph (suc f) env node s ≡ some (node ∷ rest, t)
unfolding run_graph
run_graph-before f env end s rest t h e = absurd (h refl)
run_graph-before f env node s rest t h e = rw e

-- The entry and the orchestrator, and the node that the decision takes.
after_entry :
    (env : Env) (s : State) (node : Node) (rest : List Node) (t : State)
    → route_decision (execute env orchestrator (execute env entry s)) ≡ node
    → run_graph 6 env node (execute env orchestrator (execute env entry s)) ≡ some (rest, t)
    → run_graph 8 env entry s ≡ some (entry ∷ orchestrator ∷ rest, t)
unfolding next_node
after_entry env s node rest t d e =
    run_graph-before 7 env entry s (orchestrator ∷ rest) t (λ x. cc)
      (run_graph-before 6 env orchestrator (execute env entry s) rest t (λ x. cc) (rw d e))

low_ignored : (s : State) → s.priority ≡ some low → route_decision s ≡ ignore
unfolding route_decision
low_ignored s h = rw h

untagged_investigated :
    (s : State) (p : Priority)
    → s.priority ≡ some p
    → p ≢ low
    → mem "vulnerability" s.event_tags ≡ false
    → route_decision s ≡ investigate
unfolding route_decision
untagged_investigated s low h n m = absurd (n refl)
untagged_investigated s medium h n m = rw (h, m)
untagged_investigated s high h n m = rw (h, m)

confirmed_responded :
    (s : State)
    → is_verify s.stage ≡ false
    → verdict_of s.sub ≡ "true_positive"
    → 800000 ≤ confidence_of s.sub
    → route_after_verdict s ≡ respond
unfolding route_after_verdict
confirmed_responded s h v c = rw (h, v, le→leb 800000 (confidence_of s.sub) c)

-- An event that the triage calls 'low' is archived: the run is the entry, the orchestrator and the
-- node that ignores, its verdict is 'ignored', its stage 'done', and it has no error.
pub run_graph-ignored :
    (env : Env) (s : State)
    → (triage_result env).0 ≡ low
    → (t : State) × (run_graph 8 env entry s ≡ some (entry ∷ orchestrator ∷ ignore ∷ [], t))
      × (t.final_verdict ≡ some "ignored")
      × (t.stage ≡ some finished)
      × (t.error ≡ none)
unfolding next_node execute
run_graph-ignored env s h =
    let s' = execute env orchestrator (execute env entry s) in
    let t = execute env ignore s' in
    (
      t,
      after_entry env s ignore (ignore ∷ []) t (low_ignored s' (rw h))
          (run_graph-before 5 env ignore s' [] t (λ e. cc) (run_graph-at_end 4 env t)),
      refl,
      refl,
      refl,
    )

orchestrated :
    (env : Env) (s : State)
    → let s' = execute env orchestrator (execute env entry s) in
      (is_verify s'.stage ≡ false)
      × (s'.priority ≡ some (triage_result env).0)
      × (s'.event_tags ≡ (triage_result env).1)
unfolding execute
orchestrated env s = (refl, refl, refl)

-- What the aggregator sees behind the investigation.
investigation_seen :
    (env : Env) (s : State) (sub : SubResult)
    → env.investigation ≡ returned sub
    → is_verify s.stage ≡ false
    → let s' = execute env aggregator (execute env investigate s) in
      (is_verify s'.stage ≡ false)
      × (verdict_of s'.sub ≡ sub.final_verdict)
      × (confidence_of s'.sub ≡ sub.confidence)
      × (s'.final_verdict ≡ some sub.final_verdict)
unfolding execute
investigation_seen env s sub e h = (ground arith, rw e, rw e, rw e)

respond_keeps : (env : Env) (s : State) → (execute env respond s).final_verdict ≡ s.final_verdict
unfolding execute
respond_keeps env s = ground arith

-- An event that is not 'low' and has no tag 'vulnerability', and whose investigation comes back with
-- 'true_positive' and a confidence of 0.8 or more, is responded to: the run is the entry, the
-- orchestrator, the investigation, the aggregator and the responder.
pub run_graph-responds :
    (env : Env) (s : State) (sub : SubResult)
    → (triage_result env).0 ≢ low
    → mem "vulnerability" (triage_result env).1 ≡ false
    → env.investigation ≡ returned sub
    → sub.final_verdict ≡ "true_positive"
    → 800000 ≤ sub.confidence
    → (t : State) × (run_graph 8 env entry s
        ≡ some (entry ∷ orchestrator ∷ investigate ∷ aggregator ∷ respond ∷ [], t))
      × (t.final_verdict ≡ some "true_positive")
unfolding next_node
run_graph-responds env s sub h m e v c =
    let s2 = execute env orchestrator (execute env entry s) in
    let s3 = execute env investigate s2 in
    let s4 = execute env aggregator s3 in
    let t = execute env respond s4 in
    let (stage, verdict, conf, final) = investigation_seen env s2 sub e (orchestrated env s).0 in
    let decided = confirmed_responded s4 stage (cc) (rw conf c) in
    let done = run_graph-before 3 env respond s4 [] t (λ x. cc) (run_graph-at_end 2 env t) in
    (
      t,
      after_entry env s investigate _ t
          (untagged_investigated s2 (triage_result env).0 (orchestrated env s).1 h
            (rw (orchestrated env s).2 m))
          (run_graph-before 5 env investigate s2 _ t (λ x. cc)
            (run_graph-before 4 env aggregator s3 _ t (λ x. cc) (rw decided done))),
      cc (respond_keeps env s4, final, v),
    )
