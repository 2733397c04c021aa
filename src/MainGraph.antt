-- ===== src/MainGraph.antt =====
-- orchestration/main_graph: the nodes and the routes of graph.py, orchestrator.py, entry.py and
-- aggregator.py, and `_status_from_result` of orchestration/runner.py. What a subgraph or the model
-- returns is a parameter (`Env`); a result, a timeout or an exception. Confidence values are in
-- millionths. The audit log is the list of the nodes that wrote to it.
pub mod Ends
pub mod Routes
pub mod Runs
pub mod Outcomes
mod Examples
use security_agent.Prelude.{
  ℕ, zero, suc, Bool, true, false, ◌&&◌, ◌||◌, List, [], ◌∷◌, ◌++◌, Option, none, some, String,
  codes, contains, mem, leb, ltb, get_or, ◌==◌, if◌then◌else◌,
}
use security_agent.Version.{lower}
use security_agent.Approval.{Status, pending, approved, rejected, timeout}

pub data Priority : Type 0 where
  low medium high : Priority

pub data Stage : Type 0 where
  triage route investigation verify finished : Stage

pub data Node : Type 0 where
  entry orchestrator investigate vuln_check aggregator respond ignore end : Node

-- A subgraph's result, where a missing entry reads as the code's default.
pub record SubResult : Type 0 where
  pub final_verdict : String
  pub confidence : ℕ
  pub is_vulnerable : Bool
  pub has_poc : Bool

-- The texts that `respond_node` leaves in "error"; the second has the exception's text in it.
pub data Error : Type 0 where
  responder_timeout : Error
  responder_error : String → Error

pub record Pending : Type 0 where
  pub approval_id : Option ℕ
  pub approval_status : Option Status

pub record State : Type 0 where
  pub priority : Option Priority
  pub event_tags : List String
  pub stage : Option Stage
  pub sub : Option SubResult
  pub final_verdict : Option String
  pub confidence_score : Option ℕ
  pub pending_action : Option Pending
  pub error : Option Error
  pub audit_log : List Node

-- `await asyncio.wait_for(…)`: a result, `TimeoutError`, or another exception with its text.
pub data Outcome (A : Type 0) : Type 0 where
  returned : A → Outcome A
  timed_out : Outcome A
  raised : String → Outcome A

-- `await asyncio.wait_for(…, timeout=limit)` on what returns a value after some seconds.
pub within : {A : Type 0} → ℕ → ℕ → A → Outcome A
within limit seconds value = if ltb seconds limit then returned value else timed_out

-- `_TIMEOUT_RESPOND`
abbrev pub respond_limit : ℕ
respond_limit = 300

-- What comes from outside: the event's text and tags, the model's triage, and the three subgraphs.
pub record Env : Type 0 where
  pub text : List ℕ
  pub model_triage : Option (Priority × List String)
  pub investigation : Outcome SubResult
  pub vuln_hunt : Outcome (Bool × Bool)
  pub response : Outcome Pending

abbrev pub one_in : List String → List ℕ → Bool
one_in [] text = false
one_in (cmd ∷ cmds) text = contains text (codes cmd) || one_in cmds text

pub honeypot_rule : List ℕ → Bool
honeypot_rule text =
    one_in ("whoami" ∷ "id" ∷ "uname" ∷ "ifconfig" ∷ "cat /etc/passwd" ∷ []) (lower text)

pub triage_result : Env → Priority × List String
unfolding honeypot_rule
triage_result env =
    if honeypot_rule env.text
    then (high, "honeypot" ∷ [])
    else get_or env.model_triage (medium, "unknown" ∷ [])

entry_node : State → State
entry_node s = record s { stage = some triage; error = none; audit_log = s.audit_log ++ entry ∷ [] }

orchestrator_node : Env → State → State
unfolding triage_result
orchestrator_node env s = record s {
  priority = some (triage_result env).0;
  event_tags = (triage_result env).1;
  stage = some route;
  audit_log = s.audit_log ++ orchestrator ∷ [];
}

abbrev failed_sub : String → SubResult
failed_sub verdict = record {
  final_verdict = verdict;
  confidence = 0;
  is_vulnerable = false;
  has_poc = false;
}

-- A result of the investigation leaves the stage alone; a failure sets it.
investigate_node : Env → State → State
investigate_node env s = elim env.investigation [
  | returned sub ↦ record s { sub = some (record sub { is_vulnerable = false; has_poc = false }) }
  | timed_out ↦ record s { stage = some investigation; sub = some (failed_sub "timeout") }
  | raised e ↦ record s { stage = some investigation; sub = some (failed_sub "error") }
]

abbrev hunted : Bool → Bool → SubResult
hunted vulnerable poc = record {
  final_verdict = if vulnerable then "true_positive" else "false_positive";
  confidence = if vulnerable then 950000 else 200000;
  is_vulnerable = vulnerable;
  has_poc = poc;
}

vuln_check_node : Env → State → State
vuln_check_node env s = elim env.vuln_hunt [
  | returned r ↦ record s { stage = some verify; sub = some (hunted r.0 r.1) }
  | timed_out ↦ record s { stage = some verify; sub = some (failed_sub "timeout") }
  | raised e ↦ record s { stage = some verify; sub = some (failed_sub "error") }
]

abbrev pub verdict_of : Option SubResult → String
verdict_of none = "unknown"
verdict_of (some sub) = sub.final_verdict

abbrev pub confidence_of : Option SubResult → ℕ
confidence_of none = 0
confidence_of (some sub) = sub.confidence

aggregator_node : State → State
aggregator_node s = record s {
  final_verdict = some (verdict_of s.sub);
  confidence_score = some (confidence_of s.sub);
  stage = some (get_or s.stage investigation);
  audit_log = s.audit_log ++ aggregator ∷ [];
}

ignore_node : State → State
ignore_node s = record s {
  final_verdict = some "ignored";
  stage = some finished;
  audit_log = s.audit_log ++ ignore ∷ [];
}

respond_node : Env → State → State
respond_node env s = elim env.response [
  | returned p ↦ record s { pending_action = some p }
  | timed_out ↦ record s { error = some responder_timeout }
  | raised e ↦ record s { error = some (responder_error e) }
]

pub route_decision : State → Node
route_decision s = elim (get_or s.priority low) [
  | low ↦ ignore
  | _ ↦ if mem "vulnerability" s.event_tags then vuln_check else investigate
]

abbrev pub is_verify : Option Stage → Bool
is_verify (some verify) = true
is_verify _ = false

abbrev pub has_vuln : Option SubResult → Bool
has_vuln none = false
has_vuln (some sub) = sub.is_vulnerable || sub.has_poc

pub route_after_verdict : State → Node
route_after_verdict s =
    if is_verify s.stage
    then (if (verdict_of s.sub == "true_positive") || has_vuln s.sub then respond else end)
    else if (verdict_of s.sub == "true_positive") && leb 800000 (confidence_of s.sub)
    then respond
    else if leb 500000 (confidence_of s.sub) && ltb (confidence_of s.sub) 800000
    then vuln_check
    else end

pub execute : Env → Node → State → State
unfolding entry_node orchestrator_node investigate_node vuln_check_node aggregator_node ignore_node
    respond_node
execute env entry s = entry_node s
execute env orchestrator s = orchestrator_node env s
execute env investigate s = investigate_node env s
execute env vuln_check s = vuln_check_node env s
execute env aggregator s = aggregator_node s
execute env respond s = respond_node env s
execute env ignore s = ignore_node s
execute env end s = s

-- The edges of `build_main_graph`.
pub next_node : Node → State → Node
unfolding route_decision route_after_verdict
next_node entry s = orchestrator
next_node orchestrator s = route_decision s
next_node investigate s = aggregator
next_node vuln_check s = aggregator
next_node aggregator s = route_after_verdict s
next_node respond s = end
next_node ignore s = end
next_node end s = end

-- A run from a node on, with the nodes that it goes through, on fuel.
pub run_graph : ℕ → Env → Node → State → Option (List Node × State)
run_graph zero env node s = none
run_graph (suc f) env end s = some ([], s)
run_graph (suc f) env node s =
    let s' = execute env node s in
    elim (run_graph f env (next_node node s') s') [
      | none ↦ none
      | some (nodes, t) ↦ some (node ∷ nodes, t)
    ]

abbrev pub initial : State
initial = record {
  priority = none;
  event_tags = [];
  stage = none;
  sub = none;
  final_verdict = none;
  confidence_score = none;
  pending_action = none;
  error = none;
  audit_log = [];
}

pub data EventStatus : Type 0 where
  completed error_status rejected_status pending_approval : EventStatus

has_id : Option Pending → Bool
has_id none = false
has_id (some p) = elim p.approval_id [ none ↦ false | some i ↦ true ]

abbrev pub approval_of : Option Pending → Option Status
approval_of none = none
approval_of (some p) = p.approval_status

pub status_from_result : Option Pending → Option Error → EventStatus
unfolding has_id
status_from_result p (some e) = error_status
status_from_result p none = elim (approval_of p) [
  | some approved ↦ completed
  | some rejected ↦ rejected_status
  | some timeout ↦ error_status
  | _ ↦ if has_id p then pending_approval else completed
]
