-- ===== src/Responder.antt =====
-- orchestration/subgraphs/responder: playbook_matcher.py, the nodes of hitl_handler.py and the wiring
-- of graph.py. Confidence values are numbers in millionths. The model's answer is a parameter
-- (`none` where the call raises), and so is what the wait for an approval sees.
pub mod Gate
pub mod Waiting
mod Examples
use security_agent.Prelude.{
  ℕ, ◌+◌, ◌*◌, Bool, true, false, ◌&&◌, ◌||◌, not, List, [], ◌∷◌, map, Option, none, some, String,
  codes, contains, any, mem, ltb, leb, eqb, get_or, ◌==◌, if◌then◌else◌,
}
use security_agent.Approval.{
  Status, pending, approved, rejected, timeout, Level, l1, l2, l3, l4, l5, is_pending,
}

pub record Operation : Type 0 where
  pub kind : String
  pub level : Level

-- any(kw in op_type for kw in …)
abbrev pub names : List String → String → Bool
names [] op_type = false
names (kw ∷ kws) op_type = contains (codes op_type) (codes kw) || names kws op_type

-- `_infer_level`: the keywords of the highest level that has one.
pub infer_level : String → Level
infer_level op_type =
    if names ("global_block" ∷ "shutdown" ∷ "wipe" ∷ []) op_type
    then l5
    else if names ("isolate_host" ∷ "network_block" ∷ "bulk" ∷ []) op_type
    then l4
    else if names ("firewall_block" ∷ "edr_policy" ∷ "dns_block" ∷ []) op_type
    then l3
    else if names ("quarantine_file" ∷ "terminate_process" ∷ []) op_type
    then l2
    else l1

abbrev pub level_rank : Level → ℕ
level_rank l1 = 1
level_rank l2 = 2
level_rank l3 = 3
level_rank l4 = 4
level_rank l5 = 5

-- A playbook file: its trigger, and its operations with the level where the file gives one.
pub record PlaybookFile : Type 0 where
  pub verdict : Option String
  pub confidence_min : ℕ
  pub event_tags : List String
  pub operations : List (String × Option Level)

pub record Event : Type 0 where
  pub verdict : String
  pub confidence : ℕ
  pub event_tags : List String

is_verdict : Option String → String → Bool
is_verdict none v = false
is_verdict (some w) v = w == v

no_tags : List String → Bool
no_tags [] = true
no_tags (t ∷ ts) = false

pub triggers : PlaybookFile → Event → Bool
unfolding is_verdict no_tags
triggers pb e =
    is_verdict pb.verdict e.verdict
    && leb pb.confidence_min e.confidence
    && (no_tags pb.event_tags || any (λ t. mem t e.event_tags) pb.event_tags)

pub match_playbook : List PlaybookFile → Event → Option PlaybookFile
unfolding triggers
match_playbook [] e = none
match_playbook (pb ∷ pbs) e = if triggers pb e then some pb else match_playbook pbs e

from_file : String × Option Level → Operation
from_file (kind, level) = record { kind = kind; level = get_or level l1 }

from_model : String → Operation
unfolding infer_level
from_model kind = record { kind = kind; level = infer_level kind }

-- The operations of `playbook_matcher_node`: of the file that matches, of the model's answer, or one tag.
pub plan : List PlaybookFile → Event → Option (List String) → List Operation
unfolding match_playbook from_file from_model
plan files e answer = elim (match_playbook files e) [
  | some pb ↦ map from_file pb.operations
  | none ↦ elim answer [
    | some kinds ↦ map from_model kinds
    | none ↦ record { kind = "siem_tag"; level = l1 } ∷ []
  ]
]

-- The loop for the highest level, from the one so far.
pub max_level : Level → List Operation → Level
max_level m [] = m
max_level m (op ∷ ops) =
    max_level (if ltb (level_rank m) (level_rank op.level) then op.level else m) ops

-- `_LEVEL_TIMEOUT` in seconds and `_REQUIRED_APPROVERS`, with their defaults.
abbrev pub level_timeout : Level → ℕ
level_timeout l4 = 900
level_timeout l5 = 1800
level_timeout _ = 300

abbrev pub required_approvers : Level → ℕ
required_approvers l4 = 2
required_approvers l5 = 2
required_approvers _ = 1

-- settings.hitl_timeout_sec or _LEVEL_TIMEOUT.get(level, 300)
unfoldable pub approval_timeout : ℕ → Level → ℕ
approval_timeout configured level = if eqb configured 0 then level_timeout level else configured

-- What one turn of the loop of `wait_result` sees: the seconds since its start, the status that a
-- message carries if one came, and the status of the row.
pub record Poll : Type 0 where
  pub elapsed : ℕ
  pub message : Option Status
  pub row : Status

-- The loop. The result is the status and when it came; `none` means that it still waits after these
-- turns. At its limit the code also calls `resolve` of the store with 'timeout', a step of Approval.
pub wait_loop : ℕ → List Poll → Option (Status × ℕ)
wait_loop limit [] = none
wait_loop limit (p ∷ ps) =
    let rest = wait_loop limit ps in
    if leb limit p.elapsed then some (timeout, p.elapsed) else elim p.message [
      | none ↦ rest
      | some status ↦
          if not (is_pending status)
          then some (status, p.elapsed)
          else if not (is_pending p.row)
          then some (p.row, p.elapsed)
          else rest
    ]

-- `wait_result`: the row before the subscription, the row after it, and the loop.
unfoldable pub wait_result : ℕ → Status → Status → List Poll → Option (Status × ℕ)
unfolding wait_loop
wait_result limit before after polls =
    if not (is_pending before)
    then some (before, 0)
    else if not (is_pending after)
    then some (after, 0)
    else wait_loop limit polls

abbrev pub is_auto : Level → Bool
is_auto l1 = true
is_auto l2 = true
is_auto _ = false

-- The status that `hitl_approval_node` returns for the result of the wait.
pub hitl_status : Level → Status → Status
hitl_status level result = if is_auto level then approved else elim result [
  | approved ↦ approved
  | rejected ↦ rejected
  | timeout ↦ rejected
  | pending ↦ pending
]

pub data Execution : Type 0 where
  executed : List Operation → Execution
  turned_down : Status → Execution

abbrev pub is_approved : Status → Bool
is_approved approved = true
is_approved _ = false

-- The subgraph from the planned operations on: approval, `route_after_hitl`, and the node behind it.
pub respond : List Operation → Status → Execution
unfolding max_level hitl_status
respond ops result =
    let status = hitl_status (max_level l1 ops) result in
    if is_approved status then executed ops else turned_down status
