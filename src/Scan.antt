-- ===== src/Scan.antt =====
-- The scan of hosts in orchestration/subgraphs/vulnscan/nodes.py, from the targets to the agents' answers: `_resolve_targets`,
-- `dispatch` with `broadcast` of agents/ws_gateway.py, the tests of a cancellation, and `collect`. The list of hosts,
-- the sends and what each turn of `collect` reads are parameters; two readings of the clock in one turn are one.
-- The knobs of nuclei, the key vulnscan:collect:…, messages and logs are left out.
pub mod Groups
pub mod Targets
pub mod Waits
pub mod Aggregate
mod Examples
use security_agent.Prelude.{
  ℕ, zero, suc, ◌+◌, ◌*◌, Bool, true, false, not, ◌&&◌, ◌||◌, List, [], ◌∷◌, ◌++◌, Option, none,
  some, String, ◌==◌, ltb, leb, eqb, length, mem, get_or, take, if◌then◌else◌,
}

pub record Host : Type 0 where
  pub agent_id : String
  pub hostname : String
  pub ip : String
  pub group : Option String

-- What the code keeps of a task: its status, its statistics and its engine.
pub record Task : Type 0 where
  pub status : String
  pub total : ℕ
  pub done : ℕ
  pub failed : ℕ
  pub engine : String

-- _add
pub add : String → List String → List String
add a resolved = if (a == "") || mem a resolved then resolved else resolved ++ a ∷ []

pub names : String → Host → Bool
names target h = (h.agent_id == target) || ((h.hostname == target) || (h.ip == target))

pub in_group : String → Option String → Bool
in_group target none = false
in_group target (some g) = g == target

-- The loop over the hosts, which stops at the first one that the target names.
pub resolve_target : String → List Host → List String → List String
unfolding add names in_group
resolve_target target [] resolved = resolved
resolve_target target (h ∷ hosts) resolved =
    let rest =
      resolve_target target hosts
        (if in_group target h.group then add h.agent_id resolved else resolved) in
    if names target h then add h.agent_id resolved else rest

pub resolve_all : List String → List Host → List String → List String
unfolding resolve_target
resolve_all [] hosts resolved = resolved
resolve_all (t ∷ targets) hosts resolved =
    resolve_all targets hosts (resolve_target t hosts resolved)

abbrev pub or_else : List String → List String → List String
or_else [] targets = targets
or_else (a ∷ resolved) targets = a ∷ resolved

abbrev pub host_limit : ℕ
host_limit = 1000

-- The hosts that the store lists as online, of which it gives the first thousand.
abbrev pub listed : List Host → List Host
listed hosts = take host_limit hosts

pub resolve_targets : List String → List Host → List String
unfolding resolve_all
resolve_targets targets hosts = or_else (resolve_all targets (listed hosts) []) targets

-- EXISTS of the key of a cancellation, none where it raises.
pub is_task_cancelled : Option Bool → Bool
is_task_cancelled none = true
is_task_cancelled (some there) = there

-- With the answers to both checks.
pub confirm_cancellation : Option Bool → Option Bool → Bool
unfolding is_task_cancelled
confirm_cancellation first second = is_task_cancelled first && is_task_cancelled second

pub count_failed : (String → Bool) → List String → ℕ
count_failed sends [] = 0
count_failed sends (a ∷ ids) = (if sends a then 0 else 1) + count_failed sends ids

pub count_sent : (String → Bool) → List String → ℕ
count_sent sends [] = 0
count_sent sends (a ∷ ids) = (if sends a then 1 else 0) + count_sent sends ids

abbrev pub has_matcher : String → Bool
has_matcher engine = (engine == "matcher") || (engine == "global")

abbrev pub has_nuclei : String → Bool
has_nuclei engine = (engine == "nuclei") || (engine == "global")

-- Whether `send_to_agent` takes the command of an engine for an agent.
abbrev pub Gate : Type 0
Gate = String → String → Bool

-- Both lanes, summed.
pub total_failed : Gate → String → List String → ℕ
unfolding count_failed
total_failed gate engine ids =
    (if has_matcher engine then count_failed (gate "matcher") ids else 0)
    + (if has_nuclei engine then count_failed (gate "nuclei") ids else 0)

pub total_sent : Gate → String → List String → ℕ
unfolding count_sent
total_sent gate engine ids =
    (if has_matcher engine then count_sent (gate "matcher") ids else 0)
    + (if has_nuclei engine then count_sent (gate "nuclei") ids else 0)

-- What a node returns, with the task as the store has it, if it was saved.
pub record Step : Type 0 where
  pub status : String
  pub total_targets : ℕ
  pub received_results : ℕ
  pub stored : Option Task

abbrev pub dispatching : Gate → String → List String → Step
dispatching gate engine [] = record {
  status = "failed";
  total_targets = 0;
  received_results = 0;
  stored = some (record { status = "failed"; total = 0; done = 0; failed = 0; engine = engine });
}
dispatching gate engine (a ∷ ids) = record {
  status = "scanning";
  total_targets = length (a ∷ ids);
  received_results = total_sent gate engine (a ∷ ids);
  stored = some (record {
    status = "scanning";
    total = length (a ∷ ids);
    done = total_sent gate engine (a ∷ ids);
    failed = total_failed gate engine (a ∷ ids);
    engine = engine;
  });
}

pub dispatch : Gate → String → List String → List Host → Bool → Step
dispatch gate engine targets hosts cancelled =
    if cancelled
    then record { status = "cancelled"; total_targets = 0; received_results = 0; stored = none }
    else dispatching gate engine (resolve_targets targets hosts)

pub record Batch : Type 0 where
  pub agent_id : String
  pub is_final : Bool

-- What a turn of the loop meets: whether a cancellation was confirmed, the results, and the time.
pub record Turn : Type 0 where
  pub cancelled : Bool
  pub results : List Batch
  pub time : ℕ

pub final_received : List Batch → ℕ
final_received [] = 0
final_received (b ∷ results) = (if b.is_final then 1 else 0) + final_received results

-- The agents of the final batches, each once.
pub final_agents : List Batch → List String
final_agents [] = []
final_agents (b ∷ results) =
    let rest = final_agents results in
    if b.is_final && not (mem b.agent_id rest) then b.agent_id ∷ rest else rest

abbrev pub expected_per_agent : String → ℕ
expected_per_agent engine = if engine == "global" then 2 else 1

pub done_complete : ℕ → String → ℕ → Turn → Bool
unfolding final_received
done_complete total engine deadline t =
    (ltb 0 total && leb (total * expected_per_agent engine) (final_received t.results))
    || leb deadline t.time

-- The loop, from a turn on; none where the fuel ran out. A result is the status and the count of agents.
pub collect_loop : ℕ → (ℕ → Turn) → ℕ → String → ℕ → ℕ → ℕ → Option (String × ℕ)
unfolding final_agents done_complete
collect_loop zero turns total engine deadline k done_count = none
collect_loop (suc fuel) turns total engine deadline k done_count =
    let now_done = length (final_agents (turns k).results) in
    let rest = collect_loop fuel turns total engine deadline (suc k) now_done in
    if (turns k).cancelled
    then some ("cancelled", done_count)
    else if done_complete total engine deadline (turns k)
    then some ("analyzing", now_done)
    else rest

abbrev pub engine_of : Option Task → String
engine_of none = "matcher"
engine_of (some t) = if t.engine == "" then "matcher" else t.engine

abbrev pub failed_of : Option Task → ℕ
failed_of none = 0
failed_of (some t) = t.failed

-- Behind `dispatch`, with the task's time limit in seconds and the time of the start.
pub collect : (ℕ → Turn) → ℕ → ℕ → Bool → Step → Option (String × ℕ)
unfolding collect_loop
collect turns timeout_sec start cancelled s =
    if (s.status == "cancelled") || cancelled
    then some ("cancelled", 0)
    else if (s.status == "failed") || eqb s.total_targets 0
    then some ("failed", 0)
    else if ltb 0 s.total_targets && leb s.total_targets (failed_of s.stored)
    then some ("analyzing", 0)
    else collect_loop (suc timeout_sec) turns s.total_targets (engine_of s.stored)
        (start + timeout_sec) 0 0
