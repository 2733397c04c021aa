-- ===== src/TaskStatus.antt =====
-- orchestration/task_queue/runner.py and `enqueue_task` of enqueue.py: the status key of one task, which the API reads,
-- and the failure that is written to the task's document. The subgraph, and what Redis and the store answer, are
-- parameters; the envelope, the worker's name and the log are left out.
pub mod Settled
use security_agent.Prelude.{
  Bool, true, false, ◌||◌, List, [], ◌∷◌, Option, none, some, if◌then◌else◌,
}

pub data TaskState : Type 0 where
  queued running cancelled completed failed : TaskState

-- The status key, whether the stream has the task, and whether its document says that it failed.
pub record Keys : Type 0 where
  pub status : Option TaskState
  pub in_stream : Bool
  pub document_failed : Bool

-- What a run meets: the two EXISTS of the cancel key, each SET and the update of the document, which work or raise, and the
-- subgraph, which raises or has a result, cancelled or not.
pub record Answers : Type 0 where
  pub cancelled_before : Option Bool
  pub set_cancelled : Bool
  pub set_running : Bool
  pub result : Option Bool
  pub cancelled_after : Option Bool
  pub set_final : Bool
  pub update_document : Bool
  pub set_failed : Bool

-- A run returns, with the final status, or raises.
pub data Ended : Type 0 where
  returned : TaskState → Ended
  raised : Ended

pub set_status : Bool → TaskState → Keys → Keys
set_status works s keys = if works then record keys { status = some s } else keys

-- The handler of an exception.
pub fail : Answers → Keys → Ended × Keys
unfolding set_status
fail a keys = (
  raised,
  set_status a.set_failed failed
      (record keys { document_failed = a.update_document || keys.document_failed }),
)

pub finish : Answers → TaskState → Keys → Ended × Keys
unfolding set_status
finish a s keys = (returned s, set_status a.set_final s keys)

-- The part behind the status 'running'.
pub run_subgraph : Answers → Keys → Ended × Keys
unfolding fail finish
run_subgraph a keys = elim a.result [
  | none ↦ fail a keys
  | some true ↦ finish a cancelled keys
  | some false ↦ elim a.cancelled_after [
    | none ↦ fail a keys
    | some true ↦ finish a cancelled keys
    | some false ↦ finish a completed keys
  ]
]

pub run_vulnscan_from_envelope : Answers → Keys → Ended × Keys
unfolding set_status fail run_subgraph
run_vulnscan_from_envelope a keys = elim a.cancelled_before [
  | none ↦ fail a keys
  | some true ↦
      if a.set_cancelled then (returned cancelled, set_status true cancelled keys) else fail a keys
  | some false ↦ run_subgraph a (set_status a.set_running running keys)
]

-- The two commands of `enqueue_task`.
pub add_to_stream : Keys → Keys
add_to_stream keys = record keys { in_stream = true }

pub set_queued : Bool → Keys → Keys
unfolding set_status
set_queued works keys = set_status works queued keys

pub enqueue_task : Bool → Keys → Keys
unfolding add_to_stream set_queued
enqueue_task works keys = set_queued works (add_to_stream keys)
