-- ===== src/TaskStatus/Settled.antt =====
-- The status key behind a run of runner.py, and behind an enqueue that the worker overtakes.
use security_agent.Prelude.{◌≡◌, refl, inl, inr, true, some, Bool-cases, Option-cases}
use security_agent.TaskStatus.{
  TaskState, queued, running, cancelled, completed, failed, Keys, Answers, Ended, returned, raised,
  set_status, fail, finish, run_subgraph, run_vulnscan_from_envelope, add_to_stream, set_queued,
}

-- The end of a run and the status that is left agree.
abbrev pub Agrees : Ended × Keys → Type 0
Agrees (returned s, keys) = keys.status ≡ some s
Agrees (raised, keys) = keys.status ≡ some failed

fail-Agrees : (a : Answers) (keys : Keys) → a.set_failed ≡ true → Agrees (fail a keys)
unfolding fail set_status
fail-Agrees a keys h = rw h refl

finish-Agrees :
    (a : Answers) (s : TaskState) (keys : Keys) → a.set_final ≡ true → Agrees (finish a s keys)
unfolding finish set_status
finish-Agrees a s keys h = rw h refl

run_subgraph-Agrees :
    (a : Answers) (keys : Keys)
    → a.set_final ≡ true
    → a.set_failed ≡ true
    → Agrees (run_subgraph a keys)
unfolding run_subgraph
run_subgraph-Agrees a keys f g = elim (Option-cases a.result) [
  | inl e ↦ rw (e, run_subgraph) (fail-Agrees a keys g)
  | inr (c, e) ↦ elim (Bool-cases c) [
    | inl b ↦ rw (e, b, run_subgraph) (finish-Agrees a cancelled keys f)
    | inr b ↦ elim (Option-cases a.cancelled_after) [
      | inl n ↦ rw (e, b, n, run_subgraph) (fail-Agrees a keys g)
      | inr (late, n) ↦ elim (Bool-cases late) [
        | inl l ↦ rw (e, b, n, l, run_subgraph) (finish-Agrees a cancelled keys f)
        | inr l ↦ rw (e, b, n, l, run_subgraph) (finish-Agrees a completed keys f)
      ]
    ]
  ]
]

-- If the last SET of a run works, the status key agrees with the run's end on every branch: the status that it returns,
-- 'cancelled' or 'completed', or 'failed' if it raises, whatever the subgraph, the cancel key, the first SETs and the
-- document's store do.
pub run-Agrees :
    (a : Answers) (keys : Keys)
    → a.set_final ≡ true
    → a.set_failed ≡ true
    → Agrees (run_vulnscan_from_envelope a keys)
unfolding run_vulnscan_from_envelope set_status
run-Agrees a keys f g = elim (Option-cases a.cancelled_before) [
  | inl e ↦ rw (e, run_vulnscan_from_envelope) (fail-Agrees a keys g)
  | inr (c, e) ↦ elim (Bool-cases c) [
    | inr b ↦
        rw (e, b, run_vulnscan_from_envelope)
          (run_subgraph-Agrees a (set_status a.set_running running keys) f g)
    | inl b ↦ elim (Bool-cases a.set_cancelled) [
      | inl s ↦ rw (e, b, s, run_vulnscan_from_envelope) refl
      | inr s ↦ rw (e, b, s, run_vulnscan_from_envelope) (fail-Agrees a keys g)
    ]
  ]
]

-- A worker that runs the task between the two commands of its enqueue leaves a status that the second command overwrites:
-- however the run ended, the key says 'queued'.
pub set_queued-late :
    (a : Answers) (keys : Keys)
    → (set_queued true (run_vulnscan_from_envelope a (add_to_stream keys)).1).status ≡ some queued
unfolding set_queued set_status
set_queued-late a keys = refl
