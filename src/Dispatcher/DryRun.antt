-- ===== src/Dispatcher/DryRun.antt =====
-- A dry run.
use security_agent.Prelude.{
  ◌≡◌, ◌∙◌, true, List, [], ◌∷◌, ◌++◌, map, Option, none, some, String, arith,
}
use mathlib.Core.List.{append_assoc, append-nil}
use security_agent.Dispatcher.{
  Op, skipped, dry_run, ActionResult, Connector, Redis, State, goes_on, step, run_ops,
  execute_playbook, result_of,
}

module _ {S W : Type 0} (redis : Redis S) (registry : String → Option (Connector W))
    (op_id : Op → String) where
  -- What a dry run says of an operation.
  pub dry_result : Op → ActionResult
  dry_result op = result_of op_id op (elim (registry op.kind) [ none ↦ skipped | some c ↦ dry_run ])

  dry-step :
      (op : Op) (s : State S W) → step redis registry op_id true op s ≡ goes_on (dry_result op) s
  unfolding step dry_result
  dry-step op s = ground arith

  dry-run_ops :
      (ops : List Op) (results : List ActionResult) (s : State S W)
      → run_ops redis registry op_id true ops results s ≡ (results ++ map dry_result ops, s)
  unfolding run_ops
  dry-run_ops [] results s = rw (append-nil results)
  dry-run_ops (op ∷ ops) results s =
      rw (dry-step op s, run_ops)
        (dry-run_ops ops (results ++ dry_result op ∷ []) s
          ∙ rw (append_assoc results (dry_result op ∷ []) (map dry_result ops)))

  -- With `dry_run` set, no connector runs, no key is set and nothing is undone, whatever Redis and
  -- the connectors would do; each operation gets one result, 'dry_run' or, with no connector, 'skipped'.
  pub execute_playbook-dry :
      (ops : List Op) (s : State S W)
      → execute_playbook redis registry op_id true ops s ≡ (map dry_result ops, s)
  unfolding execute_playbook
  execute_playbook-dry ops s = dry-run_ops ops [] s
