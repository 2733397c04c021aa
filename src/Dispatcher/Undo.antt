-- ===== src/Dispatcher/Undo.antt =====
-- A connector raises: what is undone, and in which order.
use security_agent.Prelude.{◌≡◌, refl, ◌∙◌, Bool, List, [], ◌∷◌, ◌++◌, Option, String}
use mathlib.Core.List.{append_assoc, append-nil}
use security_agent.Dispatcher.{
  Op, failed, ActionResult, Connector, Redis, State, goes_on, raises, result_of, undo_one, undo_all,
  rollback, step, run_ops, execute_playbook,
}

module _ {S W : Type 0} (redis : Redis S) (registry : String → Option (Connector W))
    (op_id : Op → String) (dry : Bool) where
  pub undo_all-append :
      (xs ys : List ActionResult) (w : W)
      → undo_all registry (xs ++ ys) w ≡ undo_all registry ys (undo_all registry xs w)
  unfolding undo_all
  undo_all-append [] ys w = refl
  undo_all-append (x ∷ xs) ys w = undo_all-append xs ys (undo_one registry x w)

  -- The operations go through one after the other, with these results, to the last state.
  pub data GoesOn : List Op → State S W → List ActionResult → State S W → Type 0 where
    done : {s : State S W} → GoesOn [] s [] s
    more :
        {op : Op} {ops : List Op} {s t u : State S W} {r : ActionResult} {rs : List ActionResult}
        → step redis registry op_id dry op s ≡ goes_on r t
        → GoesOn ops t rs u
        → GoesOn (op ∷ ops) s (r ∷ rs) u

  pub run_ops-prefix :
      {pre : List Op} {s t : State S W} {rs : List ActionResult}
      → GoesOn pre s rs t
      → (post : List Op) (results : List ActionResult)
      → run_ops redis registry op_id dry (pre ++ post) results s
        ≡ run_ops redis registry op_id dry post (results ++ rs) t
  unfolding run_ops
  run_ops-prefix done post results = rw (append-nil results)
  run_ops-prefix (more {op = op} {ops = ops} {r = r} {rs = rs} e g) post results =
      rw (e, run_ops)
        (run_ops-prefix g post (results ++ r ∷ []) ∙ rw (append_assoc results (r ∷ []) rs))

  -- After a first operation whose connector raises, nothing behind it is looked at: the result is
  -- that of the operations before it and one 'failed', and their rollback is done on the world that
  -- the connector left.
  pub execute_playbook-raises :
      {pre : List Op} {s t : State S W} {rs : List ActionResult} (bad : Op) (post : List Op)
      {u : State S W}
      → GoesOn pre s rs t
      → step redis registry op_id dry bad t ≡ raises u
      → execute_playbook redis registry op_id dry (pre ++ bad ∷ post) s ≡ (
        rs ++ result_of op_id bad failed ∷ [],
        record u { world = rollback registry (rs ++ result_of op_id bad failed ∷ []) u.world },
      )
  unfolding execute_playbook run_ops
  execute_playbook-raises bad post g e = run_ops-prefix g (bad ∷ post) [] ∙ rw (e, run_ops)
