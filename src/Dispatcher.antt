-- ===== src/Dispatcher.antt =====
-- execution/actions/dispatcher.py with the records of base.py. An operation is its type and its
-- parameters, which only connectors read. The registry maps an operation type to a connector. Redis,
-- the hash behind `op_id` and the connectors are parameters; a call that raises is `none`. The audit
-- log, the texts of results and their times are left out.
pub mod Connectors
pub mod Undo
pub mod DryRun
use security_agent.Prelude.{
  ℕ, Bool, true, false, List, [], ◌∷◌, ◌++◌, Option, none, some, String, ◌≡◌, if◌then◌else◌, ◌==◌,
}
use mathlib.Core.List.{reverse}

pub record Op : Type 0 where
  pub kind : String
  pub params : List (String × String)

pub data Status : Type 0 where
  success failed skipped dry_run : Status

pub record ActionResult : Type 0 where
  pub op_id : String
  pub op_type : String
  pub status : Status
  pub op : Op

-- What a connector does to the world `W`. `execute` returns a result's status and operation type,
-- or raises; `rollback` may raise too, which the dispatcher only logs.
pub record Connector (W : Type 0) : Type 0 where
  pub execute : Op → W → Option (Status × String) × W
  pub rollback : Op → W → W

-- The keys `action:done:*`: EXISTS and SET of Redis.
pub record Redis (S : Type 0) : Type 0 where
  pub exists : String → S → Option Bool
  pub set : String → S → Option S

-- The stored keys, and the world.
pub record State (S W : Type 0) : Type 0 where
  pub keys : S
  pub world : W

-- What one operation comes to: a result and a new state, or an exception of its connector.
pub data Outcome (S W : Type 0) : Type 0 where
  goes_on : ActionResult → State S W → Outcome S W
  raises : State S W → Outcome S W

abbrev pub result_of : (Op → String) → Op → Status → ActionResult
result_of op_id op status = record { op_id = op_id op; op_type = op.kind; status = status; op = op }

module _ {W : Type 0} (registry : String → Option (Connector W)) where
  pub undo_one : ActionResult → W → W
  undo_one r w = elim r.status [
    | success ↦ elim (registry r.op_type) [ none ↦ w | some c ↦ c.rollback r.op w ]
    | _ ↦ w
  ]

  pub undo_all : List ActionResult → W → W
  unfolding undo_one
  undo_all [] w = w
  undo_all (r ∷ rs) w = undo_all rs (undo_one r w)

  -- The results in reverse order.
  pub rollback : List ActionResult → W → W
  unfolding undo_all
  rollback results w = undo_all (reverse results) w

module _ {S W : Type 0} (redis : Redis S) (registry : String → Option (Connector W))
    (op_id : Op → String) (dry : Bool) where
  -- An error of Redis counts as not done.
  pub is_done : String → S → Bool
  is_done k s = if dry then false else (elim (redis.exists k s) [ none ↦ false | some b ↦ b ])

  pub mark_done : String → S → S
  mark_done k s = if dry then s else (elim (redis.set k s) [ none ↦ s | some s' ↦ s' ])

  -- Behind the `try`: the key is set where a result came back, whatever its status.
  settle : Op → State S W → Option (Status × String) → W → Outcome S W
  unfolding mark_done
  settle op s (some (status, kind)) w =
      goes_on (record { op_id = op_id op; op_type = kind; status = status; op = op })
        (record { keys = mark_done (op_id op) s.keys; world = w })
  settle op s none w = raises (record s { world = w })

  pub run_connector : Op → Connector W → State S W → Outcome S W
  unfolding settle
  run_connector op c s = let (returned, w) = c.execute op s.world in settle op s returned w

  pub step : Op → State S W → Outcome S W
  unfolding is_done run_connector
  step op s =
      if is_done (op_id op) s.keys
      then goes_on (result_of op_id op skipped) s
      else elim (registry op.kind) [
        | none ↦ goes_on (result_of op_id op skipped) s
        | some c ↦ if dry then goes_on (result_of op_id op dry_run) s else run_connector op c s
      ]

  pub run_ops : List Op → List ActionResult → State S W → List ActionResult × State S W
  unfolding step rollback
  run_ops [] results s = (results, s)
  run_ops (op ∷ ops) results s = elim (step op s) [
    | goes_on r s' ↦ run_ops ops (results ++ r ∷ []) s'
    | raises s' ↦
        let results' = results ++ result_of op_id op failed ∷ [] in
        (results', record s' { world = rollback registry results' s'.world })
  ]

  pub execute_playbook : List Op → State S W → List ActionResult × State S W
  unfolding run_ops
  execute_playbook ops s = run_ops ops [] s
