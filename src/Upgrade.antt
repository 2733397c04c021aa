-- ===== src/Upgrade.antt =====
-- agents/upgrade.py and `api_upgrade_agent` of api/routers/agents.py: the status of one agent's upgrade, which is a
-- row of Redis that the dispatch, the agent's acknowledgement and its heartbeats write. The row's `agent_id` and
-- `updated_at` are left out; an absent `ack_received` is false. The row may expire between any two calls.
pub mod Versions
pub mod History
mod Examples
use security_agent.Prelude.{
  Bool, true, false, not, ◌&&◌, List, [], ◌∷◌, Option, none, some, String, join, get_or, ◌==◌,
  if◌then◌else◌,
}

pub data UpgradeState : Type 0 where
  sent queued_for_delivery restarting failed confirmed : UpgradeState

pub record Status : Type 0 where
  pub state : Option UpgradeState
  pub target_version : Option String
  pub current_version : Option String
  pub ack_received : Bool
  pub message : Option String
  pub error : Option String

abbrev pub no_status : Status
no_status = record {
  state = none;
  target_version = none;
  current_version = none;
  ack_received = false;
  message = none;
  error = none;
}

-- The payload of an "update_ack".
pub record Ack : Type 0 where
  pub kind : String
  pub version : String
  pub ok : Bool
  pub error : String

-- The row, if there is one.
abbrev pub Row : Type 0
Row = Option Status

-- GET, and what `_redis_update` makes of it.
abbrev pub read_status : Row → Status
read_status row = get_or row no_status

-- `_redis_update`: the status that it returns is the row that it writes.
pub redis_update : (Status → Status) → Row → Status
redis_update changes row = changes (read_status row)

pub get_upgrade_status : Row → Status
unfolding redis_update
get_upgrade_status row = redis_update (λ s. s) row

pub dispatched : Bool → String → Status → Status
dispatched delivered version s = record s {
  state = some (if delivered then sent else queued_for_delivery);
  target_version = some version;
  message = some (
      if delivered
      then "Upgrade command sent to Agent"
      else "Agent offline; will retry on reconnect");
  error = some "";
}

pub acknowledged : Ack → Status → Status
acknowledged ack s = record s {
  state = some (if ack.ok then restarting else failed);
  ack_received = true;
  message =
      some (if ack.ok then "Agent verified the package and is restarting" else "Upgrade failed");
  error = some ack.error;
}

-- status.get("target_version") == v
pub is_target : String → Option String → Bool
is_target v none = false
is_target v (some t) = v == t

pub is_restarting : Option UpgradeState → Bool
is_restarting (some restarting) = true
is_restarting _ = false

pub online : String → Status → Status
unfolding is_target
online version s =
    if not (version == "") && is_target version s.target_version
    then record s {
      current_version = some version;
      state = some confirmed;
      message = some (join "Agent is online on version " version);
      error = some "";
    }
    else record s { current_version = some version }

pub record_upgrade_ack : Ack → Row → Row
unfolding get_upgrade_status redis_update acknowledged
record_upgrade_ack ack row =
    if not (ack.kind == "agent")
    then row
    else let status = get_upgrade_status row in
      if ack.version == get_or status.target_version ""
      then some (redis_update (acknowledged ack) (some status))
      else some status

pub confirm_upgrade_from_heartbeat : String → Row → Row
unfolding get_upgrade_status redis_update online is_restarting
confirm_upgrade_from_heartbeat version row =
    let status = get_upgrade_status row in
    if is_restarting status.state && status.ack_received
    then some (redis_update (online version) (some status))
    else some status

pub data Event : Type 0 where
  dispatch : Bool → String → Event
  ack : Ack → Event
  heartbeat : String → Event
  poll expire : Event

pub step : Event → Row → Row
unfolding redis_update dispatched record_upgrade_ack confirm_upgrade_from_heartbeat
    get_upgrade_status
step (dispatch delivered version) row = some (redis_update (dispatched delivered version) row)
step (ack a) row = record_upgrade_ack a row
step (heartbeat version) row = confirm_upgrade_from_heartbeat version row
step poll row = some (get_upgrade_status row)
step expire row = none

-- The row behind some events, the newest first.
pub run : List Event → Row
unfolding step
run [] = none
run (e ∷ events) = step e (run events)
