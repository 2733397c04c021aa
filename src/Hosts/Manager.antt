-- ===== src/Hosts/Manager.antt =====
-- agents/manager.py, the enrolment and the purge of api/routers/agents.py, the way to a connection in agents/ws_gateway.py
-- and api/main.py, and the end of an upgrade's dispatch, over the hosts and the tokens. The updates that a
-- heartbeat starts in the background, the audit log and the time to live of the keys are left out.
pub mod Retired
pub mod Runs
pub mod Enrolled
mod Examples
use security_agent.Prelude.{
  ℕ, Bool, true, false, not, ◌&&◌, List, [], ◌∷◌, Option, none, some, String, ◌==◌, if◌then◌else◌,
}
use security_agent.Credentials
use security_agent.Credentials.{
  revoke_agent, register_enroll_token, validate_agent_token, validate_enroll_token,
}
use security_agent.Hosts.{
  HostStatus, online, offline, decommissioned, Host, State, Works, Fields, no_fields,
  is_decommissioned, update_host, save_host, Lookup, raised, missing, found, get_host, delete_host,
  mark_offline_expired, to_offline,
}

pub set_key : {A : Type 0} → String → A → (String → A) → String → A
set_key k v m j = if k == j then v else m j

-- A method that raises gives `false`, with what it had done.
pub register_online : Works → String → String → ℕ → State → Bool × State
unfolding set_key
register_online w a worker_id now s =
    if w.redis
    then (
      true,
      update_host w a (record no_fields { status = some online; last_heartbeat = some (some now) })
          now
          (record s { online = set_key a true s.online; conn = set_key a (some worker_id) s.conn }),
    )
    else (false, s)

-- The payload's `ts`, as `_parse_ts` reads it, and its agent_version.
pub heartbeat : Works → String → Option ℕ → Option String → ℕ → State → Bool × State
unfolding set_key
heartbeat w a ts version now s =
    if w.redis
    then (
      true,
      update_host w a (record no_fields { last_heartbeat = some ts; agent_version = version }) now
          (record s { online = set_key a true s.online }),
    )
    else (false, s)

pub delete_keys : String → State → State
unfolding set_key
delete_keys a s = record s { online = set_key a false s.online; conn = set_key a none s.conn }

abbrev pub to_decommissioned : Fields
to_decommissioned = record no_fields { status = some decommissioned }

pub revoke_best_effort : Works → String → State → State
revoke_best_effort w a s = if w.revokes then record s { tokens = revoke_agent a s.tokens } else s

pub decommission_host : Works → String → ℕ → State → Bool × State
unfolding delete_keys revoke_best_effort
decommission_host w a now s =
    let s' = update_host w a to_decommissioned now s in
    if w.redis then (true, revoke_best_effort w a (delete_keys a s')) else (false, s')

pub purge_found : Works → String → Lookup → State → Option Bool × State
unfolding delete_keys revoke_best_effort
purge_found w a raised s = (none, s)
purge_found w a missing s = (some false, s)
purge_found w a (found h) s =
    if is_decommissioned h.status
    then if w.redis
      then (some true, revoke_best_effort w a (delete_keys a (delete_host w a s)))
      else (none, delete_host w a s)
    else (some false, s)

-- None where it raises.
pub delete_host_permanently : Works → String → State → Option Bool × State
unfolding purge_found
delete_host_permanently w a s = purge_found w a (get_host w a s) s

pub regroup_found : Works → String → Option String → ℕ → Lookup → State → State
regroup_found w a group now raised s = s
regroup_found w a group now missing s = s
regroup_found w a group now (found h) s =
    update_host w a (record no_fields { group_name = some group }) now s

pub update_host_group : Works → String → Option String → ℕ → State → State
unfolding regroup_found
update_host_group w a group now s = regroup_found w a group now (get_host w a s) s

-- SELECT agent_id FROM hosts WHERE ip = $1 AND status <> 'decommissioned'
pub live_at : String → List Host → List String
live_at ip [] = []
live_at ip (h ∷ rows) =
    if (h.ip == ip) && not (is_decommissioned h.status)
    then h.agent_id ∷ live_at ip rows
    else live_at ip rows

-- The loop stops where a call raises, and the exception is swallowed.
pub decommission_all : Works → List String → ℕ → State → State
decommission_all w [] now s = s
decommission_all w (a ∷ ids) now s =
    let rest = decommission_all w ids now (decommission_host w a now s).1 in
    if w.redis then rest else (decommission_host w a now s).1

pub decommission_host_by_ip : Works → String → ℕ → State → State
unfolding live_at decommission_all
decommission_host_by_ip w ip now s =
    if ip == "" then s else if w.pg then decommission_all w (live_at ip s.pg) now s else s

-- The first address of x-forwarded-for, if the header is there and not empty, else the client's; with neither the
-- variable has no value.
pub server_ip : Option String → Option String → Option String
server_ip (some first) client = some first
server_ip none client = client

pub data Enrolment : Type 0 where
  refused : Enrolment
  crashed : Enrolment
  enrolled : Enrolment

abbrev pub new_host : String → String → String → ℕ → Host
new_host a ip group now = record {
  agent_id = a;
  ip = ip;
  status = online;
  group = if group == "" then none else some group;
  agent_version = "0.1.0";
  last_heartbeat = some now;
}

abbrev pub settle : Option State → State → Enrolment × State
settle none s = (crashed, s)
settle (some s') s = (enrolled, s')

module _ (hash : String → String) where
  abbrev pub register : String → String → Option State → Option State
  register a agent_token none = none
  register a agent_token (some s) =
      some (record s { tokens = register_enroll_token hash a agent_token s.tokens })

  -- Behind the token's check, from the address of the request on.
  pub enroll_from :
      Works → String → String → String → String → ℕ → Option String → State → Enrolment × State
  unfolding decommission_host_by_ip
  enroll_from w a agent_token ip group now none s = (crashed, s)
  enroll_from w a agent_token ip group now (some addr) s =
      let s' = decommission_host_by_ip w addr now s in
      settle (register a agent_token (save_host w (new_host a ip group now) s')) s'

  pub enroll_valid :
      Works
      → String
      → String
      → String
      → ℕ
      → Option String
      → Option String
      → State
      → Enrolment × State
  unfolding enroll_from
  enroll_valid w a agent_token ip now addr none s = (refused, s)
  enroll_valid w a agent_token ip now addr (some group) s =
      enroll_from w a agent_token ip group now addr s

  -- With a fresh id and a fresh agent token.
  pub enroll_host :
      Works
      → String
      → String
      → String
      → Option String
      → Option String
      → String
      → ℕ
      → State
      → Enrolment × State
  unfolding server_ip enroll_valid
  enroll_host w token a agent_token first client ip now s =
      let (valid, tokens) = validate_enroll_token token now s.tokens in
      enroll_valid w a agent_token ip now (server_ip first client) valid
        (record s { tokens = tokens })

  -- On a worker that has not itself closed this agent's socket before.
  pub authenticate : String → String → State → Bool
  authenticate a token s =
      not (a == "") && (not (token == "") && validate_agent_token hash a token s.tokens)

  -- `connect`, behind `authenticate`.
  pub connect_agent : Works → String → String → String → ℕ → State → Bool × State
  unfolding register_online authenticate
  connect_agent w a token worker_id now s =
      if authenticate a token s then register_online w a worker_id now s else (false, s)

-- The update of `api_upgrade_agent` when the command was not delivered.
pub mark_undelivered : Works → String → ℕ → State → State
mark_undelivered w a now s = update_host w a to_offline now s
