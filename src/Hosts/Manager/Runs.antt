-- ===== src/Hosts/Manager/Runs.antt =====
-- The life of the hosts: any operations of agents/manager.py, agents/store.py and api/routers/agents.py in any order,
-- with any answers of the stores.
use security_agent.Prelude.{ℕ, ◌≢◌, List, [], ◌∷◌, Option, String}
use security_agent.Hosts.{State, Works, mark_offline_expired}
use security_agent.Hosts.Manager.{
  heartbeat, decommission_host, delete_host_permanently, update_host_group, enroll_host,
  connect_agent, mark_undelivered,
}
use security_agent.Hosts.Down.{Down}

pub data Event : Type 0 where
  connects : String → String → String → ℕ → Event
  beats : String → Option ℕ → Option String → ℕ → Event
  sweeps : ℕ → ℕ → Event
  decommissions : String → ℕ → Event
  purges : String → Event
  regroups : String → Option String → ℕ → Event
  enrolls : String → String → String → Option String → Option String → String → ℕ → Event
  undelivered : String → ℕ → Event

module _ (hash : String → String) where
  pub step : Works → Event → State → State
  step w (connects a token worker_id now) s = (connect_agent hash w a token worker_id now s).1
  step w (beats a ts version now) s = (heartbeat w a ts version now s).1
  step w (sweeps timeout now) s = (mark_offline_expired w timeout now s).1
  step w (decommissions a now) s = (decommission_host w a now s).1
  step w (purges a) s = (delete_host_permanently w a s).1
  step w (regroups a group now) s = update_host_group w a group now s
  step w (enrolls token a agent_token first client ip now) s =
      (enroll_host hash w token a agent_token first client ip now s).1
  step w (undelivered a now) s = mark_undelivered w a now s

  pub run : List (Works × Event) → State → State
  run [] s = s
  run ((w, e) ∷ events) s = run events (step w e s)

-- An enrolment draws another id than the host's, and no undelivered upgrade is the host's.
abbrev pub Spares : String → Works × Event → Type 0
Spares a (w, enrolls token b agent_token first client ip now) = b ≢ a
Spares a (w, undelivered b now) = b ≢ a
Spares a _ = Unit
