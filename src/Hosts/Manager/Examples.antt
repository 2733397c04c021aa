-- ===== src/Hosts/Manager/Examples.antt =====
-- Two hosts at an address of their own, and times from a million on.
use security_agent.Prelude.{ℕ, ◌≡◌, refl, true, false, List, [], ◌∷◌, none, some, String, join, All}
use security_agent.Credentials
use security_agent.Credentials.{validate_enroll_token, admit, select}
use security_agent.Hosts.{
  HostStatus, online, offline, decommissioned, Host, State, Works, mark_offline_expired,
}
use security_agent.Hosts.Swept.{
  IsCurrent, mark_offline_expired-Current, AllOf, HasStatus, mark_offline_expired-overrides,
}
use security_agent.Hosts.Down.{Down}
use security_agent.Hosts.Manager.{
  enroll_host, enroll_valid, enroll_from, server_ip, authenticate, save_host,
}
use security_agent.Hosts.Manager.Runs.{Event, connects, beats, sweeps, enrolls}
use security_agent.Hosts.Manager.Enrolled.{Alone, enroll_host-Replaces}

abbrev host : String → String → HostStatus → ℕ → Host
host a ip status beat = record {
  agent_id = a;
  ip = ip;
  status = status;
  group = none;
  agent_version = "0.1.0";
  last_heartbeat = some beat;
}

abbrev tokens : Credentials.Store
tokens = record {
  enroll_tokens =
      record { token = "T"; group_name = none; expires_at = 2000000; uses_remaining = 2 } ∷ [];
  agent_tokens = record { agent_id = "h1"; token_hash = "#a"; revoked = false } ∷ [];
  revocations = [];
}

abbrev two_hosts : State
two_hosts = record {
  pg = host "h1" "10.0.0.1" online 1000000 ∷ host "h2" "10.0.0.2" online 1000500 ∷ [];
  es = host "h1" "10.0.0.1" online 1000000 ∷ host "h2" "10.0.0.2" online 1000500 ∷ [];
  online = λ a. true;
  conn = λ a. none;
  tokens = tokens;
}

abbrev all_work : Works
all_work = record { pg = true; es = true; redis = true; revokes = true }

abbrev no_index : Works
no_index = record { pg = true; es = false; redis = true; revokes = true }

abbrev hash : String → String
hash t = join "#" t

mark_offline_expired-Current_example :
    All (IsCurrent 60 1000600) (mark_offline_expired no_index 60 1000600 two_hosts).1.pg
mark_offline_expired-Current_example =
    mark_offline_expired-Current no_index 60 1000600 two_hosts refl

-- The index missed the decommissioning.
abbrev stale : State
stale = record two_hosts {
  pg = host "h1" "10.0.0.1" decommissioned 1000000 ∷ [];
  es = host "h1" "10.0.0.1" online 1000000 ∷ [];
}

mark_offline_expired-overrides_example :
    AllOf "h1" (HasStatus offline) (mark_offline_expired all_work 60 1000600 stale).1.pg
mark_offline_expired-overrides_example =
    mark_offline_expired-overrides all_work 60 1000600 1000000 (host "h1" "10.0.0.1" online 1000000)
      [] stale refl refl refl refl refl refl

abbrev events : List (Works × Event)
events =
    (all_work, connects "h1" "a" "w1" 1000001)
    ∷ (no_index, beats "h1" none none 1000002)
    ∷ (all_work, sweeps 60 1000900)
    ∷ (all_work, enrolls "T" "h3" "c" none (some "10.0.0.1") "10.0.0.1" 1000901)
    ∷ []

enroll_host-Replaces_example :
    Alone "h3" "10.0.0.1"
      (enroll_host hash no_index "T" "h3" "c"
        (some "10.0.0.1")
        none
        "192.168.0.7"
        1000000
        two_hosts).1.pg
    × (authenticate hash "h3" "c"
          (enroll_host hash no_index "T" "h3" "c"
            (some "10.0.0.1")
            none
            "192.168.0.7"
            1000000
            two_hosts).1
        ≡ true)
unfolding server_ip enroll_host validate_enroll_token admit select enroll_valid enroll_from
    save_host
enroll_host-Replaces_example =
    enroll_host-Replaces hash no_index "T" "h3" "c" (some "10.0.0.1") none "192.168.0.7" "10.0.0.1"
      1000000 two_hosts refl refl refl refl refl refl refl
