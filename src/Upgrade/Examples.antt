-- ===== src/Upgrade/Examples.antt =====
-- An upgrade that is confirmed, one whose package the agent refuses, and some versions.
use security_agent.Prelude.{◌≡◌, refl, Bool, true, false, List, [], ◌∷◌, some, String}
use security_agent.Upgrade.{failed, read_status, Event, dispatch, ack, heartbeat, poll, run}
use security_agent.Upgrade.History.{last_dispatch, HasBeat, run-confirmed}
use security_agent.Upgrade.Versions.{upgrade_needed}

abbrev verified : Bool → Event
verified ok = ack (record { kind = "agent"; version = "0.3.0"; ok = ok; error = "" })

abbrev upgraded : List Event
upgraded = poll ∷ heartbeat "0.3.0" ∷ verified true ∷ dispatch false "0.3.0" ∷ []

refuses :
    (read_status (run (heartbeat "0.2.0" ∷ verified false ∷ dispatch true "0.3.0" ∷ []))).state
    ≡ some failed
unfolding run
refuses = refl

run-confirmed_example : (v : String) × (last_dispatch upgraded ≡ some v) × HasBeat v upgraded
unfolding run
run-confirmed_example = run-confirmed upgraded refl

older : upgrade_needed "v0.2.10-rc1" "0.3" ≡ true
unfolding upgrade_needed
older = refl
