-- ===== src/Gateway/Examples.antt =====
-- Commands to an agent that is offline, under the scheme whose signature is the key in front of the text.
use security_agent.Prelude.{refl, true, false, List, [], ◌∷◌, none, some, String}
use security_agent.Signing.{Message, get_private_key}
use security_agent.Signing.Examples.{toy, toy-Verifies, cancel}
use security_agent.Gateway.{Event, send, reconnect, run}
use security_agent.Gateway.Signed.{Every, Authentic, run-Authentic}
use security_agent.Gateway.Pending.{offline}

abbrev events : List (Event String)
events =
    reconnect true false
    ∷ send offline "2026-08-02" cancel
    ∷ send (record { socket = some true; publish = none; owner = none; set_works = false })
        "2026-08-01" cancel
    ∷ []

run-Authentic_example : Every (Authentic toy "00ff") (run toy "00ff" events)
unfolding get_private_key
run-Authentic_example = run-Authentic toy "00ff" "00ff" events toy-Verifies refl

abbrev shutdown : Message String
shutdown = record { type = some "agent_shutdown"; ts = none; payload = none; sig = none }
