-- ===== src/Gateway/Pending.antt =====
-- The one pending command of an agent in agents/ws_gateway.py.
use security_agent.Prelude.{◌≡◌, refl, true, false, ◌∷◌, none, some, String}
use security_agent.Signing.{Message, Scheme, sign_message}
use security_agent.Gateway.{
  Link, Box, store_pending, publish_to, dispatch_message, deliver_pending, send, reconnect,
  send_to_agent, step,
}

-- No process has the agent's socket, and Redis works.
abbrev pub offline : Link
offline = record { socket = none; publish = some 0; owner = some false; set_works = true }

-- A command to an agent that is offline is not delivered, and reaches its socket at the next reconnection whose send
-- works, whatever waited before; with a DELETE that works nothing is left waiting.
pub reconnect-delivers :
    {K P : Type 0} (crypto : Scheme K P) (key_hex now : String) (msg : Message P) (box : Box P)
    → ((send_to_agent crypto key_hex offline now msg box).0 ≡ false)
      × ((step crypto key_hex
            (reconnect true true)
            (step crypto key_hex (send offline now msg) box)).sent
          ≡ sign_message crypto key_hex now msg ∷ box.sent)
      × ((step crypto key_hex
            (reconnect true true)
            (step crypto key_hex (send offline now msg) box)).pending
          ≡ none)
unfolding step send_to_agent dispatch_message publish_to store_pending deliver_pending
reconnect-delivers crypto key_hex now msg box = (refl, refl, refl)

-- Of two commands to an agent that is offline the first is lost: behind the reconnection only the second went over a
-- socket, and nothing waits.
pub offline_twice-lost :
    {K P : Type 0} (crypto : Scheme K P) (key_hex now : String) (first second : Message P)
    (box : Box P)
    → ((step crypto key_hex (reconnect true true) (
          step crypto key_hex
            (send offline now second)
            (step crypto key_hex (send offline now first) box))).sent
        ≡ sign_message crypto key_hex now second ∷ box.sent)
      × ((step crypto key_hex (reconnect true true) (
            step crypto key_hex
              (send offline now second)
              (step crypto key_hex (send offline now first) box))).pending
          ≡ none)
unfolding step send_to_agent dispatch_message publish_to store_pending deliver_pending
offline_twice-lost crypto key_hex now first second box = (refl, refl)
