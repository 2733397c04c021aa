-- ===== src/Gateway.antt =====
-- `send_to_agent` and `_deliver_pending` of agents/ws_gateway.py, for one agent. What the socket and Redis
-- answer is a parameter of each call, with the calls that raise; the connections' life and the log are left out.
pub mod Signed
pub mod Pending
mod Examples
use security_agent.Prelude.{
  ℕ, Bool, true, false, ◌&&◌, List, [], ◌∷◌, Option, none, some, String, ltb, if◌then◌else◌,
}
use security_agent.Signing.{Message, Scheme, sign_message}

-- A call's surroundings: whether this process has the agent's socket and its send works, the number of subscribers
-- that a PUBLISH reaches, whether there is an owner of the connection, and whether the SET works.
pub record Link : Type 0 where
  pub socket : Option Bool
  pub publish : Option ℕ
  pub owner : Option Bool
  pub set_works : Bool

-- The messages that went over a socket and to the channel, the newest first, and the key agent:pending_cmd:….
pub record Box (P : Type 0) : Type 0 where
  pub sent : List (Message P)
  pub published : List (Message P)
  pub pending : Option (Message P)

abbrev pub empty_box : {P : Type 0} → Box P
empty_box = record { sent = []; published = []; pending = none }

module _ {P : Type 0} where
  pub store_pending : Bool → Message P → Box P → Box P
  store_pending works m box = if works then record box { pending = some m } else box

  -- The part behind PUBLISH.
  pub publish_to : Link → Message P → ℕ → Box P → Bool × Box P
  unfolding store_pending
  publish_to link m subscribers box =
      let box' = record box { published = m ∷ box.published } in
      elim link.owner [
        | none ↦ (false, box')
        | some owned ↦
            if ltb 0 subscribers && owned
            then (true, box')
            else (false, store_pending link.set_works m box')
      ]

  -- A message that is signed, if it is to be.
  pub dispatch_message : Link → Message P → Box P → Bool × Box P
  unfolding publish_to
  dispatch_message link m box = elim link.socket [
    | some true ↦ (true, record box { sent = m ∷ box.sent })
    | some false ↦ (false, box)
    | none ↦ elim link.publish [
      | none ↦ (false, box)
      | some subscribers ↦ publish_to link m subscribers box
    ]
  ]

  -- At a reconnection: whether the send works, and the DELETE.
  pub deliver_pending : Bool → Bool → Box P → Box P
  deliver_pending sends deletes box = elim box.pending [
    | none ↦ box
    | some m ↦
        if sends
        then record box { sent = m ∷ box.sent; pending = if deletes then none else some m }
        else box
  ]

pub data Event (P : Type 0) : Type 0 where
  send : Link → String → Message P → Event P
  reconnect : Bool → Bool → Event P
  expire : Event P

module _ {K P : Type 0} (crypto : Scheme K P) (key_hex : String) where
  pub send_to_agent : Link → String → Message P → Box P → Bool × Box P
  unfolding dispatch_message
  send_to_agent link now msg box = dispatch_message link (sign_message crypto key_hex now msg) box

  pub step : Event P → Box P → Box P
  unfolding send_to_agent deliver_pending
  step (send link now msg) box = (send_to_agent link now msg box).1
  step (reconnect sends deletes) box = deliver_pending sends deletes box
  step expire box = record box { pending = none }

  pub run : List (Event P) → Box P
  unfolding step
  run [] = empty_box
  run (e ∷ events) = step e (run events)
