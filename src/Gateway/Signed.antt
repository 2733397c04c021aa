-- ===== src/Gateway/Signed.antt =====
-- The signatures of what leaves the gateway of agents/ws_gateway.py.
use security_agent.Prelude.{
  ◌≡◌, Bool, true, false, ◌&&◌, List, [], ◌∷◌, Option, none, some, String, ℕ, ltb, All, Bool-cases,
  Option-cases, inl, inr,
}
use security_agent.Signing.{
  Message, Scheme, get_private_key, get_public_key_hex, sign_message, verify_message,
}
use security_agent.Signing.RoundTrip.{Verifies, verify-sign}
use security_agent.Gateway.{
  Link, Box, store_pending, publish_to, dispatch_message, deliver_pending, Event, send, reconnect,
  expire, send_to_agent, step, run,
}

abbrev pub Kept : {P : Type 0} → (Message P → Type 0) → Option (Message P) → Type 0
Kept Ok none = Unit
Kept Ok (some m) = Ok m

-- Every message of a box.
abbrev pub Every : {P : Type 0} → (Message P → Type 0) → Box P → Type 0
Every Ok box = All Ok box.sent × All Ok box.published × Kept Ok box.pending

module _ {P : Type 0} (Ok : Message P → Type 0) where
  store_pending-Every :
      (works : Bool) (m : Message P) (box : Box P)
      → Ok m
      → Every Ok box
      → Every Ok (store_pending works m box)
  unfolding store_pending
  store_pending-Every true m box ok (s, p, k) = (s, p, ok)
  store_pending-Every false m box ok every = every

  publish_to-Every :
      (link : Link) (m : Message P) (n : ℕ) (box : Box P)
      → Ok m
      → Every Ok box
      → Every Ok (publish_to link m n box).1
  unfolding publish_to
  publish_to-Every link m n box ok (s, p, k) = elim (Option-cases link.owner) [
    | inl e ↦ rw (e, publish_to) (s, (ok, p), k)
    | inr (owned, e) ↦ elim (Bool-cases (ltb 0 n && owned)) [
      | inl b ↦ rw (e, b, publish_to) (s, (ok, p), k)
      | inr b ↦
          rw (e, b, publish_to)
            (store_pending-Every link.set_works m (record box { published = m ∷ box.published }) ok
              (s, (ok, p), k))
    ]
  ]

  pub dispatch_message-Every :
      (link : Link) (m : Message P) (box : Box P)
      → Ok m
      → Every Ok box
      → Every Ok (dispatch_message link m box).1
  unfolding dispatch_message
  dispatch_message-Every link m box ok (s, p, k) = elim (Option-cases link.socket) [
    | inr (works, e) ↦ elim (Bool-cases works) [
      | inl w ↦ rw (e, w, dispatch_message) ((ok, s), p, k)
      | inr w ↦ rw (e, w, dispatch_message) (s, p, k)
    ]
    | inl e ↦ elim (Option-cases link.publish) [
      | inl q ↦ rw (e, q, dispatch_message) (s, p, k)
      | inr (n, q) ↦ rw (e, q, dispatch_message) (publish_to-Every link m n box ok (s, p, k))
    ]
  ]

  pub deliver_pending-Every :
      (sends deletes : Bool) (box : Box P)
      → Every Ok box
      → Every Ok (deliver_pending sends deletes box)
  unfolding deliver_pending
  deliver_pending-Every sends deletes box (s, p, k) = elim (Option-cases box.pending) [
    | inl e ↦ rw (e, deliver_pending) (s, p, k)
    | inr (m, e) ↦
        let ok : Ok m = rw e at k in
        elim (Bool-cases sends) [
          | inr n ↦ rw (e, n, deliver_pending) (s, p, k)
          | inl y ↦ elim (Bool-cases deletes) [
            | inl d ↦ rw (e, y, d, deliver_pending) ((ok, s), p, tt)
            | inr d ↦ rw (e, y, d, deliver_pending) ((ok, s), p, ok)
          ]
        ]
  ]

module _ {K P : Type 0} (crypto : Scheme K P) (key_hex : String) where
  -- A message verifies with the public key of the setting.
  abbrev pub Authentic : Message P → Type 0
  Authentic m = verify_message crypto (get_public_key_hex crypto key_hex) m ≡ true

  -- What holds of a message behind its signing holds of all that leaves with it.
  pub send_to_agent-Every :
      (Ok : Message P → Type 0) (link : Link) (now : String) (msg : Message P) (box : Box P)
      → Ok (sign_message crypto key_hex now msg)
      → Every Ok box
      → Every Ok (send_to_agent crypto key_hex link now msg box).1
  unfolding send_to_agent
  send_to_agent-Every Ok link now msg box ok every =
      dispatch_message-Every Ok link (sign_message crypto key_hex now msg) box ok every

  run-Every :
      (k : K)
      → Verifies crypto
      → get_private_key crypto key_hex ≡ some k
      → (events : List (Event P)) → Every Authentic (run crypto key_hex events)
  unfolding run step send_to_agent
  run-Every k laws e [] = (tt, tt, tt)
  run-Every k laws e (send link now msg ∷ events) =
      dispatch_message-Every Authentic link (sign_message crypto key_hex now msg)
        (run crypto key_hex events) (verify-sign crypto key_hex now k msg laws e)
        (run-Every k laws e events)
  run-Every k laws e (reconnect sends deletes ∷ events) =
      deliver_pending-Every Authentic sends deletes (run crypto key_hex events)
        (run-Every k laws e events)
  run-Every k laws e (expire ∷ events) = let (s, p, q) = run-Every k laws e events in (s, p, tt)

-- Under a configured key, whatever the gateway was told to send and however the sockets and Redis answered, every message
-- that went over a socket or to the channel, at once or at a reconnection, and the one that still waits, verifies
-- with the public key of the setting.
pub run-Authentic :
    {K P : Type 0} (crypto : Scheme K P) (key_hex : String) (k : K) (events : List (Event P))
    → Verifies crypto
    → get_private_key crypto key_hex ≡ some k
    → Every (Authentic crypto key_hex) (run crypto key_hex events)
run-Authentic crypto key_hex k events laws e = run-Every crypto key_hex k laws e events
