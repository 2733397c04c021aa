-- ===== src/Responses/Dispatch.antt =====
-- api/routers/responses.py, and `_record_response_ack` of agents/ws_gateway.py: the dispatch of an action, the
-- agent's answer, and the status that an operator polls. The audit log and Redis answer as parameters; the id, the
-- times and the user's role are given.
pub mod Sent
pub mod Status
use security_agent.Prelude.{
  ℕ, Bool, true, false, not, List, [], ◌∷◌, Option, none, some, String, ◌==◌, get_or, if◌then◌else◌,
}
use security_agent.Signing.{Message, Scheme}
use security_agent.Gateway.{Link, Box, empty_box, send_to_agent, deliver_pending}
use security_agent.Responses.{
  Python, ResponseActionRequest, supported, parse_agent_id_from_action, build_action_message,
}

-- A value of response_action:status:…
pub record StatusRow : Type 0 where
  pub status : String
  pub agent_id : String
  pub detail : String
  pub received_at : Option ℕ

-- The ids in the audit log, the status keys, and each agent's messages.
pub record State : Type 0 where
  pub audit : List String
  pub status : String → Option StatusRow
  pub boxes : String → Box ResponseActionRequest

abbrev pub initial : State
initial = record { audit = []; status = λ i. none; boxes = λ a. empty_box }

unfoldable pub update : {A : Type 0} → String → A → (String → A) → String → A
update k v m j = if k == j then v else m j

-- The JSON object of a request.
pub record Body (V : Type 0) : Type 0 where
  pub params : Option V
  pub reason : Option V

-- What a request is made with: its user, the fresh id and times, whether the audit log and Redis take a write, and
-- what the gateway meets.
pub record Call : Type 0 where
  pub actor : String
  pub action_id : String
  pub issued_at : String
  pub ts : String
  pub now : String
  pub audit_works : Bool
  pub set_works : Bool
  pub link : Link

pub data Answer : Type 0 where
  bad_request : Answer
  server_error : Answer
  dispatched : String → Answer

-- A response_ack's payload.
pub record Ack : Type 0 where
  pub action_id : String
  pub ok : Bool
  pub detail : String

abbrev pub log_audit : Call → State → State
log_audit c st = if c.audit_works then record st { audit = c.action_id ∷ st.audit } else st

unfoldable pub set_status : Bool → String → StatusRow → State → State
unfolding update
set_status works i row st =
    if works then record st { status = update i (some row) st.status } else st

abbrev pub dispatched_row : String → StatusRow
dispatched_row agent_id = record {
  status = "dispatched";
  agent_id = agent_id;
  detail = "";
  received_at = none;
}

abbrev pub ack_row : String → Ack → ℕ → StatusRow
ack_row agent_id ack now = record {
  status = if ack.ok then "succeeded" else "failed";
  agent_id = agent_id;
  detail = ack.detail;
  received_at = some now;
}

module _ {V : Type 0} (py : Python V) where
  -- body.get("params") or {}, if it is a dict.
  pub params_of : Option V → Option (List (String × V))
  params_of none = some []
  params_of (some v) = if py.truthy v then py.as_dict v else some []

  -- Whether (body.get("reason") or "").strip() returns.
  pub reason_strips : Option V → Bool
  reason_strips none = true
  reason_strips (some v) = if py.truthy v then py.is_str v else true

  -- The request's checks, up to the message.
  pub prepare : String → Body V → Call → Answer × Option (Message ResponseActionRequest)
  prepare action body c =
      if not (supported action)
      then (bad_request, none)
      else if not (reason_strips body.reason)
      then (server_error, none)
      else elim (params_of body.params) [
        | none ↦ (bad_request, none)
        | some d ↦
            if parse_agent_id_from_action py action d
            then elim (build_action_message py action d c.actor c.action_id c.issued_at c.ts) [
              | none ↦ (server_error, none)
              | some m ↦ (dispatched c.action_id, some m)
            ]
            else (bad_request, none)
      ]

unfoldable pub record_response_ack : String → Ack → ℕ → Bool → State → State
unfolding set_status
record_response_ack agent_id ack now works st =
    if ack.action_id == "" then st else set_status works ack.action_id (ack_row agent_id ack now) st

-- None where Redis raises, which answers 503.
unfoldable pub get_action_status : Bool → String → State → Option StatusRow
get_action_status false i st = none
get_action_status true i st = some (
    get_or (st.status i)
      (record { status = "unknown"; agent_id = ""; detail = ""; received_at = none }))

module _ {K : Type 0} (crypto : Scheme K ResponseActionRequest) (key_hex : String) where
  -- The audit log, the status, then the gateway.
  pub ship : String → Call → Option (Message ResponseActionRequest) → State → State
  unfolding update
  ship agent_id c none st = st
  ship agent_id c (some m) st =
      let st' = set_status c.set_works c.action_id (dispatched_row agent_id) (log_audit c st) in
      record st' {
        boxes =
            update agent_id (send_to_agent crypto key_hex c.link c.now m (st'.boxes agent_id)).1
              st'.boxes;
      }

  pub dispatch_action :
      {V : Type 0} → Python V → String → String → Body V → Call → State → Answer × State
  dispatch_action py agent_id action body c st =
      let (answer, msg) = prepare py action body c in (answer, ship agent_id c msg st)

pub data Event (V : Type 0) : Type 0 where
  dispatch : String → String → Body V → Call → Event V
  ack : String → Ack → ℕ → Bool → Event V
  reconnect : String → Bool → Bool → Event V
  expire : String → Event V

module _ {K V : Type 0} (crypto : Scheme K ResponseActionRequest) (key_hex : String)
    (py : Python V) where
  unfoldable pub step : Event V → State → State
  unfolding update dispatch_action record_response_ack
  step (dispatch agent_id action body c) st =
      (dispatch_action crypto key_hex py agent_id action body c st).1
  step (ack agent_id a now works) st = record_response_ack agent_id a now works st
  step (reconnect agent_id sends deletes) st = record st {
    boxes = update agent_id (deliver_pending sends deletes (st.boxes agent_id)) st.boxes;
  }
  step (expire i) st = record st { status = update i none st.status }

  unfoldable pub run : List (Event V) → State
  unfolding step
  run [] = initial
  run (e ∷ events) = step e (run events)
