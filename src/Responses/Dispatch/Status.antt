-- ===== src/Responses/Dispatch/Status.antt =====
-- The status keys of the dispatched actions in api/routers/responses.py, and who writes them.
use security_agent.Prelude.{
  ℕ, ◌≡◌, refl, sym, subst, ap, ◌∙◌, Bool, true, false, List, [], ◌∷◌, Option, none, some, String,
  ◌==◌, Bool-cases, Option-cases, inl, inr, ◌⊎◌, eq_iff,
}
use security_agent.Signing.{Message, Scheme}
use security_agent.Responses.{Python, ResponseActionRequest}
use security_agent.Responses.Dispatch.{
  StatusRow, State, update, Body, Call, prepare, ship, set_status, dispatch_action, dispatched_row,
  ack_row, log_audit, Ack, record_response_ack, get_action_status, Event, dispatch, ack, reconnect,
  expire, step, run,
}

-- The status that an agent's outcome gives.
abbrev pub Settles : Ack → String → Type 0
Settles a status = ((a.ok ≡ true) × (status ≡ "succeeded")) ⊎ ((a.ok ≡ false) × (status ≡ "failed"))

module _ {V : Type 0} (py : Python V) where
  -- An event that writes this row for this id: a request for an action on the row's agent that passed its checks,
  -- or an answer of the row's agent that names the id, which is not empty.
  abbrev pub Wrote : String → StatusRow → Event V → Type 0
  Wrote i row (dispatch agent_id action body c) =
      (c.action_id ≡ i)
      × (c.set_works ≡ true)
      × ((m : Message ResponseActionRequest) × ((prepare py action body c).1 ≡ some m))
      × (row.status ≡ "dispatched")
      × (row.agent_id ≡ agent_id)
      × (row.received_at ≡ none)
  Wrote i row (ack agent_id a now works) =
      (a.action_id ≡ i)
      × ((i == "") ≡ false)
      × (works ≡ true)
      × Settles a row.status
      × (row.agent_id ≡ agent_id)
      × (row.detail ≡ a.detail)
      × (row.received_at ≡ some now)
  Wrote i row (reconnect agent_id sends deletes) = ⊥
  Wrote i row (expire j) = ⊥

  abbrev pub WrittenIn : String → StatusRow → List (Event V) → Type 0
  WrittenIn i row [] = ⊥
  WrittenIn i row (e ∷ events) = Wrote i row e ⊎ WrittenIn i row events

ack_row-Settles :
    (agent_id : String) (a : Ack) (now : ℕ) → Settles a (ack_row agent_id a now).status
ack_row-Settles agent_id a now = elim (Bool-cases a.ok) [
  | inl y ↦ inl (y, rw y refl)
  | inr n ↦ inr (n, rw n refl)
]

-- A row behind a SET was there, or is the one set.
status-set_status :
    (works : Bool) (j i : String) (new row : StatusRow) (st : State)
    → (set_status works j new st).status i ≡ some row
    → ((j ≡ i) × (works ≡ true) × (row ≡ new)) ⊎ (st.status i ≡ some row)
unfolding set_status update
status-set_status false j i new row st h = inr h
status-set_status true j i new row st h = elim (Bool-cases (j == i)) [
  | inl y ↦ let got : some new ≡ some row = rw y at h in inl ((eq_iff j i).0 y, refl, cc)
  | inr n ↦ inr (rw n at h)
]

module _ {K : Type 0} (crypto : Scheme K ResponseActionRequest) (key_hex : String) where
  status-ship :
      (agent_id : String) (c : Call) (o : Option (Message ResponseActionRequest)) (st : State)
      (i : String) (row : StatusRow)
      → (ship crypto key_hex agent_id c o st).status i ≡ some row
      → ((c.action_id ≡ i)
          × (c.set_works ≡ true)
          × ((m : Message ResponseActionRequest) × (o ≡ some m))
          × (row ≡ dispatched_row agent_id))
        ⊎ (st.status i ≡ some row)
  unfolding ship
  status-ship agent_id c none st i row h = inr h
  status-ship agent_id c (some m) st i row h =
      let logged : (log_audit c st).status ≡ st.status = elim (Bool-cases c.audit_works) [
        | inl y ↦ rw y refl
        | inr n ↦ rw n refl
      ] in
      elim (status-set_status c.set_works c.action_id i (dispatched_row agent_id) row
        (log_audit c st) h) [
          | inl (same, works, is_row) ↦ inl (same, works, (m, refl), is_row)
          | inr was ↦ inr (rw (sym logged) was)
        ]

  status-dispatch_action :
      {V : Type 0} (py : Python V) (agent_id action : String) (body : Body V) (c : Call)
      (st : State) (i : String) (row : StatusRow)
      → (dispatch_action crypto key_hex py agent_id action body c st).1.status i ≡ some row
      → Wrote py i row (dispatch agent_id action body c) ⊎ (st.status i ≡ some row)
  unfolding dispatch_action
  status-dispatch_action py agent_id action body c st i row h =
      elim (status-ship agent_id c (prepare py action body c).1 st i row h) [
        | inl (same, works, sent, is_row) ↦ inl (
          same,
          works,
          sent,
          ap (λ r. r.status) is_row,
          ap (λ r. r.agent_id) is_row,
          ap (λ r. r.received_at) is_row,
        )
        | inr was ↦ inr was
      ]

status-record_response_ack :
    {V : Type 0} (py : Python V) (agent_id : String) (a : Ack) (now : ℕ) (works : Bool) (st : State)
    (i : String) (row : StatusRow)
    → (record_response_ack agent_id a now works st).status i ≡ some row
    → Wrote py i row (ack agent_id a now works) ⊎ (st.status i ≡ some row)
unfolding record_response_ack
status-record_response_ack py agent_id a now works st i row h =
    elim (Bool-cases (a.action_id == "")) [
      | inl y ↦ inr (rw y at h)
      | inr n ↦
          elim (status-set_status works a.action_id i (ack_row agent_id a now) row st (rw n at h)) [
            | inr was ↦ inr was
            | inl (same, done, is_row) ↦
                let named : (i == "") ≡ false = ap (λ j. j == "") (sym same) ∙ n in
                let settled : Settles a row.status =
                  subst (λ r. Settles a r.status) (sym is_row) (ack_row-Settles agent_id a now) in
                inl (
                  same,
                  named,
                  done,
                  settled,
                  ap (λ r. r.agent_id) is_row,
                  ap (λ r. r.detail) is_row,
                  ap (λ r. r.received_at) is_row,
                )
          ]
    ]

module _ {K V : Type 0} (crypto : Scheme K ResponseActionRequest) (key_hex : String)
    (py : Python V) where
  earlier :
      (e : Event V) (events : List (Event V)) (i : String) (row : StatusRow)
      → Wrote py i row e ⊎ ((run crypto key_hex py events).status i ≡ some row)
      → ((run crypto key_hex py events).status i ≡ some row → WrittenIn py i row events)
      → WrittenIn py i row (e ∷ events)
  earlier e events i row (inl wrote) before = inl wrote
  earlier e events i row (inr was) before = inr (before was)

  written :
      (events : List (Event V)) (i : String) (row : StatusRow)
      → (run crypto key_hex py events).status i ≡ some row
      → WrittenIn py i row events
  unfolding run step update
  written [] i row h = cc
  written (dispatch agent_id action body c ∷ events) i row h =
      earlier (dispatch agent_id action body c) events i row
        (status-dispatch_action crypto key_hex py agent_id action body c
          (run crypto key_hex py events) i row h)
        (written events i row)
  written (ack agent_id a now works ∷ events) i row h =
      earlier (ack agent_id a now works) events i row
        (status-record_response_ack py agent_id a now works (run crypto key_hex py events) i row h)
        (written events i row)
  written (reconnect agent_id sends deletes ∷ events) i row h = inr (written events i row h)
  written (expire j ∷ events) i row h = elim (Bool-cases (j == i)) [
    | inl y ↦ absurd (cc (rw y at h))
    | inr n ↦ inr (written events i row (rw n at h))
  ]

abbrev pub unknown_row : StatusRow
unknown_row = record { status = "unknown"; agent_id = ""; detail = ""; received_at = none }

-- After any requests, answers, reconnections and expiries, what an operator reads for an id is "unknown", or the row
-- of one of these events: "dispatched" and the agent of a request under that id which passed its checks, or, for an id
-- that is not empty, the agent, the detail and the time of an answer to that id, with "succeeded" where the agent
-- reported success and "failed" where it did not. The event's write to Redis worked.
pub get_action_status-WrittenIn :
    {K V : Type 0} (crypto : Scheme K ResponseActionRequest) (key_hex : String) (py : Python V)
    (events : List (Event V)) (works : Bool) (i : String) (row : StatusRow)
    → get_action_status works i (run crypto key_hex py events) ≡ some row
    → (row ≡ unknown_row) ⊎ WrittenIn py i row events
unfolding get_action_status
get_action_status-WrittenIn crypto key_hex py events false i row h = absurd (cc)
get_action_status-WrittenIn crypto key_hex py events true i row h =
    elim (Option-cases ((run crypto key_hex py events).status i)) [
      | inl e ↦ let got : some unknown_row ≡ some row = rw e at h in inl (cc)
      | inr (r, e) ↦
          let got : some r ≡ some row = rw e at h in
          inr (written crypto key_hex py events i row (e ∙ got))
    ]

-- Whoever an action was sent to, the answer of any agent that names its id, if Redis takes it, is what an operator
-- reads next, under that agent's id; only an answer without an id is dropped.
pub record_response_ack-overrides :
    {K V : Type 0} (crypto : Scheme K ResponseActionRequest) (key_hex : String) (py : Python V)
    (target other action : String) (body : Body V) (c : Call) (a : Ack) (now : ℕ) (st : State)
    → a.action_id ≡ c.action_id
    → (a.action_id == "") ≡ false
    → get_action_status true c.action_id (
        record_response_ack other a now true
          (dispatch_action crypto key_hex py target action body c st).1)
      ≡ some (ack_row other a now)
unfolding get_action_status record_response_ack set_status update
record_response_ack-overrides crypto key_hex py target other action body c a now st same named =
    let own : (a.action_id == c.action_id) ≡ true = (eq_iff a.action_id c.action_id).1 same in
    rw named (rw own refl)
