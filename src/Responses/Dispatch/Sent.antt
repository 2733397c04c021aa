-- ===== src/Responses/Dispatch/Sent.antt =====
-- What reaches an agent from the dispatch of actions in api/routers/responses.py.
use security_agent.Prelude.{
  ◌≡◌, refl, sym, ap, ◌∙◌, Bool, true, false, List, [], ◌∷◌, Option, none, some, String, ◌==◌, ℕ,
  Bool-cases, Option-cases, inl, inr,
}
use security_agent.Signing.{Message, Scheme, get_private_key, sign_message}
use security_agent.Signing.RoundTrip.{Verifies, verify-sign, payload-sign_message}
use security_agent.Gateway.{Box, deliver_pending}
use security_agent.Gateway.Signed.{Every, Authentic, send_to_agent-Every, deliver_pending-Every}
use security_agent.Responses.{
  Python, Params, ResponseActionRequest, supported, validate_params, parse_agent_id_from_action,
  build_action_message,
}
use security_agent.Responses.Valid.{Allowed, model_validate-Allowed}
use security_agent.Responses.Dispatch.{
  State, update, Body, Call, prepare, ship, set_status, dispatch_action, Ack, record_response_ack,
  Event, dispatch, ack, reconnect, expire, step, run, params_of, reason_strips, log_audit,
  dispatched_row,
}

-- A message that carries parameters which its action allows.
abbrev pub Carries : Message ResponseActionRequest → Type 0
Carries m =
    (r : ResponseActionRequest) × (m.payload ≡ some r)
    × Allowed r.params
    × (supported r.action ≡ true)

module _ {V : Type 0} (py : Python V) where
  validate_params-Allowed :
      (action : String) (d : List (String × V)) (p : Params)
      → validate_params py action d ≡ some p
      → Allowed p × (supported action ≡ true)
  unfolding validate_params
  validate_params-Allowed action d p h = elim (Bool-cases (supported action)) [
    | inr n ↦ absurd (cc (rw n at h))
    | inl y ↦ (model_validate-Allowed py action d p (rw y at h), y)
  ]

  build-Carries :
      (action : String) (d : List (String × V)) (actor i at ts : String)
      (m : Message ResponseActionRequest)
      → build_action_message py action d actor i at ts ≡ some m
      → Carries m
  unfolding build_action_message
  build-Carries action d actor i at ts m h = elim (Option-cases (validate_params py action d)) [
    | inl e ↦ absurd (cc (rw (e, build_action_message) at h))
    | inr (p, e) ↦
        let r : ResponseActionRequest = record {
          action_id = i;
          action = action;
          params = p;
          actor = actor;
          issued_at = at;
        } in
        let payload : some r ≡ m.payload =
          ap (λ o. elim o [ none ↦ none | some x ↦ x.payload ])
            (rw (e, build_action_message) at h) in
        let (allowed, y) = validate_params-Allowed action d p e in (r, sym payload, allowed, y)
  ]

  prepare-Carries :
      (action : String) (body : Body V) (c : Call) (m : Message ResponseActionRequest)
      → (prepare py action body c).1 ≡ some m
      → Carries m
  unfolding prepare
  prepare-Carries action body c m h = elim (Bool-cases (supported action)) [
    | inr n ↦ absurd (cc (rw n at h))
    | inl y ↦ elim (Bool-cases (reason_strips py body.reason)) [
      | inr n ↦ absurd (cc (rw (y, n) at h))
      | inl strips ↦ elim (Option-cases (params_of py body.params)) [
        | inl e ↦ absurd (cc (rw (y, strips, e) at h))
        | inr (d, e) ↦ elim (Bool-cases (parse_agent_id_from_action py action d)) [
          | inr n ↦ absurd (cc (rw (y, strips, e, n) at h))
          | inl parsed ↦
              elim (Option-cases
                (build_action_message py action d c.actor c.action_id c.issued_at c.ts)) [
                  | inl b ↦ absurd (cc (rw (y, strips, e, parsed, b) at h))
                  | inr (m', b) ↦
                      let same : some m' ≡ some m = rw (y, strips, e, parsed, b) at h in
                      build-Carries action d c.actor c.action_id c.issued_at c.ts m (b ∙ same)
                ]
        ]
      ]
    ]
  ]

module _ {K V : Type 0} (crypto : Scheme K ResponseActionRequest) (key_hex : String) (k : K)
    (py : Python V) (laws : Verifies crypto) (keyed : get_private_key crypto key_hex ≡ some k) where
  -- A message that verifies, and carries parameters which its action allows.
  abbrev pub Good : Message ResponseActionRequest → Type 0
  Good m = Authentic crypto key_hex m × Carries m

  sign-Good :
      (now : String) (m : Message ResponseActionRequest)
      → Carries m
      → Good (sign_message crypto key_hex now m)
  sign-Good now m (r, e, allowed, y) = (
    verify-sign crypto key_hex now k m laws keyed,
    (r, payload-sign_message crypto key_hex now m ∙ e, allowed, y),
  )

  abbrev pub AllGood : State → Type 0
  AllGood st = (agent_id : String) → Every Good (st.boxes agent_id)

  update-Good :
      (a : String) (box : Box ResponseActionRequest) (boxes : String → Box ResponseActionRequest)
      → Every Good box
      → ((b : String) → Every Good (boxes b))
      → (b : String) → Every Good (update a box boxes b)
  unfolding update
  update-Good a box boxes new old b = elim (Bool-cases (a == b)) [
    | inl y ↦ rw y new
    | inr n ↦ rw n (old b)
  ]

  boxes-set_status :
      (works : Bool) (i : String) (row : _) (st : State)
      → (set_status works i row st).boxes ≡ st.boxes
  unfolding set_status
  boxes-set_status true i row st = refl
  boxes-set_status false i row st = refl

  ship-AllGood :
      (agent_id : String) (c : Call) (o : Option (Message ResponseActionRequest)) (st : State)
      → ((m : Message ResponseActionRequest) → o ≡ some m → Carries m)
      → AllGood st
      → AllGood (ship crypto key_hex agent_id c o st)
  unfolding ship
  ship-AllGood agent_id c none st carries good = good
  ship-AllGood agent_id c (some m) st carries good =
      let st' = set_status c.set_works c.action_id (dispatched_row agent_id) (log_audit c st) in
      let logged : (log_audit c st).boxes ≡ st.boxes = elim (Bool-cases c.audit_works) [
        | inl y ↦ rw y refl
        | inr n ↦ rw n refl
      ] in
      let same : st'.boxes ≡ st.boxes =
        boxes-set_status c.set_works c.action_id (dispatched_row agent_id) (log_audit c st)
        ∙ logged in
      let good' : (b : String) → Every Good (st'.boxes b) = λ b. rw same (good b) in
      update-Good agent_id _ st'.boxes
        (send_to_agent-Every crypto key_hex Good c.link c.now m (st'.boxes agent_id)
          (sign-Good c.now m (carries m refl)) (good' agent_id))
        good'

  dispatch_action-AllGood :
      (agent_id action : String) (body : Body V) (c : Call) (st : State)
      → AllGood st
      → AllGood (dispatch_action crypto key_hex py agent_id action body c st).1
  unfolding dispatch_action
  dispatch_action-AllGood agent_id action body c st good =
      ship-AllGood agent_id c (prepare py action body c).1 st (prepare-Carries py action body c)
        good

  record_response_ack-AllGood :
      (agent_id : String) (a : Ack) (now : ℕ) (works : Bool) (st : State)
      → AllGood st
      → AllGood (record_response_ack agent_id a now works st)
  unfolding record_response_ack
  record_response_ack-AllGood agent_id a now works st good = elim (Bool-cases (a.action_id == "")) [
    | inl y ↦ rw y good
    | inr n ↦ λ b. rw (n, boxes-set_status works a.action_id _ st) (good b)
  ]

  all_good : (events : List (Event V)) → AllGood (run crypto key_hex py events)
  unfolding run step
  all_good [] = λ b. (tt, tt, tt)
  all_good (dispatch agent_id action body c ∷ events) =
      dispatch_action-AllGood agent_id action body c (run crypto key_hex py events)
        (all_good events)
  all_good (ack agent_id a now works ∷ events) =
      record_response_ack-AllGood agent_id a now works (run crypto key_hex py events)
        (all_good events)
  all_good (reconnect agent_id sends deletes ∷ events) =
      let before = run crypto key_hex py events in
      update-Good agent_id (deliver_pending sends deletes (before.boxes agent_id)) before.boxes
        (deliver_pending-Every Good sends deletes (before.boxes agent_id)
          (all_good events agent_id))
        (all_good events)
  all_good (expire i ∷ events) = all_good events

-- Under a configured key, whatever operators asked for and agents answered, and however the audit log, Redis and
-- the sockets took it, every message that was sent or published to an agent, or that waits for it, verifies with
-- the public key, and carries an action of the list with parameters in its bounds: a pid from 1 to 4194304 and one
-- of three signals, or an absolute path of at most 4096 characters and a reason of at most 512.
pub run-Good :
    {K V : Type 0} (crypto : Scheme K ResponseActionRequest) (key_hex : String) (k : K)
    (py : Python V) (events : List (Event V)) (agent_id : String)
    → Verifies crypto
    → get_private_key crypto key_hex ≡ some k
    → Every
        (λ m. Authentic crypto key_hex m × Carries m)
        ((run crypto key_hex py events).boxes agent_id)
run-Good crypto key_hex k py events agent_id laws keyed =
    all_good crypto key_hex k py laws keyed events agent_id
