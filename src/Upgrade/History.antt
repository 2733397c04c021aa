-- ===== src/Upgrade/History.antt =====
-- The status of an upgrade in agents/upgrade.py against the events that led to it, the newest first.
use security_agent.Prelude.{
  ◌≡◌, refl, sym, ap, ◌∙◌, ◌⊎◌, inl, inr, Bool, true, false, not, ◌&&◌, List, [], ◌∷◌, Option, none,
  some, String, get_or, ◌==◌, eq_iff, Bool-cases, same_text,
}
use security_agent.Upgrade.{
  UpgradeState, sent, queued_for_delivery, restarting, failed, confirmed, Status, Ack, Row,
  read_status, redis_update, get_upgrade_status, dispatched, acknowledged, is_target, is_restarting,
  online, record_upgrade_ack, confirm_upgrade_from_heartbeat, Event, dispatch, ack, heartbeat, poll,
  expire, step, run,
}

-- The version of the last dispatch that the row still knows.
abbrev pub last_dispatch : List Event → Option String
last_dispatch [] = none
last_dispatch (dispatch delivered version ∷ events) = some version
last_dispatch (expire ∷ events) = none
last_dispatch (ack a ∷ events) = last_dispatch events
last_dispatch (heartbeat version ∷ events) = last_dispatch events
last_dispatch (poll ∷ events) = last_dispatch events

-- Behind that dispatch, the agent acknowledged the version as verified.
abbrev pub HasAck : String → List Event → Type 0
HasAck v [] = ⊥
HasAck v (ack a ∷ events) = ((a.kind ≡ "agent") × (a.version ≡ v) × (a.ok ≡ true)) ⊎ HasAck v events
HasAck v (heartbeat version ∷ events) = HasAck v events
HasAck v (poll ∷ events) = HasAck v events
HasAck v _ = ⊥

-- Behind such an acknowledgement, a heartbeat reported the version.
abbrev pub HasBeat : String → List Event → Type 0
HasBeat v [] = ⊥
HasBeat v (heartbeat version ∷ events) = ((version ≡ v) × HasAck v events) ⊎ HasBeat v events
HasBeat v (ack a ∷ events) = HasBeat v events
HasBeat v (poll ∷ events) = HasBeat v events
HasBeat v _ = ⊥

-- What the state of a row stands for.
abbrev Meaning : Option UpgradeState → Option String → List Event → Type 0
Meaning (some restarting) target events = HasAck (get_or target "") events
Meaning (some confirmed) target events = (v : String) × (target ≡ some v) × HasBeat v events
Meaning _ target events = Unit

abbrev Justified : Status → List Event → Type 0
Justified s events =
    (s.target_version ≡ last_dispatch events) × Meaning s.state s.target_version events

ack-Meaning :
    (st : Option UpgradeState) (target : Option String) (a : Ack) (events : List Event)
    → Meaning st target events
    → Meaning st target (ack a ∷ events)
ack-Meaning none target a events h = tt
ack-Meaning (some sent) target a events h = tt
ack-Meaning (some queued_for_delivery) target a events h = tt
ack-Meaning (some restarting) target a events h = inr h
ack-Meaning (some failed) target a events h = tt
ack-Meaning (some confirmed) target a events h = h

heartbeat-Meaning :
    (st : Option UpgradeState) (target : Option String) (w : String) (events : List Event)
    → Meaning st target events
    → Meaning st target (heartbeat w ∷ events)
heartbeat-Meaning none target w events h = tt
heartbeat-Meaning (some sent) target w events h = tt
heartbeat-Meaning (some queued_for_delivery) target w events h = tt
heartbeat-Meaning (some restarting) target w events h = h
heartbeat-Meaning (some failed) target w events h = tt
heartbeat-Meaning (some confirmed) target w events h = (h.0, h.1, inr h.2)

poll-Meaning :
    (st : Option UpgradeState) (target : Option String) (events : List Event)
    → Meaning st target events
    → Meaning st target (poll ∷ events)
poll-Meaning none target events h = tt
poll-Meaning (some sent) target events h = tt
poll-Meaning (some queued_for_delivery) target events h = tt
poll-Meaning (some restarting) target events h = h
poll-Meaning (some failed) target events h = tt
poll-Meaning (some confirmed) target events h = h

is_restarting-restarting :
    (st : Option UpgradeState) → is_restarting st ≡ true → st ≡ some restarting
unfolding is_restarting
is_restarting-restarting none h = absurd (cc)
is_restarting-restarting (some sent) h = absurd (cc)
is_restarting-restarting (some queued_for_delivery) h = absurd (cc)
is_restarting-restarting (some restarting) h = refl
is_restarting-restarting (some failed) h = absurd (cc)
is_restarting-restarting (some confirmed) h = absurd (cc)

is_target-some : (v : String) (target : Option String) → is_target v target ≡ true → target ≡ some v
unfolding is_target
is_target-some v none h = absurd (cc)
is_target-some v (some t) h = ap some (sym ((eq_iff v t).0 h))

and-cases : (a b : Bool) → (a && b) ≡ true → (a ≡ true) × (b ≡ true)
and-cases true b h = (refl, h)
and-cases false b h = absurd (cc)

online-Justified :
    (v : String) (s : Status) (events : List Event)
    → s.state ≡ some restarting
    → Justified s events
    → Justified (online v s) (heartbeat v ∷ events)
unfolding online
online-Justified v s events e (t, m) =
    elim (Bool-cases (not (v == "") && is_target v s.target_version)) [
      | inl b ↦
          let (filled, hit) = and-cases _ _ b in
          let same : s.target_version ≡ some v = is_target-some v s.target_version hit in
          let acked : HasAck (get_or s.target_version "") events = rw e at m in
          rw b (t, (v, same, inl (refl, rw same at acked)))
      | inr b ↦ rw b (t, heartbeat-Meaning s.state s.target_version v events m)
    ]

heartbeat-Justified :
    (v : String) (row : Row) (events : List Event)
    → Justified (read_status row) events
    → Justified (read_status (confirm_upgrade_from_heartbeat v row)) (heartbeat v ∷ events)
unfolding confirm_upgrade_from_heartbeat get_upgrade_status redis_update
heartbeat-Justified v row events (t, m) =
    let s = read_status row in
    elim (Bool-cases (is_restarting s.state && s.ack_received)) [
      | inl b ↦
          let (own, received) = and-cases _ _ b in
          rw b (online-Justified v s events (is_restarting-restarting s.state own) (t, m))
      | inr b ↦ rw b (t, heartbeat-Meaning s.state s.target_version v events m)
    ]

ack-Justified :
    (a : Ack) (row : Row) (events : List Event)
    → Justified (read_status row) events
    → Justified (read_status (record_upgrade_ack a row)) (ack a ∷ events)
unfolding record_upgrade_ack get_upgrade_status redis_update acknowledged
ack-Justified a row events (t, m) =
    let s = read_status row in
    let kept : Meaning s.state s.target_version (ack a ∷ events) =
      ack-Meaning s.state s.target_version a events m in
    elim (Bool-cases (a.kind == "agent")) [
      | inr k ↦ rw k (t, kept)
      | inl k ↦ elim (Bool-cases (a.version == get_or s.target_version "")) [
        | inr b ↦ rw (k, b) (t, kept)
        | inl b ↦ elim (Bool-cases a.ok) [
          | inl o ↦
              rw (k, b, o)
                (
                  t,
                  inl (
                    (eq_iff a.kind "agent").0 k,
                    (eq_iff a.version (get_or s.target_version "")).0 b,
                    refl,
                  ),
                )
          | inr o ↦ rw (k, b, o) (t, tt)
        ]
      ]
    ]

dispatched-Meaning :
    (delivered : Bool) (v : String) (s : Status) (events : List Event)
    → Justified (dispatched delivered v s) (dispatch delivered v ∷ events)
unfolding dispatched
dispatched-Meaning true v s events = (refl, tt)
dispatched-Meaning false v s events = (refl, tt)

run-Justified : (events : List Event) → Justified (read_status (run events)) events
unfolding run step redis_update get_upgrade_status
run-Justified [] = (refl, tt)
run-Justified (dispatch delivered v ∷ events) =
    dispatched-Meaning delivered v (read_status (run events)) events
run-Justified (ack a ∷ events) = ack-Justified a (run events) events (run-Justified events)
run-Justified (heartbeat v ∷ events) =
    heartbeat-Justified v (run events) events (run-Justified events)
run-Justified (poll ∷ events) =
    let (t, m) = run-Justified events in
    let s = read_status (run events) in (t, poll-Meaning s.state s.target_version events m)
run-Justified (expire ∷ events) = (refl, tt)

-- If an upgrade's row is confirmed, the row has seen a dispatch, the agent acknowledged the version of the last one
-- as verified behind it, and a heartbeat reported that version behind the acknowledgement.
pub run-confirmed :
    (events : List Event)
    → (read_status (run events)).state ≡ some confirmed
    → (v : String) × (last_dispatch events ≡ some v) × HasBeat v events
run-confirmed events h =
    let (t, m) = run-Justified events in
    let (v, e, beat) : (v : String) × ((read_status (run events)).target_version ≡ some v)
        × HasBeat v events =
      rw h at m in
    (v, sym t ∙ e, beat)

-- A dispatch of a version that is not empty, then the agent's acknowledgement of it as verified, a poll, and a
-- heartbeat with it, confirm the upgrade, whatever row there was.
pub upgrade-confirmed :
    (row : Row) (delivered : Bool) (v reason : String)
    → (v == "") ≡ false
    → (read_status (
        step (heartbeat v) (
          step poll (
            step
              (ack (record { kind = "agent"; version = v; ok = true; error = reason }))
              (step (dispatch delivered v) row))))).state
      ≡ some confirmed
unfolding step redis_update dispatched record_upgrade_ack confirm_upgrade_from_heartbeat
    get_upgrade_status acknowledged is_target is_restarting online
upgrade-confirmed row delivered v reason h = rw (same_text v, h, same_text v) refl
