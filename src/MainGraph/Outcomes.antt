-- ===== src/MainGraph/Outcomes.antt =====
-- The status of an event that was responded to, against the time that its approval took.
use security_agent.Prelude.{
  ℕ, ◌≤◌, ◌<◌, ◌≡◌, refl, false, List, [], ◌∷◌, Option, some, arith, inl, inr, ltb,
}
use security_agent.Approval.{Status, pending, approved, Level}
use security_agent.Responder.{Poll, wait_result, approval_timeout, level_timeout}
use security_agent.Responder.Waiting.{Seen, wait_result-Seen}
use security_agent.MainGraph.{
  Env, State, Pending, respond, execute, timed_out, within, respond_limit, responder_timeout,
  error_status, status_from_result,
}

Seen-before :
    (limit : ℕ) (polls : List Poll) (status : Status) (at : ℕ)
    → Seen limit polls status at
    → at < limit
Seen-before limit [] status at h = absurd h
Seen-before limit (p ∷ ps) status at (inl (l, e, x)) = ground arith
Seen-before limit (p ∷ ps) status at (inr h) = Seen-before limit ps status at h

-- A response that takes 300 seconds or more.
late_response :
    (env : Env) (s : State) (p : Pending) (at : ℕ)
    → env.response ≡ within respond_limit at p
    → respond_limit ≤ at
    → (execute env respond s).error ≡ some responder_timeout
unfolding execute within
late_response env s p at e h =
    let slow : ltb at respond_limit ≡ false = ground arith in
    let lost : env.response ≡ timed_out = rw slow at e in rw lost

status_from_result-error :
    (p : Option Pending) → status_from_result p (some responder_timeout) ≡ error_status
unfolding status_from_result
status_from_result-error p = refl

-- An approval of a playbook that arrives in the time of its level, but not in the first 300 seconds, is
-- lost: the wait returns 'approved' before its own limit, and the event is stored as an error.
pub late_approval-lost :
    (env : Env) (s : State) (p : Pending) (level : Level) (polls : List Poll) (at : ℕ)
    → wait_result (approval_timeout 0 level) pending pending polls ≡ some (approved, at)
    → respond_limit ≤ at
    → env.response ≡ within respond_limit at p
    → (at < level_timeout level)
      × (status_from_result (execute env respond s).pending_action (execute env respond s).error
          ≡ error_status)
unfolding approval_timeout
late_approval-lost env s p level polls at w late e =
    let (unsettled, seen) =
      wait_result-Seen (approval_timeout 0 level) pending pending polls approved at w in
    let early : at < level_timeout level = elim seen [
      | inl (t, l) ↦ absurd (cc)
      | inr (inl t) ↦ absurd (cc)
      | inr (inr (inl t)) ↦ absurd (cc)
      | inr (inr (inr t)) ↦ Seen-before (level_timeout level) polls approved at t
    ] in
    (early, rw (late_response env s p at e late) (status_from_result-error _))
