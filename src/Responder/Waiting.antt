-- ===== src/Responder/Waiting.antt =====
-- The wait for an approval: where its result comes from.
use security_agent.Prelude.{ℕ, ◌≤◌, ◌<◌, ◌≡◌, ◌≢◌, List, [], ◌∷◌, some, arith, ◌⊎◌}
use security_agent.Approval.{Status, pending, timeout}
use security_agent.Responder.{Poll, wait_loop, wait_result}

-- The status is one that the wait saw, before its limit.
abbrev pub Seen : ℕ → List Poll → Status → ℕ → Type 0
Seen limit [] status at = ⊥
Seen limit (p ∷ ps) status at =
    ((p.elapsed < limit) × (at ≡ p.elapsed) × ((p.message ≡ some status) ⊎ (p.row ≡ status)))
    ⊎ Seen limit ps status at

pub wait_loop-Seen :
    (limit : ℕ) (polls : List Poll) (status : Status) (at : ℕ)
    → wait_loop limit polls ≡ some (status, at)
    → (status ≢ pending) × (((status ≡ timeout) × (limit ≤ at)) ⊎ Seen limit polls status at)
unfolding wait_loop
wait_loop-Seen limit [] status at h = absurd (cc)
wait_loop-Seen limit (p ∷ ps) status at h = ground (arith, wait_loop-Seen limit ps status at)

-- A wait never returns 'pending'. What it returns is a status of the row or of a message that it saw
-- before its limit, or 'timeout' at the limit or later.
pub wait_result-Seen :
    (limit : ℕ) (before after : Status) (polls : List Poll) (status : Status) (at : ℕ)
    → wait_result limit before after polls ≡ some (status, at)
    → (status ≢ pending)
      × (((status ≡ timeout) × (limit ≤ at))
          ⊎ ((status ≡ before) ⊎ ((status ≡ after) ⊎ Seen limit polls status at)))
unfolding wait_result
wait_result-Seen limit before after polls status at h =
    ground (arith, wait_loop-Seen limit polls status at)
