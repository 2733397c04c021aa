-- ===== src/Rescan/Progress.antt =====
-- The rounds of rescan.py: when a task goes on, and what is left of its queue.
use security_agent.Prelude.{
  ℕ, ◌<◌, ◌≡◌, Bool, true, false, List, [], Option, some, String, length, ◌⊎◌,
}
use security_agent.Rescan.{Entry, exhausted}

-- What is left of the queue where the task does not go on: all of it, or nothing where the task had used up its attempts.
abbrev pub Stops : ℕ → List Entry → List Entry → Type 0
Stops max queue left = (left ≡ queue) ⊎ ((exhausted max queue ≡ true) × (left ≡ []))

-- What a round may come to.
abbrev pub IsRound : ℕ → Option (List String) → List Entry → Bool × List Entry → Type 0
IsRound max stored queue (true, left) = (stored ≡ some []) × (length left < length queue)
IsRound max stored queue (false, left) = Stops max queue left
