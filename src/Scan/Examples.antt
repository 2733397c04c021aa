-- ===== src/Scan/Examples.antt =====
-- A group of two hosts, and turns five seconds apart.
use security_agent.Prelude.{
  ℕ, ◌+◌, ◌*◌, ◌<◌, ◌≡◌, refl, Bool, true, false, not, List, [], ◌∷◌, some, String, ◌==◌, mem, All,
  inl, inr, ◌⊎◌, arith,
}
use security_agent.Scan.{
  Host, names, in_group, add, resolve_target, resolve_all, resolve_targets, Turn, collect, dispatch,
  count_failed, Gate,
}
use security_agent.Scan.Targets.{IsAimed, IsKnown, IsUnknown, NoTwice, resolve_targets-IsAimed}
use security_agent.Scan.Groups.{IsMember, resolve_targets-group}
use security_agent.Scan.Waits.{Ends, GoesOn, sent_out, collect-Ends, collect-gives_up}

abbrev host : String → String → Host
host a name = record { agent_id = a; hostname = name; ip = "10.0.0.1"; group = some "prod" }

abbrev hosts : List Host
hosts = host "a1" "web" ∷ host "a2" "db" ∷ []

resolves : resolve_targets ("db" ∷ "prod" ∷ "nowhere" ∷ []) hosts ≡ "a2" ∷ "a1" ∷ []
unfolding resolve_targets resolve_all resolve_target names in_group add
resolves = refl

resolve_targets-IsAimed_example :
    (IsUnknown ("db" ∷ "prod" ∷ []) hosts
      × (resolve_targets ("db" ∷ "prod" ∷ []) hosts ≡ "db" ∷ "prod" ∷ []))
    ⊎ (IsKnown ("db" ∷ "prod" ∷ []) hosts
        × All (IsAimed ("db" ∷ "prod" ∷ []) hosts) (resolve_targets ("db" ∷ "prod" ∷ []) hosts)
        × NoTwice (resolve_targets ("db" ∷ "prod" ∷ []) hosts))
resolve_targets-IsAimed_example =
    resolve_targets-IsAimed ("db" ∷ "prod" ∷ []) hosts (refl, (refl, tt))

resolve_targets-group_example :
    All
      (λ h. IsMember "prod" h → mem h.agent_id (resolve_targets ("db" ∷ "prod" ∷ []) hosts) ≡ true)
      hosts
unfolding names
resolve_targets-group_example =
    resolve_targets-group "prod" ("db" ∷ "prod" ∷ []) hosts (inr (inl refl)) (refl, (refl, tt))

abbrev turns : ℕ → Turn
turns k = record { cancelled = false; results = []; time = 100 + 5 * k }

collect-Ends_example :
    (j : ℕ) × (r : String × ℕ) × (collect turns 60 100 false (sent_out 1 2 0 2 "global") ≡ some r)
    × Ends turns 2 "global" (100 + 60) j r
    × ((i : ℕ) → i < j → GoesOn turns 2 "global" (100 + 60) i)
collect-Ends_example =
    collect-Ends turns 60 100 1 0 2 2 "global" (λ j. omega arith) (omega arith) refl

abbrev up : String → Bool
up a = not (a == "a2")

abbrev gate : Gate
gate e a = up a

collect-gives_up_example :
    collect turns 1800 100 false (dispatch gate "global" ("prod" ∷ []) hosts false)
    ≡ some ("analyzing", 0)
unfolding resolve_targets resolve_all resolve_target names in_group add count_failed
collect-gives_up_example =
    collect-gives_up turns 1800 100 gate up ("prod" ∷ []) hosts "a1" ("a2" ∷ []) refl (λ e b. refl)
      (omega arith)
